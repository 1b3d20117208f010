-- ===== src/Cron/Due.antt =====
-- pkg/cron/service.go: which jobs a check claims, and when the next one is due.
use elvis.Base.{
  ℕ, ◌≤◌, ◌≡◌, refl, sym, ap, subst, ◌∙◌, inl, inr, Bool, true, false, ◌&&◌, ◌||◌, not, Bool-cases,
  List, [], ◌∷◌, Option, none, some, Text, text_eq, text_eq_refl, any, is_nil, All, if◌then◌else◌,
  ℤ, pos, lt_int, le_int, le_int_trans, le-of_lt, le-of_not_lt, arith,
}
use elvis.Cron.{
  Write, written, kept, torn, CronJob, CronService, next_run, with_next_run, is_due, due_ids,
  clear_due, earlier, earliest, jobs_of, save_store_unsafe, get_next_wake_ms, claim_due,
}

pos_le : (n m : ℕ) → n ≤ m → le_int (pos n) (pos m) ≡ true
unfolding le_int
pos_le n m h = ground arith

-- The tests that a claim and `getNextWakeMS` make on one next run.
abbrev pub reached : ℕ → Option ℤ → Bool
reached now none = false
reached now (some t) = le_int t (pos now)

or_true : (b : Bool) → (b || true) ≡ true
or_true true = refl
or_true false = refl

or_false : (a : Bool) → a ≡ (a || false)
or_false true = refl
or_false false = refl

pub is_due_lem :
    (now : ℕ) (job : CronJob) → is_due now job ≡ (job.enabled && reached now (next_run job))
unfolding is_due
is_due_lem now job = elim (next_run job) [ none ↦ refl | some t ↦ refl ]

is_due-reset : (now : ℕ) (job : CronJob) → is_due now (with_next_run none job) ≡ false
unfolding is_due
is_due-reset now job = go job.enabled
  where
    go : (b : Bool) → (b && false) ≡ false
    go true = refl
    go false = refl

clear_due-not_due :
    (now : ℕ) (ids : List Text) (jobs : List CronJob)
    → ((id : Text) → any (text_eq id) (due_ids now jobs) ≡ true → any (text_eq id) ids ≡ true)
    → All (λ job. is_due now job ≡ false) (clear_due ids jobs)
unfolding clear_due due_ids
clear_due-not_due now ids [] h = tt
clear_due-not_due now ids (job ∷ jobs) h = (
  first (is_due now job) refl (any (text_eq job.id) ids) refl,
  clear_due-not_due now ids jobs (λ id e. h id (keep id (is_due now job) e)),
)
  where
    keep :
        (id : Text) (b : Bool)
        → any (text_eq id) (due_ids now jobs) ≡ true
        → any (text_eq id) (if b then job.id ∷ due_ids now jobs else due_ids now jobs) ≡ true
    keep id true e = rw e (or_true (text_eq id job.id))
    keep id false e = e

    first :
        (b : Bool)
        → is_due now job ≡ b
        → (c : Bool) → any (text_eq job.id) ids ≡ c
        → is_due now (if c then with_next_run none job else job) ≡ false
    first b e true k = is_due-reset now job
    first false e false k = e
    first true e false k = absurd (ground (arith, h job.id, text_eq_refl job.id))

pub jobs_of-save :
    {H : Type 0} (saved : Write) (cs : CronService H)
    → jobs_of (save_store_unsafe saved cs) ≡ jobs_of cs
unfolding save_store_unsafe
jobs_of-save written cs = refl
jobs_of-save kept cs = refl
jobs_of-save torn cs = refl

-- Where no job is due, none is due at an earlier time.
earlier-due_ids :
    (now before : ℕ) (jobs : List CronJob)
    → before ≤ now
    → All (λ job. is_due now job ≡ false) jobs
    → due_ids before jobs ≡ []
unfolding due_ids
earlier-due_ids now before [] le h = refl
earlier-due_ids now before (job ∷ jobs) le (h, hs) =
    ap (λ b. if b then job.id ∷ due_ids before jobs else due_ids before jobs)
      (is_due_lem before job ∙ idle job.enabled (next_run job) (sym (is_due_lem now job) ∙ h))
    ∙ earlier-due_ids now before jobs le hs
  where
    idle :
        (b : Bool) (t : Option ℤ) → (b && reached now t) ≡ false → (b && reached before t) ≡ false
    idle false t k = refl
    idle true none k = refl
    idle true (some t) k = elim (Bool-cases (le_int t (pos before))) [
      | inr e ↦ e
      | inl e ↦
          absurd (ground (arith, k, le_int_trans t (pos before) (pos now) e (pos_le before now le)))
    ]

module _ {H : Type 0} where
  -- After the first section of a check, however its write ends, no job is due at the time of the check,
  -- and a second check at that time or an earlier one, before the store changes or is loaded again,
  -- claims nothing.
  pub claim_due-none_due :
      (now before : ℕ) (saved again : Write) (cs : CronService H)
      → before ≤ now
      → All (λ job. is_due now job ≡ false) (jobs_of (claim_due now saved cs).0)
        × ((claim_due before again (claim_due now saved cs).0).1 ≡ [])
  unfolding claim_due
  claim_due-none_due now before saved again cs le =
      let idle =
        subst (All (λ job. is_due now job ≡ false)) (sym (jobs_of-save saved _))
          (clear_due-not_due now _ (jobs_of cs) (λ id h. h)) in
      (idle, earlier-due_ids now before _ le idle)

due_ids_none :
    (now : ℕ) (jobs : List CronJob) → is_nil (due_ids now jobs) ≡ not (any (is_due now) jobs)
unfolding due_ids
due_ids_none now [] = refl
due_ids_none now (job ∷ jobs) = go (is_due now job) (due_ids_none now jobs)
  where
    go :
        (b : Bool)
        → is_nil (due_ids now jobs) ≡ not (any (is_due now) jobs)
        → is_nil (if b then job.id ∷ due_ids now jobs else due_ids now jobs)
          ≡ not (b || any (is_due now) jobs)
    go true h = refl
    go false h = h

reached-earlier :
    (now : ℕ) (wake t : Option ℤ)
    → reached now (earlier wake t) ≡ (reached now wake || reached now t)
unfolding earlier
reached-earlier now none none = refl
reached-earlier now (some w) none = ground arith
reached-earlier now none (some t) = refl
reached-earlier now (some w) (some t) = elim (Bool-cases (lt_int t w)) [
  | inl e ↦ rw e (
      le_or (le_int t (pos now)) (le_int w (pos now)) (le_int_trans t w (pos now) (le-of_lt t w e)))
  | inr e ↦ rw e (
      or_le (le_int w (pos now)) (le_int t (pos now))
        (le_int_trans w t (pos now) (le-of_not_lt t w e)))
]
  where
    le_or : (a b : Bool) → (b ≡ true → a ≡ true) → a ≡ (b || a)
    le_or true true h = refl
    le_or true false h = refl
    le_or false true h = h refl
    le_or false false h = refl

    or_le : (a b : Bool) → (b ≡ true → a ≡ true) → a ≡ (a || b)
    or_le true b h = refl
    or_le false true h = h refl
    or_le false false h = refl

earliest-reached :
    (now : ℕ) (jobs : List CronJob) (wake : Option ℤ)
    → reached now (earliest jobs wake) ≡ (reached now wake || any (is_due now) jobs)
unfolding earliest
earliest-reached now [] wake = or_false (reached now wake)
earliest-reached now (job ∷ jobs) wake =
    earliest-reached now jobs _
    ∙ ap (λ b. b || any (is_due now) jobs) (one job.enabled refl)
    ∙ assoc (reached now wake) (is_due now job) _
  where
    assoc : (a b c : Bool) → ((a || b) || c) ≡ (a || (b || c))
    assoc true b c = refl
    assoc false b c = refl

    one :
        (b : Bool)
        → job.enabled ≡ b
        → reached now (if b then earlier wake (next_run job) else wake)
          ≡ (reached now wake || is_due now job)
    one true e = rw (is_due_lem now job, e) (reached-earlier now wake (next_run job))
    one false e = rw (is_due_lem now job, e) (or_false (reached now wake))

module _ {H : Type 0} where
  -- A check claims a job if and only if the earliest next run that `getNextWakeMS` gives, which `Status` reports, is reached.
  pub claim_due-next_wake :
      (now : ℕ) (saved : Write) (cs : CronService H)
      → is_nil (claim_due now saved cs).1 ≡ not (reached now (get_next_wake_ms cs))
  unfolding claim_due get_next_wake_ms
  claim_due-next_wake now saved cs =
      due_ids_none now (jobs_of cs) ∙ ap not (sym (earliest-reached now (jobs_of cs) none))
