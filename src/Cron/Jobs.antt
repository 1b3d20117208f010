-- ===== src/Cron/Jobs.antt =====
-- pkg/cron/service.go: the list of jobs, looked up, changed and filtered by ID.
use elvis.Base.{
  ℕ, ◌≡◌, refl, sym, ap, subst, ◌∙◌, Bool, true, false, List, [], ◌∷◌, none, some, Text, text_eq,
  text_eq_iff, any, All, if◌then◌else◌, arith,
}
use elvis.Cron.{CronJob, is_due, due_ids, find_job, change_job, without_job}

-- The jobs' IDs differ from one another.
abbrev pub Unique : List CronJob → Type 0
Unique [] = Unit
Unique (job ∷ jobs) = All (λ j. text_eq j.id job.id ≡ false) jobs × Unique jobs

pub text_eq_sym : (s t : Text) → text_eq s t ≡ text_eq t s
text_eq_sym s t = ground (arith, text_eq_iff s t, text_eq_iff t s)

-- A change `f` of jobs that leaves the ID alone on the jobs with the ID `id`.
abbrev pub KeepsId : Text → (CronJob → CronJob) → Type 0
KeepsId id f = (j : CronJob) → text_eq j.id id ≡ true → text_eq (f j).id id ≡ true

keeps-text_eq :
    (id k : Text) (f : CronJob → CronJob)
    → KeepsId id f
    → (j : CronJob) → text_eq j.id id ≡ true
    → text_eq (f j).id k ≡ text_eq j.id k
keeps-text_eq id k f keeps j e =
    ap (λ i. text_eq i k)
      ((text_eq_iff (f j).id id).0 (keeps j e) ∙ sym ((text_eq_iff j.id id).0 e))

module _ (id : Text) (f : CronJob → CronJob) (keeps : KeepsId id f) where
  -- The first job with the ID, after it was changed.
  pub find-change_same :
      (jobs : List CronJob) (job : CronJob)
      → find_job id jobs ≡ some job
      → find_job id (change_job id f jobs) ≡ some (f job)
  unfolding find_job change_job
  find-change_same [] job h = absurd (ground arith)
  find-change_same (j ∷ jobs) job h = go (text_eq j.id id) refl (find-change_same jobs job) h
    where
      go :
          (b : Bool)
          → text_eq j.id id ≡ b
          → (find_job id jobs ≡ some job → find_job id (change_job id f jobs) ≡ some (f job))
          → (if b then some j else find_job id jobs) ≡ some job
          → find_job id (if b then f j ∷ jobs else j ∷ change_job id f jobs) ≡ some (f job)
      go true e rec h = rw (keeps j e) (ap (λ o. elim o [ none ↦ none | some x ↦ some (f x) ]) h)
      go false e rec h = rw e (rec h)

  -- A job with another ID.
  pub find-change_other :
      (k : Text)
      → text_eq id k ≡ false
      → (jobs : List CronJob) → find_job k (change_job id f jobs) ≡ find_job k jobs
  unfolding find_job change_job
  find-change_other k ne [] = refl
  find-change_other k ne (j ∷ jobs) = go (text_eq j.id id) refl (find-change_other k ne jobs)
    where
      other : text_eq j.id id ≡ true → text_eq j.id k ≡ false
      other e = ap (λ i. text_eq i k) ((text_eq_iff j.id id).0 e) ∙ ne

      go :
          (b : Bool)
          → text_eq j.id id ≡ b
          → find_job k (change_job id f jobs) ≡ find_job k jobs
          → find_job k (if b then f j ∷ jobs else j ∷ change_job id f jobs)
            ≡ (if text_eq j.id k then some j else find_job k jobs)
      go true e rec = rw (keeps-text_eq id k f keeps j e, other e) refl
      go false e rec = rw rec refl

  change-All :
      (k : Text) (jobs : List CronJob)
      → All (λ j. text_eq j.id k ≡ false) jobs
      → All (λ j. text_eq j.id k ≡ false) (change_job id f jobs)
  unfolding change_job
  change-All k [] h = tt
  change-All k (j ∷ jobs) (h, hs) = go (text_eq j.id id) refl (change-All k jobs hs)
    where
      go :
          (b : Bool)
          → text_eq j.id id ≡ b
          → All (λ j. text_eq j.id k ≡ false) (change_job id f jobs)
          → All (λ j. text_eq j.id k ≡ false) (if b then f j ∷ jobs else j ∷ change_job id f jobs)
      go true e rec = (keeps-text_eq id k f keeps j e ∙ h, hs)
      go false e rec = (h, rec)

  pub change-Unique : (jobs : List CronJob) → Unique jobs → Unique (change_job id f jobs)
  unfolding change_job
  change-Unique [] u = tt
  change-Unique (j ∷ jobs) (h, hs) = go (text_eq j.id id) refl (change-Unique jobs hs)
    where
      go :
          (b : Bool)
          → text_eq j.id id ≡ b
          → Unique (change_job id f jobs)
          → Unique (if b then f j ∷ jobs else j ∷ change_job id f jobs)
      go true e rec = (
        subst (λ i. All (λ x. text_eq x.id i ≡ false) jobs)
            (sym ((text_eq_iff (f j).id id).0 (keeps j e) ∙ sym ((text_eq_iff j.id id).0 e))) h,
        hs,
      )
      go false e rec = (change-All j.id jobs h, rec)

module _ (id : Text) where
  pub find-without_same : (jobs : List CronJob) → find_job id (without_job id jobs) ≡ none
  unfolding find_job without_job
  find-without_same [] = refl
  find-without_same (j ∷ jobs) = go (text_eq j.id id) refl (find-without_same jobs)
    where
      go :
          (b : Bool)
          → text_eq j.id id ≡ b
          → find_job id (without_job id jobs) ≡ none
          → find_job id (if b then without_job id jobs else j ∷ without_job id jobs) ≡ none
      go true e rec = rec
      go false e rec = rw e rec

  pub find-without_other :
      (k : Text)
      → text_eq id k ≡ false
      → (jobs : List CronJob) → find_job k (without_job id jobs) ≡ find_job k jobs
  unfolding find_job without_job
  find-without_other k ne [] = refl
  find-without_other k ne (j ∷ jobs) = go (text_eq j.id id) refl (find-without_other k ne jobs)
    where
      go :
          (b : Bool)
          → text_eq j.id id ≡ b
          → find_job k (without_job id jobs) ≡ find_job k jobs
          → find_job k (if b then without_job id jobs else j ∷ without_job id jobs)
            ≡ (if text_eq j.id k then some j else find_job k jobs)
      go true e rec = rw (ap (λ i. text_eq i k) ((text_eq_iff j.id id).0 e), ne) rec
      go false e rec = rw rec refl

  without-All :
      (k : Text) (jobs : List CronJob)
      → All (λ j. text_eq j.id k ≡ false) jobs
      → All (λ j. text_eq j.id k ≡ false) (without_job id jobs)
  unfolding without_job
  without-All k [] h = tt
  without-All k (j ∷ jobs) (h, hs) = go (text_eq j.id id) (without-All k jobs hs)
    where
      go :
          (b : Bool)
          → All (λ j. text_eq j.id k ≡ false) (without_job id jobs)
          → All
              (λ j. text_eq j.id k ≡ false)
              (if b then without_job id jobs else j ∷ without_job id jobs)
      go true rec = rec
      go false rec = (h, rec)

  pub without-Unique : (jobs : List CronJob) → Unique jobs → Unique (without_job id jobs)
  unfolding without_job
  without-Unique [] u = tt
  without-Unique (j ∷ jobs) (h, hs) = go (text_eq j.id id) (without-Unique jobs hs)
    where
      go :
          (b : Bool)
          → Unique (without_job id jobs)
          → Unique (if b then without_job id jobs else j ∷ without_job id jobs)
      go true rec = rec
      go false rec = (without-All j.id jobs h, rec)

-- Where IDs differ, the due jobs with an ID are the one that a lookup finds.
pub due_ids-find :
    (now : ℕ) (id : Text) (jobs : List CronJob)
    → Unique jobs
    → any (text_eq id) (due_ids now jobs)
      ≡ elim (find_job id jobs) [ none ↦ false | some j ↦ is_due now j ]
unfolding due_ids find_job
due_ids-find now id [] u = refl
due_ids-find now id (j ∷ jobs) (h, u) =
    go (text_eq j.id id) refl (is_due now j) refl (due_ids-find now id jobs u)
  where
    absent :
        (xs : List CronJob)
        → All (λ x. text_eq x.id id ≡ false) xs
        → any (text_eq id) (due_ids now xs) ≡ false
    absent [] a = refl
    absent (x ∷ xs) (a, rest) = due (is_due now x) (absent xs rest)
      where
        due :
            (c : Bool)
            → any (text_eq id) (due_ids now xs) ≡ false
            → any (text_eq id) (if c then x.id ∷ due_ids now xs else due_ids now xs) ≡ false
        due true e = rw (text_eq_sym id x.id, a) e
        due false e = e

    fresh : text_eq j.id id ≡ true → All (λ x. text_eq x.id id ≡ false) jobs
    fresh e = subst (λ i. All (λ x. text_eq x.id i ≡ false) jobs) ((text_eq_iff j.id id).0 e) h

    go :
        (b : Bool)
        → text_eq j.id id ≡ b
        → (c : Bool) → is_due now j ≡ c
        → any (text_eq id) (due_ids now jobs)
          ≡ elim (find_job id jobs) [ none ↦ false | some x ↦ is_due now x ]
        → any (text_eq id) (if c then j.id ∷ due_ids now jobs else due_ids now jobs)
          ≡ elim (if b then some j else find_job id jobs) [ none ↦ false | some x ↦ is_due now x ]
    go true e true d rec = rw (text_eq_sym id j.id, e, d) refl
    go true e false d rec = rw d (absent jobs (fresh e))
    go false e true d rec = rw (text_eq_sym id j.id, e) rec
    go false e false d rec = rec
