-- ===== src/Cron/NextRun.antt =====
-- pkg/cron/service.go: computed next runs against the clock, and what a start makes of missed jobs.
use elvis.Base.{
  sym, ℕ, ◌+◌, ◌^◌, ◌<◌, ◌≤◌, ◌≡◌, refl, ap, ap₂, subst, ◌∙◌, Bool, true, false, not, ◌&&◌, Option,
  none, some, List, [], ◌∷◌, Text, codes, text_eq, is_nil, All, if◌then◌else◌, ℤ, pos, negsuc,
  to_int64, add_int64, lt_int, le_int, not_le-of_lt, add_int64-after, arith,
}
use elvis.Cron.{
  Write, is_written, CronSchedule, CronJob, CronService, CronError, failed_to_load, failed_to_save,
  next_run, with_next_run, at_run, every_run, compute_next_run, is_due, jobs_of, load_store,
  save_store_unsafe,
}
use elvis.Cron.Due.{jobs_of-save, reached, is_due_lem}
use elvis.Cron.Runs.{recompute_jobs, recompute_next_runs, start}

-- The interval of a schedule, 0 if it has none.
abbrev pub interval : Option ℤ → ℕ
interval none = 0
interval (some (pos d)) = d
interval (some (negsuc d)) = 0

-- `gronx.NextTickAfter` gives a time after the one it is asked for.
abbrev pub TicksAfter : (Text → ℕ → Option ℤ) → Type 0
TicksAfter tick =
    (expr : Text) (now : ℕ) (t : ℤ) → tick expr now ≡ some t → lt_int (pos now) t ≡ true

-- A next run, if there is one, is after a time.
abbrev After : ℕ → Option ℤ → Type 0
After now none = Unit
After now (some t) = lt_int (pos now) t ≡ true

tick-After :
    (tick : Text → ℕ → Option ℤ)
    → TicksAfter tick
    → (expr : Text) (now : ℕ) → After now (tick expr now)
tick-After tick law expr now = go (tick expr now) refl
  where
    go : (o : Option ℤ) → tick expr now ≡ o → After now o
    go none e = tt
    go (some t) e = law expr now t e

next-After :
    (tick : Text → ℕ → Option ℤ)
    → TicksAfter tick
    → (schedule : CronSchedule) (now : ℕ) → now + interval schedule.every_ms < 2 ^ 63
    → After now (compute_next_run tick schedule now)
unfolding compute_next_run le_int
next-After tick law schedule now h =
    go (text_eq schedule.kind (codes "at")) (text_eq schedule.kind (codes "every"))
      (text_eq schedule.kind (codes "cron")) (is_nil schedule.expr)
  where
    at : (o : Option ℤ) → After now (at_run now o)
    at none = tt
    at (some t) = test (lt_int (pos now) t) refl
      where
        test : (b : Bool) → lt_int (pos now) t ≡ b → After now (if b then some t else none)
        test true e = e
        test false e = tt

    every : (o : Option ℤ) → now + interval o < 2 ^ 63 → After now (every_run now o)
    every none k = tt
    every (some (negsuc d)) k = tt
    every (some (pos d)) k = test (le_int (pos d) (pos 0)) refl
      where
        test :
            (b : Bool)
            → le_int (pos d) (pos 0) ≡ b
            → After now (if b then none else some (add_int64 now (pos d)))
        test true e = tt
        test false e = add_int64-after now d (positive d e) k
          where
            positive : (d : ℕ) → le_int (pos d) (pos 0) ≡ false → 0 < d
            positive d e = ground arith

    go :
        (a b c d : Bool)
        → After now (
            if a
            then at_run now schedule.at_ms
            else if b
            then every_run now schedule.every_ms
            else if c
            then if d then none else tick schedule.expr now
            else none)
    go true b c d = at schedule.at_ms
    go false true c d = every schedule.every_ms h
    go false false true true = tt
    go false false true false = tick-After tick law schedule.expr now
    go false false false d = tt

-- Without overflow of the clock and the interval, a next run is after the time it is computed at.
pub compute_next_run-after :
    (tick : Text → ℕ → Option ℤ)
    → TicksAfter tick
    → (schedule : CronSchedule) (now : ℕ) → now + interval schedule.every_ms < 2 ^ 63
    → (t : ℤ) → compute_next_run tick schedule now ≡ some t
    → lt_int (pos now) t ≡ true
compute_next_run-after tick law schedule now h t e =
    subst (After now) e (next-After tick law schedule now h)

wraps :
    (now d later : ℕ)
    → now < 2 ^ 63
    → d < 2 ^ 63
    → 2 ^ 63 ≤ now + d
    → reached later (every_run now (some (pos d))) ≡ true
unfolding le_int add_int64 to_int64
wraps now d later h k o = ground arith

-- With overflow: an interval that takes the clock beyond 2⁶³ - 1 gives a job that is due at once, and at
-- every other time.
pub compute_next_run-overflow :
    (tick : Text → ℕ → Option ℤ) (schedule : CronSchedule) (now d : ℕ)
    → text_eq schedule.kind (codes "at") ≡ false
    → text_eq schedule.kind (codes "every") ≡ true
    → schedule.every_ms ≡ some (pos d)
    → now < 2 ^ 63
    → d < 2 ^ 63
    → 2 ^ 63 ≤ now + d
    → (later : ℕ) → reached later (compute_next_run tick schedule now) ≡ true
unfolding compute_next_run
compute_next_run-overflow tick schedule now d a b e h k o later =
    rw (a, b, e) (wraps now d later h k o)

-- A start at the time `now` recomputes every enabled job.
recompute_jobs-not_due :
    (tick : Text → ℕ → Option ℤ)
    → TicksAfter tick
    → (now : ℕ) (jobs : List CronJob)
    → All (λ job. now + interval job.schedule.every_ms < 2 ^ 63) jobs
    → All (λ job. is_due now job ≡ false) (recompute_jobs tick now jobs)
unfolding recompute_jobs
recompute_jobs-not_due tick law now [] h = tt
recompute_jobs-not_due tick law now (job ∷ jobs) (h, rest) =
    (one job.enabled refl, recompute_jobs-not_due tick law now jobs rest)
  where
    not_reached : (o : Option ℤ) → After now o → reached now o ≡ false
    not_reached none a = refl
    not_reached (some t) a = not_le-of_lt (pos now) t a

    one :
        (b : Bool)
        → job.enabled ≡ b
        → is_due now (if b then with_next_run (compute_next_run tick job.schedule now) job else job)
          ≡ false
    one true e =
        is_due_lem now _
        ∙ ap₂ (λ a b. a && b) e (not_reached _ (next-After tick law job.schedule now h))
    one false e = is_due_lem now job ∙ ap (λ a. a && reached now (next_run job)) e

module _ {H : Type 0} where
  -- A start that succeeds leaves no job due at its time, also none whose time passed while the
  -- service was down, when the clock and the intervals do not overflow.
  pub start-none_due :
      (tick : Text → ℕ → Option ℤ)
      → TicksAfter tick
      → (now : ℕ) (saved : Write) (cs after : CronService H) → cs.running ≡ false
      → All (λ job. now + interval job.schedule.every_ms < 2 ^ 63) (jobs_of (load_store cs).0)
      → start tick now saved cs ≡ (after, none)
      → All (λ job. is_due now job ≡ false) (jobs_of after)
  unfolding start save_store_unsafe recompute_next_runs
  start-none_due tick law now saved cs after stopped h e =
      go cs.running stopped (load_store cs).1 (is_written saved) e
    where
      pair : CronService H → Option CronError → CronService H × Option CronError
      pair s e = (s, e)

      computed : CronService H
      computed = recompute_next_runs tick now (load_store cs).0

      go :
          (r : Bool)
          → r ≡ false
          → (ok ok_write : Bool)
          → (if r
              then pair cs none
              else if not ok
              then pair (load_store cs).0 (some failed_to_load)
              else if not ok_write
              then pair (save_store_unsafe saved computed) (some failed_to_save)
              else pair (record (save_store_unsafe saved computed) { running = true }) none)
            ≡ pair after none
          → All (λ job. is_due now job ≡ false) (jobs_of after)
      go true r ok w e = absurd (ground arith)
      go false r false w e = absurd (ground arith)
      go false r true false e = absurd (ground arith)
      go false r true true e =
          subst (λ s. All (λ job. is_due now job ≡ false) (jobs_of s)) (ap (λ p. p.0) e)
            (subst (All _) (sym (jobs_of-save saved computed))
              (recompute_jobs-not_due tick law now (jobs_of (load_store cs).0) h))
