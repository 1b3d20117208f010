-- ===== src/Cron/Spent.antt =====
-- pkg/cron/service.go: lists of jobs in which no job with an ID is enabled.
pub mod Operations
use elvis.Base.{
  ℕ, ◌≡◌, refl, sym, ap, subst, ◌∙◌, ◌⊎◌, inl, inr, Bool, true, false, ◌&&◌, not, Option,
  Option-cases, none, some, List, [], ◌∷◌, ◌++◌, map, Text, codes, text_eq, text_eq_iff, any, All,
  All-append, if◌then◌else◌, ℤ, pos, arith,
}
use elvis.Cron.{
  CronSchedule, CronJob, CronService, CronError, StoreFile, missing, unreadable, corrupt, mistyped,
  stored, Write, written, kept, torn, is_written, failed_to_load, failed_to_save, job_not_found,
  with_next_run, compute_next_run, is_due, due_ids, clear, clear_due, find_job, change_job,
  without_job, jobs_of, with_jobs, save_store_unsafe, load_store, new_cron_service, set_on_job,
  stop, claim_due, remove_job_unsafe, remove_job, update_job,
}
use elvis.Cron.Runs.{
  RunIo, start, recompute, recompute_jobs, recompute_next_runs, new_job, add_job, enabled_job,
  enable_job, ran_job, disabled_job, finish_found, finish_job,
}
use elvis.Cron.Jobs.{text_eq_sym, Unique}
use elvis.Cron.Finish.{finish_job-some, finish_job-none, finish_job-found, finish_job-Unique}
use elvis.Cron.Service.{
  Step, handled, started, stopped, loaded, claimed, finished, added, updated, enabled, removed,
}

-- No job with the ID is enabled: this one is not.
abbrev pub Spent : Text → CronJob → Type 0
Spent id job = (text_eq job.id id ≡ false) ⊎ (job.enabled ≡ false)

abbrev pub SpentFile : Text → StoreFile → Type 0
SpentFile id (stored store) = All (Spent id) store.jobs
SpentFile id (mistyped store) = All (Spent id) store.jobs
SpentFile id _ = Unit

module _ (id : Text) where
  pub map-Spent :
      (f : CronJob → CronJob)
      → ((j : CronJob) → Spent id j → Spent id (f j))
      → (jobs : List CronJob) → All (Spent id) jobs
      → All (Spent id) (map f jobs)
  map-Spent f keeps [] h = tt
  map-Spent f keeps (j ∷ jobs) (h, hs) = (keeps j h, map-Spent f keeps jobs hs)

  pub change-Spent :
      (k : Text) (f : CronJob → CronJob)
      → ((j : CronJob) → text_eq j.id k ≡ true → Spent id j → Spent id (f j))
      → (jobs : List CronJob) → All (Spent id) jobs
      → All (Spent id) (change_job k f jobs)
  unfolding change_job
  change-Spent k f keeps [] h = tt
  change-Spent k f keeps (j ∷ jobs) (h, hs) =
      go (text_eq j.id k) refl (change-Spent k f keeps jobs hs)
    where
      go :
          (b : Bool)
          → text_eq j.id k ≡ b
          → All (Spent id) (change_job k f jobs)
          → All (Spent id) (if b then f j ∷ jobs else j ∷ change_job k f jobs)
      go true e rec = (keeps j e h, hs)
      go false e rec = (h, rec)

  pub without-Spent :
      (k : Text) (jobs : List CronJob) → All (Spent id) jobs → All (Spent id) (without_job k jobs)
  unfolding without_job
  without-Spent k [] h = tt
  without-Spent k (j ∷ jobs) (h, hs) = go (text_eq j.id k) (without-Spent k jobs hs)
    where
      go :
          (b : Bool)
          → All (Spent id) (without_job k jobs)
          → All (Spent id) (if b then without_job k jobs else j ∷ without_job k jobs)
      go true rec = rec
      go false rec = (h, rec)

  pub due_ids-Spent :
      (now : ℕ) (jobs : List CronJob)
      → All (Spent id) jobs
      → any (text_eq id) (due_ids now jobs) ≡ false
  unfolding due_ids is_due
  due_ids-Spent now [] h = refl
  due_ids-Spent now (j ∷ jobs) (h, hs) = go (is_due now j) refl (due_ids-Spent now jobs hs)
    where
      go :
          (b : Bool)
          → is_due now j ≡ b
          → any (text_eq id) (due_ids now jobs) ≡ false
          → any (text_eq id) (if b then j.id ∷ due_ids now jobs else due_ids now jobs) ≡ false
      go false e rec = rec
      go true e rec = elim h [
        | inl other ↦ rw (text_eq_sym id j.id, other) rec
        | inr off ↦ absurd (ground (arith, e, off))
      ]

  -- Where IDs differ, the job that a lookup finds is the only one with the ID.
  pub found-Spent :
      (jobs : List CronJob)
      → Unique jobs
      → (elim (find_job id jobs) as (λ _. Bool) [ none ↦ true | some j ↦ not j.enabled ]) ≡ true
      → All (Spent id) jobs
  unfolding find_job
  found-Spent [] u h = tt
  found-Spent (j ∷ jobs) (a, u) h = go (text_eq j.id id) refl (found-Spent jobs u) h
    where
      others :
          text_eq j.id id ≡ true
          → (xs : List CronJob) → All (λ x. text_eq x.id j.id ≡ false) xs
          → All (Spent id) xs
      others e [] b = tt
      others e (x ∷ xs) (b, bs) =
          (inl (subst (λ i. text_eq x.id i ≡ false) ((text_eq_iff j.id id).0 e) b), others e xs bs)

      go :
          (b : Bool)
          → text_eq j.id id ≡ b
          → ((elim (find_job id jobs) as (λ _. Bool) [ none ↦ true | some x ↦ not x.enabled ])
                ≡ true
              → All (Spent id) jobs)
          → (elim (if b then some j else find_job id jobs) as (λ _. Bool) [
            | none ↦ true
            | some x ↦ not x.enabled
          ])
            ≡ true
          → All (Spent id) (j ∷ jobs)
      go true e rec q = (inr (off j.enabled q), others e jobs a)
        where
          off : (b : Bool) → not b ≡ true → b ≡ false
          off true q = absurd (ground arith)
          off false q = refl
      go false e rec q = (inl e, rec q)

  pub clear-Spent : (ids : List Text) (j : CronJob) → Spent id j → Spent id (clear ids j)
  clear-Spent ids j h = go (any (text_eq j.id) ids)
    where
      go : (b : Bool) → Spent id (if b then with_next_run none j else j)
      go true = h
      go false = h

  pub ran-Spent :
      (io : RunIo) (err : Option Text) (j : CronJob) → Spent id j → Spent id (ran_job io err j)
  unfolding ran_job
  ran-Spent io err j h = h

  pub ran_disabled-Spent :
      (io : RunIo) (err : Option Text) (j : CronJob) → Spent id (disabled_job (ran_job io err j))
  unfolding ran_job disabled_job
  ran_disabled-Spent io err j = inr refl

  pub recompute-Spent :
      (tick : Text → ℕ → Option ℤ) (now : ℕ) (j : CronJob)
      → Spent id j
      → Spent id (recompute tick now j)
  recompute-Spent tick now j h = go j.enabled
    where
      go :
          (b : Bool)
          → Spent id (if b then with_next_run (compute_next_run tick j.schedule now) j else j)
      go true = h
      go false = h

  pub enabled-Spent :
      (tick : Text → ℕ → Option ℤ) (on : Bool) (now next_from : ℕ) (k : Text)
      → (on ≡ false) ⊎ (text_eq k id ≡ false)
      → (j : CronJob) → text_eq j.id k ≡ true
      → Spent id (enabled_job tick on now next_from j)
  unfolding enabled_job
  enabled-Spent tick on now next_from k (inl off) j e = inr off
  enabled-Spent tick on now next_from k (inr other) j e =
      inl (ap (λ i. text_eq i id) ((text_eq_iff j.id k).0 e) ∙ other)
