-- ===== src/Cron/Finish.antt =====
-- pkg/cron/service.go: what a run leaves of a job, and of the others.
use elvis.Base.{
  ℕ, ◌≡◌, refl, sym, ap, subst, ◌∙◌, Bool, true, false, Option-cases, inl, inr, List, [], ◌∷◌,
  Option, none, some, Text, codes, text_eq, text_eq_iff, if◌then◌else◌, ℤ, arith,
}
use elvis.Cron.{
  Write, CronJob, CronService, with_next_run, compute_next_run, find_job, change_job, without_job,
  jobs_of, with_jobs, save_store_unsafe, remove_job_unsafe,
}
use elvis.Cron.Runs.{RunIo, ran_job, disabled_job, finish_found, finish_job}
use elvis.Cron.Due.{jobs_of-save}
use elvis.Cron.Jobs.{
  KeepsId, find-change_same, find-change_other, find-without_same, find-without_other, Unique,
  change-Unique, without-Unique,
}

module _ {H : Type 0} where
  -- The jobs after a removal, whether anything was removed and saved or not.
  pub jobs_of-remove :
      (saved : Write) (id : Text) (cs : CronService H)
      → jobs_of (remove_job_unsafe saved id cs).0 ≡ without_job id (jobs_of cs)
  unfolding remove_job_unsafe
  jobs_of-remove saved id cs = go _
    where
      go :
          (b : Bool)
          → jobs_of (
              if b
              then save_store_unsafe saved (with_jobs (without_job id (jobs_of cs)) cs)
              else with_jobs (without_job id (jobs_of cs)) cs)
            ≡ without_job id (jobs_of cs)
      go true = jobs_of-save saved _
      go false = refl

-- What `executeJobByID` makes of the job it ran, unless it is removed.
module _ (tick : Text → ℕ → Option ℤ) (io : RunIo) (err : Option Text) (job : CronJob) where
  abbrev pub after_run : Option CronJob
  after_run =
      if text_eq job.schedule.kind (codes "at")
      then if job.delete_after_run then none else some (disabled_job (ran_job io err job))
      else some
          (with_next_run (compute_next_run tick job.schedule io.next_from) (ran_job io err job))

pub ran-KeepsId : (io : RunIo) (err : Option Text) (id : Text) → KeepsId id (ran_job io err)
unfolding ran_job
ran-KeepsId io err id j e = e

pub ran-disabled-KeepsId :
    (io : RunIo) (err : Option Text) (id : Text) → KeepsId id (λ j. disabled_job (ran_job io err j))
unfolding ran_job disabled_job
ran-disabled-KeepsId io err id j e = e

pub ran-next-KeepsId :
    (io : RunIo) (err : Option Text) (id : Text) (t : Option ℤ)
    → KeepsId id (λ j. with_next_run t (ran_job io err j))
unfolding ran_job
ran-next-KeepsId io err id t j e = e

pub find_job-id :
    (id : Text) (jobs : List CronJob) (job : CronJob) → find_job id jobs ≡ some job → job.id ≡ id
unfolding find_job
find_job-id id [] job h = absurd (ground arith)
find_job-id id (j ∷ jobs) job h = go (text_eq j.id id) refl (find_job-id id jobs job) h
  where
    go :
        (b : Bool)
        → text_eq j.id id ≡ b
        → (find_job id jobs ≡ some job → job.id ≡ id)
        → (if b then some j else find_job id jobs) ≡ some job
        → job.id ≡ id
    go true e rec h =
        sym (ap (λ o. elim o [ none ↦ j.id | some x ↦ x.id ]) h) ∙ (text_eq_iff j.id id).0 e
    go false e rec h = rec h

module _ {H : Type 0} (tick : Text → ℕ → Option ℤ) (io : RunIo) (err : Option Text)
    (cs : CronService H) where
  -- What holds of a list with one job changed, and of that list without the job, holds after a run.
  pub finish_found-jobs :
      (P : List CronJob → Type 0) (job : CronJob)
      → ((f : CronJob → CronJob) → KeepsId job.id f → P (change_job job.id f (jobs_of cs)))
      → ((jobs : List CronJob) → P jobs → P (without_job job.id jobs))
      → P (jobs_of (finish_found tick io err job cs))
  unfolding finish_found
  finish_found-jobs P job change without =
      subst P (sym (jobs_of-save io.saved _))
        (go (text_eq job.schedule.kind (codes "at")) job.delete_after_run)
    where
      chang : (CronJob → CronJob) → CronService H
      chang f = with_jobs (change_job job.id (λ j. f (ran_job io err j)) (jobs_of cs)) cs

      go :
          (b c : Bool)
          → P (
              jobs_of (
                if b
                then if c
                  then (remove_job_unsafe io.removed_saved job.id (chang (λ j. j))).0
                  else chang disabled_job
                else chang (with_next_run (compute_next_run tick job.schedule io.next_from))))
      go true true = subst P (sym (jobs_of-remove io.removed_saved job.id (chang (λ j. j)))) (
          without (change_job job.id (ran_job io err) (jobs_of cs))
            (change (ran_job io err) (ran-KeepsId io err job.id)))
      go true false =
          change (λ j. disabled_job (ran_job io err j)) (ran-disabled-KeepsId io err job.id)
      go false c =
          change
            (λ j.
              with_next_run (compute_next_run tick job.schedule io.next_from) (ran_job io err j))
            (ran-next-KeepsId io err job.id (compute_next_run tick job.schedule io.next_from))

  finish_found_self :
      (job : CronJob)
      → find_job job.id (jobs_of cs) ≡ some job
      → find_job job.id (jobs_of (finish_found tick io err job cs)) ≡ after_run tick io err job
  unfolding finish_found
  finish_found_self job h =
      ap (find_job job.id) (jobs_of-save io.saved _)
      ∙ go (text_eq job.schedule.kind (codes "at")) job.delete_after_run
    where
      chang : (CronJob → CronJob) → CronService H
      chang f = with_jobs (change_job job.id (λ j. f (ran_job io err j)) (jobs_of cs)) cs

      next : CronJob → CronJob
      next = with_next_run (compute_next_run tick job.schedule io.next_from)

      go :
          (b c : Bool)
          → find_job job.id (
              jobs_of (
                if b
                then if c
                  then (remove_job_unsafe io.removed_saved job.id (chang (λ j. j))).0
                  else chang disabled_job
                else chang next))
            ≡ (if b
                then if c then none else some (disabled_job (ran_job io err job))
                else some (next (ran_job io err job)))
      go true true =
          ap (find_job job.id) (jobs_of-remove io.removed_saved job.id (chang (λ j. j)))
          ∙ find-without_same job.id (change_job job.id (ran_job io err) (jobs_of cs))
      go true false =
          find-change_same job.id (λ j. disabled_job (ran_job io err j))
            (ran-disabled-KeepsId io err job.id) (jobs_of cs) job h
      go false c =
          find-change_same job.id (λ j. next (ran_job io err j))
            (ran-next-KeepsId io err job.id (compute_next_run tick job.schedule io.next_from))
            (jobs_of cs) job h

  pub finish_job-some :
      (id : Text) (job : CronJob)
      → find_job id (jobs_of cs) ≡ some job
      → finish_job tick io err id cs ≡ finish_found tick io err job cs
  unfolding finish_job
  finish_job-some id job h =
      ap
        (λ o. elim o as (λ _. CronService H) [ none ↦ cs | some j ↦ finish_found tick io err j cs ])
        h

  pub finish_job-none :
      (id : Text) → find_job id (jobs_of cs) ≡ none → finish_job tick io err id cs ≡ cs
  unfolding finish_job
  finish_job-none id h =
      ap
        (λ o. elim o as (λ _. CronService H) [ none ↦ cs | some j ↦ finish_found tick io err j cs ])
        h

  -- After the run of a job that is still there, a lookup of its ID finds: nothing, for a job of the
  -- kind `at` that is to be deleted; the job disabled and without a next run, for another one of the
  -- kind `at`; the job with the next run of its schedule, for the other kinds.
  pub finish_job-found :
      (id : Text) (job : CronJob)
      → find_job id (jobs_of cs) ≡ some job
      → find_job id (jobs_of (finish_job tick io err id cs)) ≡ after_run tick io err job
  finish_job-found id job h =
      ap (λ s. find_job id (jobs_of s)) (finish_job-some id job h)
      ∙ subst
          (λ i. find_job i (jobs_of (finish_found tick io err job cs)) ≡ after_run tick io err job)
          same
          (finish_found_self job (subst (λ i. find_job i (jobs_of cs) ≡ some job) (sym same) h))
    where
      same : job.id ≡ id
      same = find_job-id id (jobs_of cs) job h

  pub finish_job-Unique :
      (id : Text) → Unique (jobs_of cs) → Unique (jobs_of (finish_job tick io err id cs))
  finish_job-Unique id u = elim (Option-cases (find_job id (jobs_of cs))) [
    | inl e ↦ subst (λ s. Unique (jobs_of s)) (sym (finish_job-none id e)) u
    | inr (job, e) ↦
        subst (λ s. Unique (jobs_of s)) (sym (finish_job-some id job e))
          (finish_found-jobs Unique job (λ f keeps. change-Unique job.id f keeps (jobs_of cs) u)
            (without-Unique job.id))
  ]

  -- Jobs with other IDs are as they were.
  pub finish_job-other :
      (id k : Text)
      → text_eq id k ≡ false
      → find_job k (jobs_of (finish_job tick io err id cs)) ≡ find_job k (jobs_of cs)
  finish_job-other id k ne = elim (Option-cases (find_job id (jobs_of cs))) [
    | inl e ↦ ap (λ s. find_job k (jobs_of s)) (finish_job-none id e)
    | inr (job, e) ↦
        ap (λ s. find_job k (jobs_of s)) (finish_job-some id job e)
        ∙ finish_found-jobs (λ jobs. find_job k jobs ≡ find_job k (jobs_of cs)) job
            (λ f keeps. find-change_other job.id f keeps k (differs job e) (jobs_of cs))
            (λ jobs h. find-without_other job.id k (differs job e) jobs ∙ h)
  ]
    where
      differs : (job : CronJob) → find_job id (jobs_of cs) ≡ some job → text_eq job.id k ≡ false
      differs job e = ap (λ i. text_eq i k) (find_job-id id (jobs_of cs) job e) ∙ ne
