-- ===== src/Cron/Others.antt =====
-- pkg/cron/service.go: an operation on one job against the other jobs.
use elvis.Base.{
  ℕ, ◌≡◌, refl, ap, ◌∙◌, Bool, false, Option, none, some, Text, text_eq, text_eq_refl,
  if◌then◌else◌, ℤ, pos,
}
use elvis.Cron.{
  Write, is_written, CronJob, CronService, CronError, job_not_found, failed_to_save, find_job,
  change_job, jobs_of, with_jobs, save_store_unsafe, remove_job, update_job,
}
use elvis.Cron.Runs.{RunIo, enabled_job, enable_job, finish_job}
use elvis.Cron.Due.{jobs_of-save}
use elvis.Cron.Jobs.{find-change_other, find-without_other}
use elvis.Cron.Finish.{jobs_of-remove, finish_job-other}

module _ {H : Type 0} (tick : Text → ℕ → Option ℤ) (k : Text) (cs : CronService H) where
  abbrev pub Same : CronService H → Type 0
  Same after = find_job k (jobs_of after) ≡ find_job k (jobs_of cs)

  update_job-Same :
      (now : ℕ) (saved : Write) (job : CronJob)
      → text_eq job.id k ≡ false
      → Same (update_job now saved job cs).0
  unfolding update_job
  update_job-Same now saved job ne = go (find_job job.id (jobs_of cs))
    where
      go :
          (o : Option CronJob)
          → Same
              (elim o as (λ _. CronService H × Option CronError) [
                | none ↦ (cs, some job_not_found)
                | some _ ↦ (
                  save_store_unsafe saved (
                      with_jobs
                        (change_job job.id
                          (λ _. record job { updated_at_ms = pos now })
                          (jobs_of cs))
                        cs),
                  if is_written saved then none else some failed_to_save,
                )
              ]).0
      go none = refl
      go (some x) =
          ap (find_job k) (jobs_of-save saved _)
          ∙ find-change_other job.id _ (λ j e. text_eq_refl job.id) k ne (jobs_of cs)

  enable_job-Same :
      (on : Bool) (now next_from : ℕ) (saved : Write) (id : Text)
      → text_eq id k ≡ false
      → Same (enable_job tick on now next_from saved id cs).0
  unfolding enable_job enabled_job
  enable_job-Same on now next_from saved id ne = go (find_job id (jobs_of cs))
    where
      go :
          (o : Option CronJob)
          → Same
              (elim o as (λ _. CronService H × Option CronJob) [
                | none ↦ (cs, none)
                | some job ↦ (
                  save_store_unsafe saved (
                      with_jobs
                        (change_job id (enabled_job tick on now next_from) (jobs_of cs))
                        cs),
                  some (enabled_job tick on now next_from job),
                )
              ]).0
      go none = refl
      go (some x) =
          ap (find_job k) (jobs_of-save saved _)
          ∙ find-change_other id _ (λ j e. e) k ne (jobs_of cs)

  remove_job-Same :
      (saved : Write) (id : Text) → text_eq id k ≡ false → Same (remove_job saved id cs).0
  unfolding remove_job
  remove_job-Same saved id ne =
      ap (find_job k) (jobs_of-remove saved id cs) ∙ find-without_other id k ne (jobs_of cs)

  -- The run of a job, switching it on or off, its update and its removal leave the job found under any
  -- other ID as it is, whether the store's file is written or not.
  operations-other_job :
      (io : RunIo) (err : Option Text) (on : Bool) (now next_from : ℕ) (saved : Write)
      (job : CronJob)
      → text_eq job.id k ≡ false
      → Same (finish_job tick io err job.id cs)
        × Same (enable_job tick on now next_from saved job.id cs).0
        × Same (update_job now saved job cs).0
        × Same (remove_job saved job.id cs).0
  operations-other_job io err on now next_from saved job ne = (
    finish_job-other tick io err cs job.id k ne,
    enable_job-Same on now next_from saved job.id ne,
    update_job-Same now saved job ne,
    remove_job-Same saved job.id ne,
  )
