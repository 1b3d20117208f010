-- ===== src/Cron/Spent/Operations.antt =====
-- pkg/cron/service.go: the operations of the service enable no job with an ID that none is enabled with.
use elvis.Base.{
  ℕ, ◌≡◌, sym, subst, ◌⊎◌, inl, inr, Bool, true, false, not, Option, Option-cases, none, some, Text,
  codes, text_eq, All, if◌then◌else◌, ℤ, pos,
}
use elvis.Cron.{
  CronJob, CronService, CronError, StoreFile, missing, unreadable, corrupt, mistyped, stored, Write,
  written, kept, torn, is_written, failed_to_load, failed_to_save, job_not_found, with_next_run,
  compute_next_run, clear, clear_due, find_job, change_job, without_job, jobs_of, with_jobs,
  save_store_unsafe, load_store, claim_due, remove_job_unsafe, update_job,
}
use elvis.Cron.Runs.{
  RunIo, start, recompute, recompute_jobs, recompute_next_runs, enabled_job, enable_job, ran_job,
  disabled_job, finish_found, finish_job,
}
use elvis.Cron.Finish.{finish_job-some, finish_job-none}
use elvis.Cron.Spent.{
  Spent, SpentFile, map-Spent, change-Spent, without-Spent, clear-Spent, ran-Spent,
  ran_disabled-Spent, recompute-Spent, enabled-Spent,
}

module _ (id : Text) where
  module _ {H : Type 0} where
    abbrev pub IsSpent : CronService H → Type 0
    IsSpent cs = All (Spent id) (jobs_of cs) × SpentFile id cs.file

    pub save-Spent :
        (saved : Write) (cs : CronService H) → IsSpent cs → IsSpent (save_store_unsafe saved cs)
    unfolding save_store_unsafe
    save-Spent written cs (h, f) = (h, h)
    save-Spent kept cs h = h
    save-Spent torn cs (h, f) = (h, tt)

    pub load-Spent : (cs : CronService H) → SpentFile id cs.file → IsSpent (load_store cs).0
    unfolding load_store
    load-Spent cs f = go cs.file f
      where
        go : (x : StoreFile) → SpentFile id x → IsSpent (load_store (record cs { file = x })).0
        go missing f = (tt, f)
        go unreadable f = (tt, f)
        go corrupt f = (tt, f)
        go (mistyped store) f = (f, f)
        go (stored store) f = (f, f)

    pub remove-Spent :
        (saved : Write) (k : Text) (cs : CronService H)
        → IsSpent cs
        → IsSpent (remove_job_unsafe saved k cs).0
    unfolding remove_job_unsafe
    remove-Spent saved k cs (h, f) = go _
      where
        after : CronService H
        after = with_jobs (without_job k (jobs_of cs)) cs

        ok : IsSpent after
        ok = (without-Spent id k (jobs_of cs) h, f)

        go : (b : Bool) → IsSpent (if b then save_store_unsafe saved after else after)
        go true = save-Spent saved after ok
        go false = ok

    pub claim-Spent :
        (now : ℕ) (saved : Write) (cs : CronService H)
        → IsSpent cs
        → IsSpent (claim_due now saved cs).0
    unfolding claim_due clear_due
    claim-Spent now saved cs (h, f) =
        save-Spent saved _ (map-Spent id (clear _) (clear-Spent id _) (jobs_of cs) h, f)

    pub update-Spent :
        (now : ℕ) (saved : Write) (job : CronJob) (cs : CronService H)
        → Spent id job
        → IsSpent cs
        → IsSpent (update_job now saved job cs).0
    unfolding update_job
    update-Spent now saved job cs s (h, f) = go (find_job job.id (jobs_of cs))
      where
        after : CronService H
        after =
            with_jobs (change_job job.id (λ _. record job { updated_at_ms = pos now }) (jobs_of cs))
              cs

        pair : CronService H → Option CronError → CronService H × Option CronError
        pair cs e = (cs, e)

        go :
            (o : Option CronJob)
            → IsSpent
                (elim o as (λ _. CronService H × Option CronError) [
                  | none ↦ pair cs (some job_not_found)
                  | some _ ↦
                      pair
                        (save_store_unsafe saved after)
                        (if is_written saved then none else some failed_to_save)
                ]).0
        go none = (h, f)
        go (some x) =
            save-Spent saved after (change-Spent id job.id _ (λ j e q. s) (jobs_of cs) h, f)

    module _ (tick : Text → ℕ → Option ℤ) where
      pub start-Spent :
          (now : ℕ) (saved : Write) (cs : CronService H)
          → IsSpent cs
          → IsSpent (start tick now saved cs).0
      unfolding start recompute_next_runs recompute_jobs
      start-Spent now saved cs (h, f) = go cs.running (load_store cs).1 (is_written saved)
        where
          fresh : IsSpent (load_store cs).0
          fresh = load-Spent cs f

          computed : CronService H
          computed = recompute_next_runs tick now (load_store cs).0

          ok : IsSpent (save_store_unsafe saved computed)
          ok = save-Spent saved computed (
            map-Spent id (recompute tick now) (recompute-Spent id tick now)
                (jobs_of (load_store cs).0) fresh.0,
            fresh.1,
          )

          pair : CronService H → Option CronError → CronService H × Option CronError
          pair s e = (s, e)

          go :
              (r l w : Bool)
              → IsSpent
                  (if r
                    then pair cs none
                    else if not l
                    then pair (load_store cs).0 (some failed_to_load)
                    else if not w
                    then pair (save_store_unsafe saved computed) (some failed_to_save)
                    else pair (record (save_store_unsafe saved computed) { running = true }) none).0
          go true l w = (h, f)
          go false false w = fresh
          go false true false = ok
          go false true true = ok

      pub enable-Spent :
          (on : Bool) (now next_from : ℕ) (saved : Write) (k : Text) (cs : CronService H)
          → (on ≡ false) ⊎ (text_eq k id ≡ false)
          → IsSpent cs
          → IsSpent (enable_job tick on now next_from saved k cs).0
      unfolding enable_job
      enable-Spent on now next_from saved k cs s (h, f) = go (find_job k (jobs_of cs))
        where
          after : CronService H
          after = with_jobs (change_job k (enabled_job tick on now next_from) (jobs_of cs)) cs

          pair : CronService H → Option CronJob → CronService H × Option CronJob
          pair cs j = (cs, j)

          go :
              (o : Option CronJob)
              → IsSpent
                  (elim o as (λ _. CronService H × Option CronJob) [
                    | none ↦ pair cs none
                    | some job ↦
                        pair
                          (save_store_unsafe saved after)
                          (some (enabled_job tick on now next_from job))
                  ]).0
          go none = (h, f)
          go (some x) = save-Spent saved after (
            change-Spent id k _ (λ j e q. enabled-Spent id tick on now next_from k s j e)
                (jobs_of cs) h,
            f,
          )

      pub finish_found-Spent :
          (io : RunIo) (err : Option Text) (job : CronJob) (cs : CronService H)
          → IsSpent cs
          → IsSpent (finish_found tick io err job cs)
      unfolding finish_found
      finish_found-Spent io err job cs (h, f) =
          save-Spent io.saved _ (go (text_eq job.schedule.kind (codes "at")) job.delete_after_run)
        where
          chang : (CronJob → CronJob) → CronService H
          chang f = with_jobs (change_job job.id (λ j. f (ran_job io err j)) (jobs_of cs)) cs

          ok :
              (g : CronJob → CronJob)
              → ((j : CronJob) → Spent id j → Spent id (g (ran_job io err j)))
              → IsSpent (chang g)
          ok g keeps = (change-Spent id job.id _ (λ j e q. keeps j q) (jobs_of cs) h, f)

          go :
              (b c : Bool)
              → IsSpent (
                  if b
                  then if c
                    then (remove_job_unsafe io.removed_saved job.id (chang (λ j. j))).0
                    else chang disabled_job
                  else chang (with_next_run (compute_next_run tick job.schedule io.next_from)))
          go true true =
              remove-Spent io.removed_saved job.id (chang (λ j. j))
                (ok (λ j. j) (ran-Spent id io err))
          go true false = ok disabled_job (λ j q. ran_disabled-Spent id io err j)
          go false c =
              ok (with_next_run (compute_next_run tick job.schedule io.next_from))
                (ran-Spent id io err)

      pub finish-Spent :
          (io : RunIo) (err : Option Text) (k : Text) (cs : CronService H)
          → IsSpent cs
          → IsSpent (finish_job tick io err k cs)
      finish-Spent io err k cs h = elim (Option-cases (find_job k (jobs_of cs))) [
        | inl e ↦ subst IsSpent (sym (finish_job-none tick io err cs k e)) h
        | inr (job, e) ↦
            subst IsSpent (sym (finish_job-some tick io err cs k job e))
              (finish_found-Spent io err job cs h)
      ]
