-- ===== src/Cron/Runs.antt =====
-- pkg/cron/service.go: the operations that compute next runs, and the runs of due jobs. `tick` is
-- `gronx.NextTickAfter` at a time in milliseconds, an error is `none`.
use elvis.Base.{
  ℕ, suc, Bool, true, false, not, List, [], ◌∷◌, ◌++◌, map, Option, none, some, Text, codes,
  text_eq, if◌then◌else◌, ℤ, pos,
}
use elvis.Cron.{
  CronSchedule, CronJob, CronService, Write, is_written, CronError, failed_to_load, failed_to_save,
  with_next_run, compute_next_run, find_job, change_job, jobs_of, with_jobs, save_store_unsafe,
  load_store, claim_due, remove_job_unsafe,
}

-- The clock's values and the writes' outcomes in one run of a job. `removed_saved` is the write that
-- `removeJobUnsafe` does.
pub record RunIo : Type 0 where
  pub start_time : ℕ
  pub end_time : ℕ
  pub next_from : ℕ
  pub removed_saved : Write
  pub saved : Write

-- `LastRunAtMS` to `LastError`, after the handler returned an error or none.
unfoldable pub ran_job : RunIo → Option Text → CronJob → CronJob
ran_job io err job = record job {
  updated_at_ms = pos (io.end_time);
  state = record (job.state) {
    last_run_at_ms = some (pos io.start_time);
    last_status = elim err [ none ↦ codes "ok" | some _ ↦ codes "error" ];
    last_error = elim err [ none ↦ [] | some e ↦ e ];
  };
}

unfoldable pub disabled_job : CronJob → CronJob
disabled_job job = with_next_run none (record job { enabled = false })

module _ (tick : Text → ℕ → Option ℤ) where
  abbrev pub recompute : ℕ → CronJob → CronJob
  recompute now job =
      if job.enabled then with_next_run (compute_next_run tick job.schedule now) job else job

  unfoldable pub recompute_jobs : ℕ → List CronJob → List CronJob
  recompute_jobs now jobs = map (recompute now) jobs

  -- The job `AddJob` makes. `command` is left empty.
  unfoldable pub new_job : Text → Text → CronSchedule → Text → Bool → Text → Text → ℕ → CronJob
  new_job id name schedule message deliver channel to now = record {
    id = id;
    name = name;
    enabled = true;
    schedule = schedule;
    payload = record {
      kind = codes "agent_turn";
      message = message;
      command = [];
      deliver = deliver;
      channel = channel;
      to = to;
    };
    state = record {
      next_run_at_ms = compute_next_run tick schedule now;
      last_run_at_ms = none;
      last_status = [];
      last_error = [];
    };
    created_at_ms = pos now;
    updated_at_ms = pos now;
    delete_after_run = text_eq schedule.kind (codes "at");
  }

  unfoldable pub enabled_job : Bool → ℕ → ℕ → CronJob → CronJob
  enabled_job enabled now next_from job =
      with_next_run (if enabled then compute_next_run tick job.schedule next_from else none)
        (record job { enabled = enabled; updated_at_ms = pos now })

  module _ {H : Type 0} where
    unfoldable pub recompute_next_runs : ℕ → CronService H → CronService H
    recompute_next_runs now cs = with_jobs (recompute_jobs now (jobs_of cs)) cs

    -- The goroutine of `runLoop` is not started here: its rounds are `check_jobs`.
    unfoldable pub start : ℕ → Write → CronService H → CronService H × Option CronError
    start now saved cs =
        if cs.running
        then (cs, none)
        else let (loaded, ok) = load_store cs in
          let computed = recompute_next_runs now loaded in
          if not ok
          then (loaded, some failed_to_load)
          else let after = save_store_unsafe saved computed in
            if not (is_written saved)
            then (after, some failed_to_save)
            else (record after { running = true }, none)

    -- The job stays in memory when the write fails.
    unfoldable pub add_job :
        Text
        → Text
        → CronSchedule
        → Text
        → Bool
        → Text
        → Text
        → ℕ
        → Write
        → CronService H
        → CronService H × Option CronJob
    add_job id name schedule message deliver channel to now saved cs =
        let job = new_job id name schedule message deliver channel to now in
        let after = with_jobs (jobs_of cs ++ job ∷ []) cs in
        (save_store_unsafe saved after, if is_written saved then some job else none)

    unfoldable pub enable_job :
        Bool → ℕ → ℕ → Write → Text → CronService H → CronService H × Option CronJob
    enable_job enabled now next_from saved job_id cs = elim (find_job job_id (jobs_of cs)) [
      | none ↦ (cs, none)
      | some job ↦ (
        save_store_unsafe saved
            (with_jobs (change_job job_id (enabled_job enabled now next_from) (jobs_of cs)) cs),
        some (enabled_job enabled now next_from job),
      )
    ]

    unfoldable pub finish_found : RunIo → Option Text → CronJob → CronService H → CronService H
    finish_found io err job cs =
        let changed = λ (f : CronJob → CronJob).
          with_jobs (change_job job.id (λ j. f (ran_job io err j)) (jobs_of cs)) cs in
        save_store_unsafe io.saved (
          if text_eq job.schedule.kind (codes "at")
          then if job.delete_after_run
            then (remove_job_unsafe io.removed_saved job.id (changed (λ j. j))).0
            else changed disabled_job
          else changed (with_next_run (compute_next_run tick job.schedule io.next_from)))

    -- The second locked section of `executeJobByID`: `finish_found` is for the job that was found.
    unfoldable pub finish_job : RunIo → Option Text → Text → CronService H → CronService H
    finish_job io err job_id cs = elim (find_job job_id (jobs_of cs)) [
      | none ↦ cs
      | some job ↦ finish_found io err job cs
    ]

    -- `call` runs a handler on a copy of the job, without the lock: the service that it returns has what
    -- the handler and other goroutines did to it in the meantime.
    module _ (call : H → CronJob → CronService H → CronService H × Option Text) where
      unfoldable pub run_handler : CronJob → CronService H → CronService H × Option Text
      run_handler job cs = elim cs.on_job [ none ↦ (cs, none) | some h ↦ call h job cs ]

      unfoldable pub execute_job_by_id : RunIo → Text → CronService H → CronService H
      execute_job_by_id io job_id cs = elim (find_job job_id (jobs_of cs)) [
        | none ↦ cs
        | some job ↦ let (after, err) = run_handler job cs in finish_job io err job_id after
      ]

      unfoldable pub execute_jobs : (ℕ → RunIo) → List Text → CronService H → CronService H
      execute_jobs ios [] cs = cs
      execute_jobs ios (job_id ∷ ids) cs =
          execute_jobs (λ n. ios (suc n)) ids (execute_job_by_id (ios 0) job_id cs)

      -- `saved` is the write of the first section, `ios` has the rounds of the loop.
      unfoldable pub check_jobs : ℕ → Write → (ℕ → RunIo) → CronService H → CronService H
      check_jobs now saved ios cs =
          if not cs.running
          then cs
          else let (claimed, ids) = claim_due now saved cs in execute_jobs ios ids claimed
