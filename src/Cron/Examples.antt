-- ===== src/Cron/Examples.antt =====
-- The cron service of pkg/cron/service.go at concrete jobs.
use elvis.Base.{
  ℕ, ◌+◌, ◌^◌, ◌<◌, ◌≡◌, refl, true, false, not, [], ◌∷◌, Option, none, some, Text, codes, any,
  is_nil, text_eq, All, ℤ, pos, lt_int, arith, le_int, add_int64, to_int64,
}
use elvis.Cron.{
  written, kept, torn, stop, CronSchedule, CronJob, CronStore, missing, stored, CronService,
  compute_next_run, is_due, find_job, jobs_of, claim_due, get_next_wake_ms, new_cron_service,
  load_store, due_ids, earliest, earlier, save_store_unsafe, clear_due, change_job,
}
use elvis.Cron.Runs.{
  RunIo, start, add_job, finish_job, check_jobs, execute_jobs, execute_job_by_id, run_handler,
  finish_found, disabled_job,
}
use elvis.Cron.Due.{reached, claim_due-none_due, claim_due-next_wake}
use elvis.Cron.Jobs.{Unique}
use elvis.Cron.NextRun.{
  interval, TicksAfter, compute_next_run-after, compute_next_run-overflow, start-none_due,
}
use elvis.Cron.Unique.{UniqueFile}
use elvis.Cron.Service.{Reach, added, finished, stopped, loaded, claimed, reachable-Unique}
use elvis.Cron.Once.{here, next, finish_job-once}

-- A minute tick.
abbrev minutes : Text → ℕ → Option ℤ
minutes expr now = some (pos (now + 60000))

minutes-TicksAfter : TicksAfter minutes
unfolding lt_int
minutes-TicksAfter expr now t e = ground arith

abbrev at : ℕ → CronSchedule
at ms = record { kind = codes "at"; at_ms = some (pos ms); every_ms = none; expr = []; tz = [] }

abbrev every : ℕ → CronSchedule
every ms = record {
  kind = codes "every";
  at_ms = none;
  every_ms = some (pos ms);
  expr = [];
  tz = [];
}

abbrev cron : Text → CronSchedule
cron expr = record { kind = codes "cron"; at_ms = none; every_ms = none; expr = expr; tz = [] }

abbrev job : Text → CronSchedule → Option ℤ → CronJob
job id schedule t = record {
  id = id;
  name = [];
  enabled = true;
  schedule = schedule;
  payload = record {
    kind = codes "agent_turn";
    message = [];
    command = [];
    deliver = false;
    channel = [];
    to = [];
  };
  state = record { next_run_at_ms = t; last_run_at_ms = none; last_status = []; last_error = [] };
  created_at_ms = pos 0;
  updated_at_ms = pos 0;
  delete_after_run = false;
}

abbrev alarm : CronJob
alarm = job (codes "a") (at 500) (some (pos 500))

abbrev poll : CronJob
poll = job (codes "b") (every 1000) (some (pos 900))

abbrev store : CronStore
store = record { version = pos 1; jobs = alarm ∷ poll ∷ [] }

abbrev service : CronService ℕ
service = record { store = store; on_job = some 0; running = true; file = stored store }

abbrev idle : CronService ℕ
idle = record service { running = false }

abbrev io : RunIo
io = record {
  start_time = 1000;
  end_time = 1001;
  next_from = 1002;
  removed_saved = written;
  saved = written;
}

claims : (claim_due 600 written service).1 ≡ codes "a" ∷ []
unfolding claim_due due_ids is_due le_int
claims = refl

wake : get_next_wake_ms service ≡ some (pos 500)
unfolding get_next_wake_ms earliest earlier lt_int
wake = refl

polled : compute_next_run minutes (every 1000) 900 ≡ some (pos 1900)
unfolding compute_next_run text_eq le_int add_int64 to_int64
polled = refl

missed : compute_next_run minutes (at 500) 900 ≡ none
unfolding compute_next_run text_eq lt_int
missed = refl

-- A check with a handler that fails: the alarm is switched off, the other job is left.
abbrev failing : ℕ → CronJob → CronService ℕ → CronService ℕ × Option Text
failing h j cs = (cs, some (codes "no"))

checked :
    is_nil (claim_due 700 written (check_jobs minutes failing 600 written (λ _. io) service)).1
    ≡ true
unfolding claim_due due_ids check_jobs execute_jobs is_due le_int execute_job_by_id find_job
    save_store_unsafe clear_due text_eq finish_job run_handler finish_found change_job disabled_job
checked = refl

found_alarm : find_job (codes "a") (jobs_of service) ≡ some alarm
unfolding find_job text_eq
found_alarm = refl

found_poll : find_job (codes "b") (jobs_of service) ≡ some poll
unfolding find_job text_eq
found_poll = refl

unique : Unique (jobs_of service)
unfolding text_eq
unique = ((refl, tt), (tt, tt))

at_kind : text_eq alarm.schedule.kind (codes "at") ≡ true
unfolding text_eq
at_kind = refl

not_at : text_eq (codes "every") (codes "at") ≡ false
unfolding text_eq
not_at = refl

is_every : text_eq (codes "every") (codes "every") ≡ true
unfolding text_eq
is_every = refl

claim_due-none_due_example :
    All (λ j. is_due 950 j ≡ false) (jobs_of (claim_due 950 kept service).0)
    × ((claim_due 940 written (claim_due 950 kept service).0).1 ≡ [])
claim_due-none_due_example = claim_due-none_due 950 940 kept written service (omega arith)

claim_due-next_wake_example :
    is_nil (claim_due 499 written service).1 ≡ not (reached 499 (get_next_wake_ms service))
claim_due-next_wake_example = claim_due-next_wake 499 written service

abbrev after_alarm : CronService ℕ
after_alarm = finish_job minutes io none (codes "a") service

-- The service is stopped, the file is loaded again, and a check claims the other job.
finish_job-once_example :
    any
      (text_eq (codes "a"))
      (claim_due 2000 written (claim_due 1950 torn (load_store (stop after_alarm)).0).0).1
    ≡ false
finish_job-once_example =
    finish_job-once (codes "a") minutes io none alarm service
      (claim_due 1950 torn (load_store (stop after_alarm)).0).0 unique found_alarm at_kind refl
      (next (next (next here (stopped after_alarm) tt) (loaded (stop after_alarm)) tt)
        (claimed 1950 torn (load_store (stop after_alarm)).0) tt)
      2000 written

compute_next_run-after_example : lt_int (pos 900) (pos 1900) ≡ true
compute_next_run-after_example =
    compute_next_run-after minutes minutes-TicksAfter (every 1000) 900 (omega arith) (pos 1900)
      polled

compute_next_run-overflow_example :
    reached 5 (compute_next_run minutes (every 0x7FFFFFFFFFFFFFFF) 1000) ≡ true
compute_next_run-overflow_example =
    compute_next_run-overflow minutes (every 0x7FFFFFFFFFFFFFFF) 1000 0x7FFFFFFFFFFFFFFF not_at
      is_every refl (omega arith) (omega arith) (omega arith) 5

abbrev started_service : CronService ℕ
started_service = (start minutes 600 written idle).0

starts : start minutes 600 written idle ≡ (started_service, none)
unfolding start load_store
starts = refl

bounded : All (λ j. 600 + interval j.schedule.every_ms < 2 ^ 63) (jobs_of (load_store idle).0)
unfolding load_store
bounded = (omega arith, (omega arith, tt))

start-none_due_example : All (λ j. is_due 600 j ≡ false) (jobs_of started_service)
start-none_due_example =
    start-none_due minutes minutes-TicksAfter 600 written idle started_service refl bounded starts

abbrev grown : CronService ℕ
grown =
    (add_job minutes (codes "a") (codes "tea") (at 500) (codes "tea") true [] [] 100 written
      (new_cron_service missing none)).0

none_yet :
    All (λ j. text_eq j.id (codes "a") ≡ false) (jobs_of (new_cron_service {H = ℕ} missing none))
unfolding new_cron_service load_store
none_yet = tt

reachable-Unique_example :
    Unique (jobs_of (finish_job minutes io none (codes "a") grown))
    × UniqueFile ((finish_job minutes io none (codes "a") grown).file)
reachable-Unique_example = reachable-Unique minutes missing none tt _ (
    Reach.next
      (Reach.next Reach.here (
        added (codes "a") (codes "tea") (at 500) (codes "tea") true [] [] 100 written
          (new_cron_service missing none) none_yet))
      (finished io none (codes "a") grown))
