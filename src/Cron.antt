-- ===== src/Cron.antt =====
-- pkg/cron/service.go: the jobs of the cron service and the operations on them. Each method holds the
-- service's mutex, so one call is one step. What the clock shows (milliseconds since 1970) and what becomes
-- of a write of the store's file are arguments, as is the ID that `generateID` draws.
pub mod Runs
pub mod Due
pub mod Jobs
pub mod Finish
pub mod NextRun
pub mod Unique
pub mod Service
pub mod Others
pub mod Spent
pub mod Once
mod Examples
use elvis.Base.{
  ℕ, suc, ◌-◌, Bool, true, false, ◌&&◌, not, List, [], ◌∷◌, ◌++◌, map, Option, none, some, Text,
  codes, length, text_eq, any, is_nil, ltb, if◌then◌else◌, ℤ, pos, negsuc, add_int64, lt_int,
  le_int,
}

pub record CronSchedule : Type 0 where
  pub kind : Text
  pub at_ms : Option ℤ
  pub every_ms : Option ℤ
  pub expr : Text
  pub tz : Text

pub record CronPayload : Type 0 where
  pub kind : Text
  pub message : Text
  pub command : Text
  pub deliver : Bool
  pub channel : Text
  pub to : Text

pub record CronJobState : Type 0 where
  pub next_run_at_ms : Option ℤ
  pub last_run_at_ms : Option ℤ
  pub last_status : Text
  pub last_error : Text

pub record CronJob : Type 0 where
  pub id : Text
  pub name : Text
  pub enabled : Bool
  pub schedule : CronSchedule
  pub payload : CronPayload
  pub state : CronJobState
  pub created_at_ms : ℤ
  pub updated_at_ms : ℤ
  pub delete_after_run : Bool

pub record CronStore : Type 0 where
  pub version : ℤ
  pub jobs : List CronJob

-- What the store's file holds: `corrupt` is a file that is no JSON, and `mistyped` is JSON with a value of
-- a wrong type, with the store that `json.Unmarshal` fills as far as it can.
pub data StoreFile : Type 0 where
  missing unreadable corrupt : StoreFile
  mistyped stored : CronStore → StoreFile

-- What becomes of a write of the store's file: it is done; it fails and leaves the file as it was; it
-- fails after `os.WriteFile` has emptied the file, with a part of the JSON in it.
pub data Write : Type 0 where
  written kept torn : Write

abbrev pub is_written : Write → Bool
is_written written = true
is_written kept = false
is_written torn = false

-- `H` are the handlers of jobs. `file` is the file at `storePath`.
pub record CronService (H : Type 0) : Type 0 where
  pub store : CronStore
  pub on_job : Option H
  pub running : Bool
  pub file : StoreFile

pub data CronError : Type 0 where
  failed_to_load failed_to_save job_not_found : CronError

abbrev pub next_run : CronJob → Option ℤ
next_run job = job.state.next_run_at_ms

abbrev pub with_next_run : Option ℤ → CronJob → CronJob
with_next_run t job = record job { state = record (job.state) { next_run_at_ms = t } }

abbrev pub at_run : ℕ → Option ℤ → Option ℤ
at_run now_ms none = none
at_run now_ms (some t) = if lt_int (pos now_ms) t then some t else none

abbrev pub every_run : ℕ → Option ℤ → Option ℤ
every_run now_ms none = none
every_run now_ms (some d) = if le_int d (pos 0) then none else some (add_int64 now_ms d)

-- `tick` is `gronx.NextTickAfter` at a time in milliseconds; an error is `none`.
unfoldable pub compute_next_run : (tick : Text → ℕ → Option ℤ) → CronSchedule → ℕ → Option ℤ
compute_next_run tick schedule now_ms =
    if text_eq schedule.kind (codes "at")
    then at_run now_ms schedule.at_ms
    else if text_eq schedule.kind (codes "every")
    then every_run now_ms schedule.every_ms
    else if text_eq schedule.kind (codes "cron")
    then if is_nil schedule.expr then none else tick schedule.expr now_ms
    else none

-- `job.Enabled && job.State.NextRunAtMS != nil && *job.State.NextRunAtMS <= now`
unfoldable pub is_due : ℕ → CronJob → Bool
is_due now job = job.enabled && elim (next_run job) [ none ↦ false | some t ↦ le_int t (pos now) ]

unfoldable pub due_ids : ℕ → List CronJob → List Text
due_ids now [] = []
due_ids now (job ∷ jobs) = if is_due now job then job.id ∷ due_ids now jobs else due_ids now jobs

abbrev pub clear : List Text → CronJob → CronJob
clear ids job = if any (text_eq job.id) ids then with_next_run none job else job

unfoldable pub clear_due : List Text → List CronJob → List CronJob
clear_due ids jobs = map (clear ids) jobs

-- The first job with an ID.
unfoldable pub find_job : Text → List CronJob → Option CronJob
find_job id [] = none
find_job id (job ∷ jobs) = if text_eq job.id id then some job else find_job id jobs

-- The first job with an ID, changed in its place.
unfoldable pub change_job : Text → (CronJob → CronJob) → List CronJob → List CronJob
change_job id f [] = []
change_job id f (job ∷ jobs) =
    if text_eq job.id id then f job ∷ jobs else job ∷ change_job id f jobs

unfoldable pub without_job : Text → List CronJob → List CronJob
without_job id [] = []
without_job id (job ∷ jobs) =
    if text_eq job.id id then without_job id jobs else job ∷ without_job id jobs

-- The earlier of the wake time so far and a next run.
unfoldable pub earlier : Option ℤ → Option ℤ → Option ℤ
earlier wake none = wake
earlier none (some t) = some t
earlier (some w) (some t) = if lt_int t w then some t else some w

unfoldable pub earliest : List CronJob → Option ℤ → Option ℤ
earliest [] wake = wake
earliest (job ∷ jobs) wake =
    earliest jobs (if job.enabled then earlier wake (next_run job) else wake)

unfoldable pub enabled_jobs : List CronJob → List CronJob
enabled_jobs [] = []
enabled_jobs (job ∷ jobs) = if job.enabled then job ∷ enabled_jobs jobs else enabled_jobs jobs

abbrev empty_store : CronStore
empty_store = record { version = pos 1; jobs = [] }

module _ {H : Type 0} where
  abbrev pub jobs_of : CronService H → List CronJob
  jobs_of cs = cs.store.jobs

  abbrev pub with_jobs : List CronJob → CronService H → CronService H
  with_jobs jobs cs = record cs { store = record (cs.store) { jobs = jobs } }

  unfoldable pub save_store_unsafe : Write → CronService H → CronService H
  save_store_unsafe written cs = record cs { file = stored cs.store }
  save_store_unsafe kept cs = cs
  save_store_unsafe torn cs = record cs { file = corrupt }

  -- The flag says that there was no error.
  unfoldable pub load_store : CronService H → CronService H × Bool
  load_store cs = elim cs.file [
    | missing ↦ (record cs { store = empty_store }, true)
    | unreadable ↦ (record cs { store = empty_store }, false)
    | corrupt ↦ (record cs { store = empty_store }, false)
    | mistyped store ↦ (record cs { store = store }, false)
    | stored store ↦ (record cs { store = store }, true)
  ]

  unfoldable pub new_cron_service : StoreFile → Option H → CronService H
  new_cron_service file on_job =
      (load_store (record { store = empty_store; on_job = on_job; running = false; file = file })).0

  unfoldable pub set_on_job : Option H → CronService H → CronService H
  set_on_job handler cs = record cs { on_job = handler }

  unfoldable pub stop : CronService H → CronService H
  stop cs = if not cs.running then cs else record cs { running = false }

  unfoldable pub get_next_wake_ms : CronService H → Option ℤ
  get_next_wake_ms cs = earliest (jobs_of cs) none

  -- The first locked section of `checkJobs`: the IDs of the due jobs, whose next runs are reset. The
  -- caller has tested that the service runs.
  unfoldable pub claim_due : ℕ → Write → CronService H → CronService H × List Text
  claim_due now saved cs =
      let ids = due_ids now (jobs_of cs) in
      (save_store_unsafe saved (with_jobs (clear_due ids (jobs_of cs)) cs), ids)

  unfoldable pub remove_job_unsafe : Write → Text → CronService H → CronService H × Bool
  remove_job_unsafe saved job_id cs =
      let after = with_jobs (without_job job_id (jobs_of cs)) cs in
      let removed = ltb (length (jobs_of after)) (length (jobs_of cs)) in
      (if removed then save_store_unsafe saved after else after, removed)

  unfoldable pub remove_job : Write → Text → CronService H → CronService H × Bool
  remove_job saved job_id cs = remove_job_unsafe saved job_id cs

  unfoldable pub list_jobs : Bool → CronService H → List CronJob
  list_jobs include_disabled cs = if include_disabled then jobs_of cs else enabled_jobs (jobs_of cs)

  -- What `Status` returns: `enabled`, `jobs` and `nextWakeAtMS`.
  unfoldable pub status : CronService H → Bool × ℕ × Option ℤ
  status cs = (cs.running, length (jobs_of cs), get_next_wake_ms cs)

  unfoldable pub update_job : ℕ → Write → CronJob → CronService H → CronService H × Option CronError
  update_job now saved job cs = elim (find_job job.id (jobs_of cs)) [
    | none ↦ (cs, some job_not_found)
    | some _ ↦ (
      save_store_unsafe saved (
          with_jobs (change_job job.id (λ _. record job { updated_at_ms = pos now }) (jobs_of cs))
            cs),
      if is_written saved then none else some failed_to_save,
    )
  ]
