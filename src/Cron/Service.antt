-- ===== src/Cron/Service.antt =====
-- pkg/cron/service.go: the methods of the service as steps, and what every sequence of them keeps.
use elvis.Base.{ℕ, ◌≡◌, Bool, true, false, Option, Text, text_eq, not, All, if◌then◌else◌, ℤ}
use elvis.Cron.{
  Write, CronSchedule, CronJob, CronService, StoreFile, jobs_of, load_store, new_cron_service,
  set_on_job, stop, claim_due, remove_job, update_job,
}
use elvis.Cron.Runs.{RunIo, start, new_job, add_job, enable_job, finish_job}
use elvis.Cron.Jobs.{Unique}
use elvis.Cron.Unique.{
  UniqueFile, IsUnique, append-Unique, save-IsUnique, load-IsUnique, start-IsUnique,
  update-IsUnique, enable-IsUnique, claim-IsUnique, remove-IsUnique, finish-IsUnique,
}

module _ {H : Type 0} (tick : Text → ℕ → Option ℤ) where
  -- The calls that change the service. Each outcome of a write, each clock and each end of a handler is
  -- a step of its own. That `generateID` draws an ID that no job has is taken for granted: its IDs are
  -- random numbers of 64 bits, and are not compared with the jobs.
  pub data Step : CronService H → CronService H → Type 0 where
    handled : (h : Option H) (cs : CronService H) → Step cs (set_on_job h cs)
    started : (now : ℕ) (saved : Write) (cs : CronService H) → Step cs (start tick now saved cs).0
    stopped : (cs : CronService H) → Step cs (stop cs)
    loaded : (cs : CronService H) → Step cs (load_store cs).0
    claimed : (now : ℕ) (saved : Write) (cs : CronService H) → Step cs (claim_due now saved cs).0
    finished :
        (io : RunIo) (err : Option Text) (id : Text) (cs : CronService H)
        → Step cs (finish_job tick io err id cs)
    added :
        (id name : Text) (schedule : CronSchedule) (message : Text) (deliver : Bool)
        (channel to : Text) (now : ℕ) (saved : Write) (cs : CronService H)
        → All (λ j. text_eq j.id id ≡ false) (jobs_of cs)
        → Step cs (add_job tick id name schedule message deliver channel to now saved cs).0
    updated :
        (now : ℕ) (saved : Write) (job : CronJob) (cs : CronService H)
        → Step cs (update_job now saved job cs).0
    enabled :
        (on : Bool) (now next_from : ℕ) (saved : Write) (id : Text) (cs : CronService H)
        → Step cs (enable_job tick on now next_from saved id cs).0
    removed : (saved : Write) (id : Text) (cs : CronService H) → Step cs (remove_job saved id cs).0

  pub data Reach (s : CronService H) : CronService H → Type 0 where
    here : Reach s s
    next : {t u : CronService H} → Reach s t → Step t u → Reach s u

  Step-IsUnique : {s t : CronService H} → Step s t → IsUnique s → IsUnique t
  unfolding set_on_job stop remove_job add_job
  Step-IsUnique (handled h cs) u = u
  Step-IsUnique (started now saved cs) u = start-IsUnique tick now saved cs u
  Step-IsUnique (stopped cs) u = go cs.running
    where
      go : (b : Bool) → IsUnique (if not b then cs else record cs { running = false })
      go true = u
      go false = u
  Step-IsUnique (loaded cs) u = load-IsUnique cs u.1
  Step-IsUnique (claimed now saved cs) u = claim-IsUnique now saved cs u
  Step-IsUnique (finished io err id cs) u = finish-IsUnique tick io err id cs u
  Step-IsUnique (added id name schedule message deliver channel to now saved cs fresh) (u, f) =
      save-IsUnique saved _ (
        append-Unique (new_job tick id name schedule message deliver channel to now) (jobs_of cs)
            (unfold new_job in fresh) u,
        f,
      )
  Step-IsUnique (updated now saved job cs) u = update-IsUnique now saved job cs u
  Step-IsUnique (enabled on now next_from saved id cs) u =
      enable-IsUnique tick on now next_from saved id cs u
  Step-IsUnique (removed saved id cs) u = remove-IsUnique saved id cs u

  Reach-IsUnique : {s t : CronService H} → Reach s t → IsUnique s → IsUnique t
  Reach-IsUnique here u = u
  Reach-IsUnique (next r step) u = Step-IsUnique step (Reach-IsUnique r u)

  -- From a new service on a file whose jobs have different IDs, or on no file, every sequence of calls in
  -- which `AddJob` draws only IDs that no job has, with failed and torn writes and reloads, leaves a store
  -- and a file in which no two jobs share an ID.
  pub reachable-Unique :
      (file : StoreFile) (on_job : Option H)
      → UniqueFile file
      → (cs : CronService H) → Reach (new_cron_service file on_job) cs
      → Unique (jobs_of cs) × UniqueFile cs.file
  unfolding new_cron_service
  reachable-Unique file on_job f cs r = Reach-IsUnique r (load-IsUnique _ f)
