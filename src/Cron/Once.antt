-- ===== src/Cron/Once.antt =====
-- pkg/cron/service.go: a job of the kind `at` that has run is not claimed again.
use elvis.Base.{
  ℕ, ◌≡◌, refl, sym, ap, subst, ◌∙◌, ◌⊎◌, inl, Bool, true, false, not, Option, none, some, [], ◌∷◌,
  Text, codes, text_eq, any, All, All-append, if◌then◌else◌, ℤ, arith,
}
use elvis.Cron.{
  CronJob, CronService, Write, written, kept, torn, with_next_run, compute_next_run, find_job,
  jobs_of, save_store_unsafe, set_on_job, stop, claim_due, remove_job,
}
use elvis.Cron.Runs.{RunIo, new_job, add_job, ran_job, disabled_job, finish_found, finish_job}
use elvis.Cron.Jobs.{Unique}
use elvis.Cron.Finish.{finish_job-some, finish_job-found, finish_job-Unique}
use elvis.Cron.Service.{
  Step, handled, started, stopped, loaded, claimed, finished, added, updated, enabled, removed,
}
use elvis.Cron.Spent.{Spent, found-Spent, due_ids-Spent}
use elvis.Cron.Spent.Operations.{
  IsSpent, save-Spent, load-Spent, remove-Spent, claim-Spent, update-Spent, start-Spent,
  enable-Spent, finish-Spent,
}

module _ (id : Text) {H : Type 0} (tick : Text → ℕ → Option ℤ) where
  -- A step that does not enable a job with the ID, nor puts an enabled one there.
  abbrev pub Leaves : {s t : CronService H} → Step tick s t → Type 0
  Leaves (added k name schedule message deliver channel to now saved cs fresh) =
      text_eq k id ≡ false
  Leaves (updated now saved job cs) = Spent id job
  Leaves (enabled on now next_from saved k cs) = (on ≡ false) ⊎ (text_eq k id ≡ false)
  Leaves _ = Unit

  pub data Later (s : CronService H) : CronService H → Type 0 where
    here : Later s s
    next : {t u : CronService H} → Later s t → (step : Step tick t u) → Leaves step → Later s u

  Step-Spent :
      {s t : CronService H} (step : Step tick s t) → Leaves step → IsSpent id s → IsSpent id t
  unfolding set_on_job stop remove_job add_job new_job
  Step-Spent (handled h cs) l u = u
  Step-Spent (started now saved cs) l u = start-Spent id tick now saved cs u
  Step-Spent (stopped cs) l u = go cs.running
    where
      go : (b : Bool) → IsSpent id (if not b then cs else record cs { running = false })
      go true = u
      go false = u
  Step-Spent (loaded cs) l u = load-Spent id cs u.1
  Step-Spent (claimed now saved cs) l u = claim-Spent id now saved cs u
  Step-Spent (finished io err k cs) l u = finish-Spent id tick io err k cs u
  Step-Spent (added k name schedule message deliver channel to now saved cs fresh) l (h, f) =
      save-Spent id saved _ (
        All-append (Spent id) (jobs_of cs)
            (new_job tick k name schedule message deliver channel to now ∷ []) h (inl l, tt),
        f,
      )
  Step-Spent (updated now saved job cs) l u = update-Spent id now saved job cs l u
  Step-Spent (enabled on now next_from saved k cs) l u =
      enable-Spent id tick on now next_from saved k cs l u
  Step-Spent (removed saved k cs) l u = remove-Spent id saved k cs u

  Later-Spent : {s t : CronService H} → Later s t → IsSpent id s → IsSpent id t
  Later-Spent here u = u
  Later-Spent (next r step l) u = Step-Spent step l (Later-Spent r u)

  file-written :
      (saved : Write) (cs : CronService H)
      → saved ≡ written
      → All (Spent id) (jobs_of (save_store_unsafe saved cs))
      → IsSpent id (save_store_unsafe saved cs)
  unfolding save_store_unsafe
  file-written written cs e h = (h, h)
  file-written kept cs e h = absurd (ground arith)
  file-written torn cs e h = absurd (ground arith)

  -- A run of a job of the kind `at` whose end is saved.
  finish-at :
      (io : RunIo) (err : Option Text) (job : CronJob) (cs : CronService H)
      → Unique (jobs_of cs)
      → find_job id (jobs_of cs) ≡ some job
      → text_eq job.schedule.kind (codes "at") ≡ true
      → io.saved ≡ written
      → IsSpent id (finish_job tick io err id cs)
  unfolding finish_found
  finish-at io err job cs u h at w =
      subst (IsSpent id) (sym (finish_job-some tick io err cs id job h)) (
        file-written io.saved _ w
          (subst (λ s. All (Spent id) (jobs_of s)) (finish_job-some tick io err cs id job h) off))
    where
      dis : (disabled_job (ran_job io err job)).enabled ≡ false
      dis = unfold disabled_job in refl

      go :
          (b : Bool)
          → b ≡ true
          → (c : Bool)
          → (elim (if b
                then if c then none else some (disabled_job (ran_job io err job))
                else some (
                    with_next_run
                      (compute_next_run tick job.schedule io.next_from)
                      (ran_job io err job)))
              as (λ _. Bool) [ none ↦ true | some j ↦ not j.enabled ])
            ≡ true
      go true e true = refl
      go true e false = ap not dis
      go false e c = absurd (ground arith)

      off : All (Spent id) (jobs_of (finish_job tick io err id cs))
      off = found-Spent id _ (finish_job-Unique tick io err cs id u) (
          ap (λ o. elim o as (λ _. Bool) [ none ↦ true | some j ↦ not j.enabled ])
            (finish_job-found tick io err cs id job h)
          ∙ go (text_eq job.schedule.kind (codes "at")) at job.delete_after_run)

  -- When no two jobs share an ID, and a job of the kind `at` has run, however its handler ended, and the
  -- write after the run is done, then in every state that later calls lead to, failed and torn writes,
  -- reloads and restarts of the service included, no check at any time claims the job again, as long as
  -- `AddJob` draws only IDs that no job has, nor the ID of this one, and no call enables the job or updates
  -- it to an enabled one.
  pub finish_job-once :
      (io : RunIo) (err : Option Text) (job : CronJob) (cs t : CronService H)
      → Unique (jobs_of cs)
      → find_job id (jobs_of cs) ≡ some job
      → text_eq job.schedule.kind (codes "at") ≡ true
      → io.saved ≡ written
      → Later (finish_job tick io err id cs) t
      → (now : ℕ) (saved : Write) → any (text_eq id) (claim_due now saved t).1 ≡ false
  unfolding claim_due
  finish_job-once io err job cs t u h at w later now saved =
      due_ids-Spent id now (jobs_of t) (Later-Spent later (finish-at io err job cs u h at w)).0
