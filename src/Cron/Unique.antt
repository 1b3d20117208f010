-- ===== src/Cron/Unique.antt =====
-- pkg/cron/service.go: no operation gives two jobs the same ID.
use elvis.Base.{
  ℕ, ◌≡◌, refl, sym, ap, subst, ◌∙◌, Bool, true, false, Option, none, some, Option-cases, inl, inr,
  List, [], ◌∷◌, ◌++◌, Text, codes, text_eq, text_eq_refl, any, map, not, All, All-append,
  if◌then◌else◌, ℤ, pos,
}
use elvis.Cron.{
  Write, written, kept, torn, is_written, CronJob, CronService, StoreFile, missing, unreadable,
  corrupt, mistyped, stored, CronError, failed_to_load, failed_to_save, job_not_found,
  with_next_run, compute_next_run, clear, find_job, change_job, without_job, jobs_of, with_jobs,
  save_store_unsafe, load_store, claim_due, remove_job_unsafe, clear_due, update_job,
}
use elvis.Cron.Runs.{
  RunIo, start, recompute, recompute_jobs, recompute_next_runs, enabled_job, enable_job, ran_job,
  disabled_job, finish_found, finish_job,
}
use elvis.Cron.Jobs.{text_eq_sym, KeepsId, Unique, change-Unique, without-Unique}
use elvis.Cron.Finish.{
  finish_job-none, finish_job-some, ran-KeepsId, ran-disabled-KeepsId, ran-next-KeepsId,
}

abbrev pub UniqueFile : StoreFile → Type 0
UniqueFile (stored store) = Unique store.jobs
UniqueFile (mistyped store) = Unique store.jobs
UniqueFile _ = Unit

map-Unique :
    (f : CronJob → CronJob)
    → ((j : CronJob) → (f j).id ≡ j.id)
    → (jobs : List CronJob) → Unique jobs
    → Unique (map f jobs)
map-Unique f same [] u = tt
map-Unique f same (j ∷ jobs) (h, u) = (
  subst (λ i. All (λ x. text_eq x.id i ≡ false) (map f jobs)) (sym (same j)) (others jobs h),
  map-Unique f same jobs u,
)
  where
    others :
        (xs : List CronJob)
        → All (λ x. text_eq x.id j.id ≡ false) xs
        → All (λ x. text_eq x.id j.id ≡ false) (map f xs)
    others [] a = tt
    others (x ∷ xs) (a, rest) = (ap (λ i. text_eq i j.id) (same x) ∙ a, others xs rest)

clear-id : (ids : List Text) (job : CronJob) → (clear ids job).id ≡ job.id
clear-id ids job = go (any (text_eq job.id) ids)
  where
    go : (b : Bool) → (if b then with_next_run none job else job).id ≡ job.id
    go true = refl
    go false = refl

recompute-id :
    (tick : Text → ℕ → Option ℤ) (now : ℕ) (job : CronJob) → (recompute tick now job).id ≡ job.id
recompute-id tick now job = go job.enabled
  where
    go :
        (b : Bool)
        → (if b then with_next_run (compute_next_run tick job.schedule now) job else job).id
          ≡ job.id
    go true = refl
    go false = refl

pub append-Unique :
    (job : CronJob) (jobs : List CronJob)
    → All (λ j. text_eq j.id job.id ≡ false) jobs
    → Unique jobs
    → Unique (jobs ++ job ∷ [])
append-Unique job [] fresh u = (tt, tt)
append-Unique job (j ∷ jobs) (a, fresh) (h, u) = (
  All-append (λ x. text_eq x.id j.id ≡ false) jobs (job ∷ []) h (text_eq_sym job.id j.id ∙ a, tt),
  append-Unique job jobs fresh u,
)

module _ {H : Type 0} where
  abbrev pub IsUnique : CronService H → Type 0
  IsUnique cs = Unique (jobs_of cs) × UniqueFile cs.file

  pub save-IsUnique :
      (saved : Write) (cs : CronService H) → IsUnique cs → IsUnique (save_store_unsafe saved cs)
  unfolding save_store_unsafe
  save-IsUnique written cs (u, f) = (u, u)
  save-IsUnique kept cs h = h
  save-IsUnique torn cs (u, f) = (u, tt)

  pub load-IsUnique : (cs : CronService H) → UniqueFile cs.file → IsUnique (load_store cs).0
  unfolding load_store
  load-IsUnique cs f = go cs.file f
    where
      go : (x : StoreFile) → UniqueFile x → IsUnique (load_store (record cs { file = x })).0
      go missing f = (tt, f)
      go unreadable f = (tt, f)
      go corrupt f = (tt, f)
      go (mistyped store) f = (f, f)
      go (stored store) f = (f, f)

  pub update-IsUnique :
      (now : ℕ) (saved : Write) (job : CronJob) (cs : CronService H)
      → IsUnique cs
      → IsUnique (update_job now saved job cs).0
  unfolding update_job
  update-IsUnique now saved job cs (u, f) = go (find_job job.id (jobs_of cs))
    where
      go :
          (o : Option CronJob)
          → IsUnique
              (elim o as (λ _. CronService H × Option CronError) [
                | none ↦ (cs, some job_not_found)
                | some _ ↦ (
                  save_store_unsafe saved (
                      with_jobs
                        (change_job job.id
                          (λ _. record job { updated_at_ms = pos now })
                          (jobs_of cs))
                        cs),
                  if is_written saved then none else some failed_to_save,
                )
              ]).0
      go none = (u, f)
      go (some x) =
          save-IsUnique saved _
            (change-Unique job.id _ (λ j e. text_eq_refl job.id) (jobs_of cs) u, f)

  pub claim-IsUnique :
      (now : ℕ) (saved : Write) (cs : CronService H)
      → IsUnique cs
      → IsUnique (claim_due now saved cs).0
  unfolding claim_due clear_due
  claim-IsUnique now saved cs (u, f) =
      save-IsUnique saved _ (map-Unique (clear _) (clear-id _) (jobs_of cs) u, f)

  pub remove-IsUnique :
      (saved : Write) (id : Text) (cs : CronService H)
      → IsUnique cs
      → IsUnique (remove_job_unsafe saved id cs).0
  unfolding remove_job_unsafe
  remove-IsUnique saved id cs (u, f) = go _
    where
      after : CronService H
      after = with_jobs (without_job id (jobs_of cs)) cs

      ok : IsUnique after
      ok = (without-Unique id (jobs_of cs) u, f)

      go : (b : Bool) → IsUnique (if b then save_store_unsafe saved after else after)
      go true = save-IsUnique saved after ok
      go false = ok

module _ {H : Type 0} (tick : Text → ℕ → Option ℤ) where
  pub start-IsUnique :
      (now : ℕ) (saved : Write) (cs : CronService H)
      → IsUnique cs
      → IsUnique (start tick now saved cs).0
  unfolding start recompute_next_runs recompute_jobs save_store_unsafe
  start-IsUnique now saved cs (u, f) = go cs.running (load_store cs).1 (is_written saved)
    where
      loaded_ok : IsUnique (load_store cs).0
      loaded_ok = load-IsUnique cs f

      computed : CronService H
      computed = recompute_next_runs tick now (load_store cs).0

      computed_ok : IsUnique computed
      computed_ok = (
        map-Unique (recompute tick now) (recompute-id tick now) (jobs_of (load_store cs).0)
            loaded_ok.0,
        loaded_ok.1,
      )

      pair : CronService H → Option CronError → CronService H × Option CronError
      pair s e = (s, e)

      go :
          (r ok w : Bool)
          → IsUnique
              (if r
                then pair cs none
                else if not ok
                then pair (load_store cs).0 (some failed_to_load)
                else if not w
                then pair (save_store_unsafe saved computed) (some failed_to_save)
                else pair (record (save_store_unsafe saved computed) { running = true }) none).0
      go true ok w = (u, f)
      go false false w = loaded_ok
      go false true false = save-IsUnique saved computed computed_ok
      go false true true = save-IsUnique saved computed computed_ok

  pub enable-IsUnique :
      (on : Bool) (now next_from : ℕ) (saved : Write) (id : Text) (cs : CronService H)
      → IsUnique cs
      → IsUnique (enable_job tick on now next_from saved id cs).0
  unfolding enable_job enabled_job
  enable-IsUnique on now next_from saved id cs (u, f) = go (find_job id (jobs_of cs))
    where
      go :
          (o : Option CronJob)
          → IsUnique
              (elim o as (λ _. CronService H × Option CronJob) [
                | none ↦ (cs, none)
                | some job ↦ (
                  save_store_unsafe saved (
                      with_jobs
                        (change_job id (enabled_job tick on now next_from) (jobs_of cs))
                        cs),
                  some (enabled_job tick on now next_from job),
                )
              ]).0
      go none = (u, f)
      go (some x) = save-IsUnique saved _ (change-Unique id _ (λ j e. e) (jobs_of cs) u, f)

  finish_found-IsUnique :
      (io : RunIo) (err : Option Text) (job : CronJob) (cs : CronService H)
      → IsUnique cs
      → IsUnique (finish_found tick io err job cs)
  unfolding finish_found
  finish_found-IsUnique io err job cs (u, f) =
      save-IsUnique io.saved _ (go (text_eq job.schedule.kind (codes "at")) job.delete_after_run)
    where
      chang : (CronJob → CronJob) → CronService H
      chang f = with_jobs (change_job job.id (λ j. f (ran_job io err j)) (jobs_of cs)) cs

      ok : (g : CronJob → CronJob) → KeepsId job.id (λ j. g (ran_job io err j)) → IsUnique (chang g)
      ok g keeps = (change-Unique job.id _ keeps (jobs_of cs) u, f)

      go :
          (b c : Bool)
          → IsUnique (
              if b
              then if c
                then (remove_job_unsafe io.removed_saved job.id (chang (λ j. j))).0
                else chang disabled_job
              else chang (with_next_run (compute_next_run tick job.schedule io.next_from)))
      go true true =
          remove-IsUnique io.removed_saved job.id (chang (λ j. j))
            (ok (λ j. j) (ran-KeepsId io err job.id))
      go true false = ok disabled_job (ran-disabled-KeepsId io err job.id)
      go false c =
          ok (with_next_run (compute_next_run tick job.schedule io.next_from))
            (ran-next-KeepsId io err job.id (compute_next_run tick job.schedule io.next_from))

  pub finish-IsUnique :
      (io : RunIo) (err : Option Text) (id : Text) (cs : CronService H)
      → IsUnique cs
      → IsUnique (finish_job tick io err id cs)
  finish-IsUnique io err id cs h = elim (Option-cases (find_job id (jobs_of cs))) [
    | inl e ↦ subst IsUnique (sym (finish_job-none tick io err cs id e)) h
    | inr (job, e) ↦
        subst IsUnique (sym (finish_job-some tick io err cs id job e))
          (finish_found-IsUnique io err job cs h)
  ]
