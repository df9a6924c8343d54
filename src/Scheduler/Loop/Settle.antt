-- ===== src/Scheduler/Loop/Settle.antt =====
-- The scheduler, the API server and the informer of the scheduler's cache come to rest.
use pinta_scheduler.Prelude.{
  ℕ, String, ◌≡◌, refl, ap, ◌∙◌, inl, inr, false, Option, none, some, List, [], ◌∷◌, map, arith,
  str_eq, str_eq_iff, str_eq_refl, if◌then◌else◌, Bool-cases,
}
use pinta_scheduler.Dict.{Dict, lookup, erase, IsMap}
use pinta_scheduler.Dict.Laws.{lookup-insert, lookup-erase, Each}
use pinta_scheduler.Api.{PintaJob, PintaJobStatus, last_status}
use pinta_scheduler.Info.Job.{JobInfo, new_job_info}
use pinta_scheduler.Scheduler.Cache.{
  PintaCache, is_skipped, get_job_id, get_controller, with_owners, add_job, delete_job, update_job,
}
use pinta_scheduler.Scheduler.Cache.Laws.{JobEvent, put, change, remove, handle_job, handle_jobs}
use pinta_scheduler.Scheduler.Session.{
  update_job as close_job, update_all, put_request, with_numbers, is_unchanged,
}

abbrev before : List PintaJobStatus → List PintaJobStatus
before [] = []
before (s ∷ ss) = ss

module _ {Q : Type 0} where
  -- The event that the informer gives for a job whose new status the API server has stored.
  abbrev pub stored : String × PintaJob Q → JobEvent Q
  stored (ns, job) = change (record job { status = before job.status }) job

module _ {Q F : Type 0} where
  -- What the cache has for a job, after the request of a session if there is one.
  abbrev pub after_close :
      String → Option (String × PintaJob Q) → Option (JobInfo Q F) → Option (JobInfo Q F)
  after_close k none old = old
  after_close k (some (ns, job)) old = some (new_job_info k job)

  -- The job info of a session is of a known job, with numbers of its own.
  pub record IsDecided (k : String) (ji : JobInfo Q F) : Type 0 where
    pub own_id : get_job_id ji.job ≡ k
    pub active : is_skipped (last_status ji.job.status).state ≡ false

  unfoldable pub request_of : ℕ → Option (JobInfo Q F) → Option (String × PintaJob Q)
  request_of now none = none
  request_of now (some ji) = close_job now ji

  with_owners-same :
      (now : ℕ) (ji : JobInfo Q F) → with_owners ji.job (with_numbers now ji) ≡ with_numbers now ji
  with_owners-same now ji =
      elim (Bool-cases (str_eq (get_controller ji.job.meta.owner_references) "")) [
        | inl free ↦ rw free refl
        | inr owned ↦ rw owned refl
      ]

  add_job-stored :
      (now : ℕ) (k : String) (ji : JobInfo Q F) (pc : PintaCache Q F)
      → is_skipped (last_status ji.job.status).state ≡ false
      → lookup k (add_job (with_numbers now ji) (delete_job ji.job pc)).jobs ≡ (
          if str_eq (get_job_id ji.job) k
          then some (new_job_info (get_job_id ji.job) (with_numbers now ji))
          else lookup k pc.jobs)
  unfolding add_job delete_job
  add_job-stored now k ji pc active =
      let id = get_job_id ji.job in
      rw active (
        lookup-insert k id (new_job_info id (with_numbers now ji)) (erase id pc.jobs)
        ∙ ground (arith, lookup-erase k id pc.jobs))

  update_job-stored :
      (now : ℕ) (k uid : String) (ji : JobInfo Q F) (pc : PintaCache Q F)
      → IsDecided uid ji
      → lookup k (update_job ji.job (with_numbers now ji) pc).jobs
        ≡ (if str_eq uid k then some (new_job_info uid (with_numbers now ji)) else lookup k pc.jobs)
  unfolding update_job
  update_job-stored now k uid ji pc d =
      ap (λ (j : PintaJob Q). lookup k (add_job j (delete_job ji.job pc)).jobs)
        (with_owners-same now ji)
      ∙ add_job-stored now k ji pc d.active
      ∙ ap
          (λ id.
            if str_eq id k then some (new_job_info id (with_numbers now ji)) else lookup k pc.jobs)
          d.own_id

  lookup-stored :
      (now : ℕ) (k uid : String) (ji : JobInfo Q F) (pc : PintaCache Q F) (ns : String)
      → IsDecided uid ji
      → lookup k (handle_job (stored (ns, with_numbers now ji)) pc).jobs
        ≡ (if str_eq uid k then some (new_job_info uid (with_numbers now ji)) else lookup k pc.jobs)
  unfolding handle_job
  lookup-stored now k uid ji pc ns d = update_job-stored now k uid ji pc d

  pub lookup-closed :
      (now : ℕ) (k : String) (jobs : Dict (JobInfo Q F)) (pc : PintaCache Q F)
      → IsMap jobs
      → Each IsDecided jobs
      → lookup k (handle_jobs (map stored (update_all now jobs)) pc).jobs
        ≡ after_close k (request_of now (lookup k jobs)) (lookup k pc.jobs)
  unfolding handle_jobs update_all put_request lookup close_job request_of
  lookup-closed now k [] pc m h = refl
  lookup-closed now k ((uid, ji) ∷ jobs) pc m h =
      let d = h uid ji (rw (str_eq_refl uid) refl) in
      let later : Each IsDecided jobs = λ j x e. h j x (ground (arith, m.0, e, str_eq_iff uid j)) in
      elim (Bool-cases (is_unchanged ji (last_status ji.job.status))) [
        | inl same ↦
            let rest = lookup-closed now k jobs pc m.1 later in
            rw same (rest ∙ ground (arith, same, m.0, str_eq_iff uid k))
        | inr sent ↦
            let pc' = handle_job (stored (ji.namespace, with_numbers now ji)) pc in
            let rest = lookup-closed now k jobs pc' m.1 later in
            let first = lookup-stored now k uid ji pc ji.namespace d in
            rw sent (rest ∙ ground (arith, sent, first, m.0, str_eq_iff uid k))
      ]

  pub nodes-handle_jobs :
      (es : List (JobEvent Q)) (pc : PintaCache Q F) → (handle_jobs es pc).nodes ≡ pc.nodes
  unfolding handle_jobs handle_job update_job add_job delete_job
  nodes-handle_jobs [] pc = refl
  nodes-handle_jobs (put job ∷ es) pc = nodes-handle_jobs es (add_job job pc) ∙ ground arith
  nodes-handle_jobs (change old new ∷ es) pc =
      nodes-handle_jobs es (update_job old new pc) ∙ ground arith
  nodes-handle_jobs (remove job ∷ es) pc = nodes-handle_jobs es (delete_job job pc)
