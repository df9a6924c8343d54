-- ===== src/Controller/Manager/Orphans.antt =====
-- A Volcano job that is deleted while its PintaJob runs, from the informer to the worker
-- (pkg/controller/pintajob).
use pinta_scheduler.Prelude.{
  ℕ, String, ◌≡◌, refl, true, some, none, List, [], ◌∷◌, ◌++◌, arith, str_eq_refl, ◌==◌, ◌%◌,
}
use pinta_scheduler.Api.{PintaJob, VcJob, last_status}
use pinta_scheduler.Info.Resource.{QuantityApi}
use pinta_scheduler.Controller.Result.{ok, panic}
use pinta_scheduler.Controller.JobCache.{JobInfo, JobCache, vc_job_key, get, delete_vc_job}
use pinta_scheduler.Controller.JobCache.Pointers.{IsValid, view}
use pinta_scheduler.Controller.JobCache.View.{drop_vc, handle_job, handle_job_lem, get-view}
use pinta_scheduler.Controller.Updater.{ClusterApi}
use pinta_scheduler.Controller.State.{state_of, execute}
use pinta_scheduler.Controller.State.Laws.{IsStarted, execute-panic}
use pinta_scheduler.Controller.Manager.{
  Request, WorkCall, add_request, finish, Manager, is_controlled_by, get_worker_queue,
  get_job_key_by_req, vc_job_request, queue_call, drop_vc_job, executed, execute_found,
  handle_request, process_next_req,
}

module _ {Q : Type 0} where
  -- The cache has the job info without its Volcano job.
  get-drop_vc :
      (vc : VcJob Q) (jc : JobCache Q) (ji : JobInfo Q) (job : PintaJob Q)
      → IsValid jc
      → view (vc_job_key vc) jc ≡ some ji
      → ji.job ≡ some job
      → get (vc_job_key vc) (delete_vc_job vc jc).1 ≡ ok (record ji { vc_job = none })
  unfolding handle_job
  get-drop_vc vc jc ji job v there has =
      let k = vc_job_key vc in
      get-view k (handle_job (drop_vc vc) jc).1 (record ji { vc_job = none }) job
        (ground (arith, (handle_job_lem (drop_vc vc) jc k v).1, there, str_eq_refl k)) has

module _ {Q : Type 0} (hash : String → ℕ) (workers : ℕ) (q : QuantityApi Q) (api : ClusterApi Q)
    (now : ℕ) (num_requeues : List WorkCall → ℕ → Request → ℕ) where
  same_queue : (n : ℕ) → (n == n) ≡ true
  same_queue n = ground arith

  panics_at :
      (req : Request) (m : Manager Q) (info : JobInfo Q)
      → get (get_job_key_by_req req) m.world.cache ≡ ok info
      → execute q api now info m.world ≡ (panic, m.world)
      → let count = get_worker_queue hash workers (get_job_key_by_req req) in
        process_next_req hash workers q api now num_requeues count (some req) m
        ≡ (panic, queue_call (finish count req) m)
  unfolding process_next_req handle_request execute_found executed
  panics_at req m info found panics =
      rw (found, panics, same_queue (hash (get_job_key_by_req req) % workers)) refl

  -- Where the cache holds a PintaJob whose last status is scheduled, running or preempted, and the
  -- informer reports that its Volcano job, which a PintaJob controls, is deleted, the handler adds one
  -- request, to the queue of the job's worker. If that worker takes it next, it panics: it sends nothing
  -- to the API server and leaves the cache as it is, and marks the request as done.
  pub drop_vc_job-panics :
      (m : Manager Q) (vc : VcJob Q) (ji : JobInfo Q) (job : PintaJob Q)
      → IsValid m.world.cache
      → is_controlled_by vc.owner_references ≡ true
      → view (vc_job_key vc) m.world.cache ≡ some ji
      → ji.job ≡ some job
      → IsStarted (state_of (last_status job.status).state)
      → let req = vc_job_request hash workers vc in
        let count = get_worker_queue hash workers (get_job_key_by_req req) in
        let m' = drop_vc_job hash workers vc m in
        (m'.queues ≡ m.queues ++ add_request count req ∷ [])
        × (process_next_req hash workers q api now num_requeues count (some req) m'
            ≡ (panic, queue_call (finish count req) m'))
  unfolding drop_vc_job
  drop_vc_job-panics m vc ji job v owned there has started =
      let orphan = record ji { vc_job = none } in
      rw owned (
        refl,
        panics_at (vc_job_request hash workers vc) _ orphan
            (get-drop_vc vc m.world.cache ji job v there has)
            (execute-panic q api now orphan job has _ started refl),
      )
