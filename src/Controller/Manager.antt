-- ===== src/Controller/Manager.antt =====
-- pkg/controller/pintajob: the handlers of informer events and the workers that take requests.
-- The work queues are k8s.io/client-go's: the calls on them are recorded in order, and what a queue
-- hands to a worker, how often it has requeued a request and the FNV hash are parameters. An object
-- of a wrong type, which a handler only logs, is not modelled.
pub mod Calls
pub mod Laws
pub mod NodeEvents
pub mod Retries
pub mod Orphans
pub mod Worker
use pinta_scheduler.Prelude.{
  ℕ, ◌%◌, String, Option, none, some, List, [], ◌∷◌, ◌++◌, Bool, true, false, not, ◌&&◌, str_eq,
  ltb, ◌==◌, if◌then◌else◌, is_some,
}
use pinta_scheduler.Api.{PintaJob, VcJob, OwnerReference}
use pinta_scheduler.Info.Resource.{QuantityApi}
use pinta_scheduler.Controller.Result.{Result, ok, err, panic, Exec}
use pinta_scheduler.Controller.JobCache.{
  JobCache, JobInfo, key_fn, get, add, update, delete, add_or_update_vc_job, delete_vc_job,
}
use pinta_scheduler.Controller.Updater.{ClusterApi, World, in_cache}
use pinta_scheduler.Controller.State.{execute}

pub record Request : Type 0 where
  pub namespace : String
  pub job_name : String

-- The calls on the queue with the given number.
pub data WorkCall : Type 0 where
  add_request requeue forget_request finish : ℕ → Request → WorkCall

pub record Manager (Q : Type 0) : Type 0 where
  pub world : World Q
  pub queues : List WorkCall

abbrev pub max_retries : ℕ
max_retries = 15

abbrev pub get_job_key_by_req : Request → String
get_job_key_by_req req = key_fn req.namespace req.job_name

-- The first owner that is a controller is a PintaJob.
unfoldable pub is_controlled_by : List OwnerReference → Bool
is_controlled_by [] = false
is_controlled_by (r ∷ rs) =
    let rest = is_controlled_by rs in
    if r.controller
    then str_eq r.api_version "pinta.qed.usc.edu/v1" && str_eq r.kind "PintaJob"
    else rest

module _ {Q : Type 0} where
  abbrev pub queue_call : WorkCall → Manager Q → Manager Q
  queue_call call m = record m { queues = m.queues ++ call ∷ [] }

  -- A change of the cache whose error the handlers only log.
  abbrev pub cached : Exec (JobCache Q) (Unit {0}) → Manager Q → Manager Q
  cached action m = record m { world = (in_cache action m.world).1 }

module _ (hash : String → ℕ) (workers : ℕ) where
  -- The number of the queue that `getWorkerQueue` returns.
  abbrev pub get_worker_queue : String → ℕ
  get_worker_queue key = hash key % workers

  abbrev pub belongs_to_this_routine : String → ℕ → Bool
  belongs_to_this_routine key count = (hash key % workers) == count

  module _ {Q : Type 0} where
    abbrev pub enqueue : Request → Manager Q → Manager Q
    enqueue req m = queue_call (add_request (get_worker_queue (get_job_key_by_req req)) req) m

    abbrev pub job_request : PintaJob Q → Request
    job_request job = record { namespace = job.namespace; job_name = job.name }

    abbrev pub vc_job_request : VcJob Q → Request
    vc_job_request vc = record { namespace = vc.namespace; job_name = vc.name }

    unfoldable pub add_job : PintaJob Q → Manager Q → Manager Q
    add_job job m = enqueue (job_request job) (cached (add job) m)

    unfoldable pub update_job : PintaJob Q → PintaJob Q → Manager Q → Manager Q
    update_job old new m =
        if str_eq new.resource_version old.resource_version
        then m
        else enqueue (job_request new) (cached (update new) m)

    unfoldable pub delete_job : PintaJob Q → Manager Q → Manager Q
    delete_job job m = cached (delete job) m

    unfoldable pub drop_vc_job : VcJob Q → Manager Q → Manager Q
    drop_vc_job vc m =
        if is_controlled_by vc.owner_references
        then enqueue (vc_job_request vc) (cached (delete_vc_job vc) m)
        else m

    unfoldable pub add_vc_job : VcJob Q → Manager Q → Manager Q
    unfolding drop_vc_job
    add_vc_job vc m =
        if not (is_controlled_by vc.owner_references)
        then m
        else if is_some vc.deletion_timestamp
        then drop_vc_job vc m
        else enqueue (vc_job_request vc) (cached (add_or_update_vc_job vc) m)

    unfoldable pub update_vc_job : VcJob Q → VcJob Q → Manager Q → Manager Q
    unfolding drop_vc_job
    update_vc_job old new m =
        if not (is_controlled_by new.owner_references)
        then m
        else if str_eq new.resource_version old.resource_version
        then m
        else if is_some new.deletion_timestamp
        then drop_vc_job new m
        else enqueue (vc_job_request new) (cached (add_or_update_vc_job new) m)

    module _ (q : QuantityApi Q) (api : ClusterApi Q) (now : ℕ)
        (num_requeues : List WorkCall → ℕ → Request → ℕ) where
      -- After `Execute`: whether the worker goes on. An error is retried 15 times.
      unfoldable pub executed :
          ℕ → Request → Result (Unit {0}) × World Q → Manager Q → Result Bool × Manager Q
      executed count req (ok u, w) m =
          (ok true, queue_call (forget_request count req) (record m { world = w }))
      executed count req (err e, w) m = (
        ok true,
        queue_call
            (if ltb (num_requeues m.queues count req) max_retries
              then requeue count req
              else forget_request count req)
            (record m { world = w }),
      )
      executed count req (panic, w) m = (panic, record m { world = w })

      unfoldable pub execute_found :
          ℕ → Request → Result (JobInfo Q) → Manager Q → Result Bool × Manager Q
      unfolding executed
      execute_found count req (ok info) m = executed count req (execute q api now info m.world) m
      execute_found count req (err e) m = (ok true, m)
      execute_found count req panic m = (panic, m)

      unfoldable pub handle_request : ℕ → Request → Manager Q → Result Bool × Manager Q
      unfolding execute_found
      handle_request count req m =
          let key = get_job_key_by_req req in
          let found = execute_found count req (get key m.world.cache) m in
          if belongs_to_this_routine key count then found else (ok true, enqueue req m)

      -- One round of the worker with the number `count`, for what its queue gives, which is none at
      -- its shutdown. The deferred Done runs on a panic too.
      unfoldable pub process_next_req : ℕ → Option Request → Manager Q → Result Bool × Manager Q
      unfolding handle_request
      process_next_req count none m = (ok false, m)
      process_next_req count (some req) m =
          let (r, m') = handle_request count req m in (r, queue_call (finish count req) m')
