-- ===== src/Controller/JobCache.antt =====
-- pkg/controller/cache and pkg/controller/api: the controller's view of jobs and nodes.
-- The map of jobs holds pointers into a heap, since the queue of deleted jobs holds them too. The
-- work queue itself is k8s.io/client-go's: its calls are recorded in order, and what it hands to the
-- cleanup worker is an argument. Each method holds the cache's mutex from start to end.
pub mod Nodes
pub mod Cleanup
pub mod Pointers
pub mod View
use mathlib.Core.Option
use Prim.Native.String.{◌++◌ as str_append}
use pinta_scheduler.Prelude.{
  ℕ, suc, ◌+◌, String, Option, none, some, List, [], ◌∷◌, ◌++◌, Bool, true, false, ◌&&◌, not,
  str_eq, if◌then◌else◌, length, get_elem?, set, ◌==◌,
}
use pinta_scheduler.Dict.{Dict, lookup, insert, erase}
use pinta_scheduler.Api.{PintaJob, PintaJobStatus, VcJob}
use pinta_scheduler.Info.Resource.{Resource, QuantityApi, to_resource_list}
use pinta_scheduler.Info.Resource.Compare.{equal_strict}
use pinta_scheduler.Info.Node.{Node, NodeInfo, new_node_info}
use pinta_scheduler.Info.NodeType.{NodeTypeInfo, new_node_type_info, add_node}
use pinta_scheduler.Controller.Result.{
  Result, ok, err, panic, ◌>>=◌, Exec, node_is_not_one, node_with_others, no_node_type,
  job_not_found, job_not_ready, duplicated_job,
}

abbrev pub Pointer : Type 0
Pointer = ℕ

pub record JobInfo (Q : Type 0) : Type 0 where
  pub namespace : String
  pub name : String
  pub job : Option (PintaJob Q)
  pub vc_job : Option (VcJob Q)

-- The calls of the queue of deleted jobs.
pub data QueueCall : Type 0 where
  add_rate_limited forget done : Pointer → QueueCall

pub record JobCache (Q : Type 0) : Type 0 where
  pub nodes : Dict (NodeInfo Q)
  pub node_types : Dict (NodeTypeInfo Q)
  pub jobs : Dict Pointer
  pub heap : List (JobInfo Q)
  pub deleted_jobs : List QueueCall

abbrev pub empty_cache : {Q : Type 0} → JobCache Q
empty_cache = record { nodes = []; node_types = []; jobs = []; heap = []; deleted_jobs = [] }

-- fmt.Sprintf("%s/%s", ns, name)
unfoldable pub key_fn : String → String → String
key_fn ns name = str_append ns (str_append "/" name)

-- status[0]
first_status : List PintaJobStatus → Result PintaJobStatus
first_status [] = panic
first_status (s ∷ rest) = ok s

module _ {Q : Type 0} where
  abbrev pub new_job_info : PintaJob Q → JobInfo Q
  new_job_info job = record {
    namespace = job.namespace;
    name = job.name;
    job = some job;
    vc_job = none;
  }

  unfoldable pub clone_info : JobInfo Q → JobInfo Q
  clone_info ji = record {
    namespace = ji.namespace;
    name = ji.name;
    job = ji.job;
    vc_job = ji.vc_job;
  }

  abbrev pub set_job : PintaJob Q → JobInfo Q → JobInfo Q
  set_job job ji = record ji { namespace = job.namespace; name = job.name; job = some job }

  abbrev pub set_vc_job : VcJob Q → JobInfo Q → JobInfo Q
  set_vc_job vc ji = record ji { vc_job = some vc }

  abbrev pub job_key : PintaJob Q → String
  job_key job = key_fn job.namespace job.name

  abbrev pub vc_job_key : VcJob Q → String
  vc_job_key vc = key_fn vc.namespace vc.name

  abbrev pub job_terminated : JobInfo Q → Bool
  job_terminated ji = elim ji.job [ none ↦ true | some job ↦ false ]

  -- The pointer under a key and what it points to.
  unfoldable pub find : String → JobCache Q → Option (Pointer × JobInfo Q)
  find key jc = elim (lookup key jc.jobs) [
    | none ↦ none
    | some p ↦ elim (get_elem? jc.heap p) [ none ↦ none | some ji ↦ some (p, ji) ]
  ]

  -- A write through a pointer.
  abbrev pub assign : Pointer → JobInfo Q → JobCache Q → JobCache Q
  assign p ji jc = record jc { heap = set jc.heap p ji }

  -- m[key] = &ji
  abbrev pub allocate : String → JobInfo Q → JobCache Q → JobCache Q
  allocate key ji jc = record jc {
    jobs = insert key (length jc.heap) jc.jobs;
    heap = jc.heap ++ ji ∷ [];
  }

  abbrev pub queue_call : QueueCall → JobCache Q → JobCache Q
  queue_call call jc = record jc { deleted_jobs = jc.deleted_jobs ++ call ∷ [] }

  found_job : String → Option (Pointer × JobInfo Q) → Result (JobInfo Q)
  found_job key none = err (job_not_found key)
  found_job key (some (p, ji)) =
      if job_terminated ji then err (job_not_ready key) else ok (clone_info ji)

  unfoldable pub get : String → JobCache Q → Result (JobInfo Q)
  unfolding found_job clone_info
  get key jc = found_job key (find key jc)

  found_status : String → Option (Pointer × JobInfo Q) → Result PintaJobStatus
  unfolding first_status
  found_status key none = err (job_not_found key)
  found_status key (some (p, ji)) = elim ji.job [
    | none ↦ panic
    | some job ↦ first_status job.status
  ]

  unfoldable pub get_status : String → JobCache Q → Result PintaJobStatus
  unfolding found_status
  get_status key jc = found_status key (find key jc)

  add_found : PintaJob Q → Option (Pointer × JobInfo Q) → Exec (JobCache Q) Unit
  add_found job none jc = (ok tt, allocate (job_key job) (new_job_info job) jc)
  add_found job (some (p, ji)) jc =
      if job_terminated ji
      then (ok tt, assign p (set_job job ji) jc)
      else (err (duplicated_job (job_key job)), jc)

  unfoldable pub add : PintaJob Q → Exec (JobCache Q) Unit
  unfolding add_found
  add job jc = add_found job (find (job_key job) jc) jc

  update_found : PintaJob Q → Option (Pointer × JobInfo Q) → Exec (JobCache Q) Unit
  update_found job none jc = (err (job_not_found (job_key job)), jc)
  update_found job (some (p, ji)) jc = (ok tt, assign p (record ji { job = some job }) jc)

  unfoldable pub update : PintaJob Q → Exec (JobCache Q) Unit
  unfolding update_found
  update job jc = update_found job (find (job_key job) jc) jc

  delete_found : PintaJob Q → Option (Pointer × JobInfo Q) → Exec (JobCache Q) Unit
  delete_found job none jc = (err (job_not_found (job_key job)), jc)
  delete_found job (some (p, ji)) jc =
      (ok tt, queue_call (add_rate_limited p) (assign p (record ji { job = none }) jc))

  unfoldable pub delete : PintaJob Q → Exec (JobCache Q) Unit
  unfolding delete_found
  delete job jc = delete_found job (find (job_key job) jc) jc

  put_vc_job : VcJob Q → Option (Pointer × JobInfo Q) → JobCache Q → JobCache Q
  put_vc_job vc none jc =
      allocate (vc_job_key vc) (record { namespace = ""; name = ""; job = none; vc_job = some vc })
        jc
  put_vc_job vc (some (p, ji)) jc = assign p (set_vc_job vc ji) jc

  -- `AddVCJob` and `UpdateVCJob`
  unfoldable pub add_or_update_vc_job : VcJob Q → Exec (JobCache Q) Unit
  unfolding put_vc_job
  add_or_update_vc_job vc jc = (ok tt, put_vc_job vc (find (vc_job_key vc) jc) jc)

  drop_vc_job : Option (Pointer × JobInfo Q) → JobCache Q → JobCache Q
  drop_vc_job none jc = jc
  drop_vc_job (some (p, ji)) jc = assign p (record ji { vc_job = none }) jc

  unfoldable pub delete_vc_job : VcJob Q → Exec (JobCache Q) Unit
  unfolding drop_vc_job
  delete_vc_job vc jc = (ok tt, drop_vc_job (find (vc_job_key vc) jc) jc)

  cleanup : Pointer → Option (JobInfo Q) → JobCache Q → JobCache Q
  cleanup p none jc = jc
  cleanup p (some ji) jc =
      if job_terminated ji
      then record jc {
        jobs = erase (key_fn ji.namespace ji.name) jc.jobs;
        deleted_jobs = jc.deleted_jobs ++ forget p ∷ [];
      }
      else queue_call (add_rate_limited p) jc

  -- One round of the cleanup worker for what the queue gives, which is none at its shutdown: whether
  -- the worker goes on, and the cache.
  unfoldable pub process_cleanup_job : Option Pointer → JobCache Q → Bool × JobCache Q
  unfolding cleanup
  process_cleanup_job none jc = (false, jc)
  process_cleanup_job (some p) jc = (true, queue_call (done p) (cleanup p (get_elem? jc.heap p) jc))
