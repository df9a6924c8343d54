-- ===== src/Samples/Jobs.antt =====
-- The theorems on the controller, at a symmetric job and its Volcano job.
use pinta_scheduler.Prelude.{
  All, List, ◌≡◌, refl, true, false, none, some, [], ◌∷◌, ◌++◌, String, str_eq, is_some, ◌&&◌,
  if◌then◌else◌, get_elem?,
}
use pinta_scheduler.Prelude.Int.{pos}
use pinta_scheduler.Dict.{Dict, lookup, insert, entries}
use pinta_scheduler.Api.{PintaJob, VcJob, PodSpec, JobPhase, scheduled}
use pinta_scheduler.Info.Node.{type_label}
use pinta_scheduler.Samples.{Amount, amounts, units, job_in, sample_vc_job, role, pod}
use pinta_scheduler.Controller.Result.{Result, ok, panic}
use pinta_scheduler.Controller.JobType.{
  reconcile_vc_job, build_vc_job, patch_pod_spec_with_role_spec, child_meta,
}
use pinta_scheduler.Controller.JobType.Pods.{FirstLimited, patch_pod_spec_with_role_spec_lem}
use pinta_scheduler.Controller.JobType.Laws.{
  shape, unscaled, desired, reconcile_vc_job_lem, reconcile_vc_job-build_vc_job,
}
use pinta_scheduler.Controller.JobCache.{
  JobCache, JobInfo, empty_cache, process_cleanup_job, vc_job_key, key_fn, job_terminated, forget,
  done, add_rate_limited,
}
use pinta_scheduler.Controller.JobCache.Pointers.{IsValid, view}
use pinta_scheduler.Controller.JobCache.View.{
  add_job, put_vc, delete_job, handle_job, handle_job_lem, event_key, entry_after, reply,
}
use pinta_scheduler.Controller.JobCache.Cleanup.{handle_job-IsValid, process_cleanup_job_lem}
use pinta_scheduler.Controller.Updater.{ClusterApi}
use pinta_scheduler.Controller.Updater.Laws.{Sends}
use pinta_scheduler.Controller.Manager.{
  Manager, Request, vc_job_request, drop_vc_job, add_request, finish, process_next_req, queue_call,
  is_controlled_by,
}
use pinta_scheduler.Controller.Manager.Orphans.{drop_vc_job-panics}
use pinta_scheduler.Controller.Manager.Calls.{ManagerEvent, job_added, round, handle_events}
use pinta_scheduler.Controller.Manager.Laws.{IsRouted, handle_events-IsRouted}
use pinta_scheduler.Controller.State.{scheduled_state, execute, state_of}
use pinta_scheduler.Controller.State.Laws.{IsAllowed, scheduled_started, execute-IsAllowed}

-- The job asks for three replicas, and its Volcano job has two.
abbrev job : PintaJob Amount
job = job_in scheduled (pos 3)

abbrev vc : VcJob Amount
vc = sample_vc_job (pos 2) JobPhase.running

abbrev scaled_vc : VcJob Amount
scaled_vc = record vc {
  tasks = record { name = "replica"; replicas = pos 3; pod_spec = pod; policies = [] } ∷ [];
}

scaled : reconcile_vc_job job vc ≡ ok (scaled_vc, true)
unfolding reconcile_vc_job
scaled = refl

reconcile_vc_job_lem_example :
    (shape scaled_vc.tasks ≡ desired job.spec.type job)
    × (unscaled scaled_vc.tasks ≡ unscaled vc.tasks)
    × (scaled_vc ≡ record vc { tasks = scaled_vc.tasks })
    × (reconcile_vc_job job scaled_vc ≡ ok (scaled_vc, false))
reconcile_vc_job_lem_example = reconcile_vc_job_lem job vc scaled_vc true scaled

kept : reconcile_vc_job job scaled_vc ≡ ok (scaled_vc, false)
unfolding reconcile_vc_job
kept = refl

-- A cluster where each request for one node gives one unit of cpu.
abbrev one_cpu : Dict Amount → String → Result (Dict Amount)
one_cpu rl t = ok (("cpu", units (pos 1)) ∷ [])

abbrev patched_pod : PodSpec Amount
patched_pod = record {
  node_selector = some ((type_label, "v100") ∷ []);
  containers = record { limits = ("cpu", units (pos 1)) ∷ []; env = [] } ∷ [];
}

pod_patched : patch_pod_spec_with_role_spec one_cpu (some pod) (some role) ≡ ok patched_pod
unfolding patch_pod_spec_with_role_spec insert
pod_patched = refl

patch_pod_spec_with_role_spec_lem_example :
    FirstLimited one_cpu role.resources role.node_type pod.containers patched_pod.containers
    × (is_some patched_pod.node_selector ≡ is_some pod.node_selector)
    × (lookup type_label (entries patched_pod.node_selector) ≡ some "v100")
patch_pod_spec_with_role_spec_lem_example =
    patch_pod_spec_with_role_spec_lem one_cpu pod patched_pod role type_label pod_patched

abbrev built_vc : VcJob Amount
built_vc = record {
  meta = child_meta one_cpu job;
  scheduler_name = "volcano";
  min_available = pos 3;
  volumes = [];
  tasks =
      record {
        name = "replica";
        replicas = pos 3;
        pod_spec = patched_pod;
        policies = record { event = "TaskCompleted"; action = "CompleteJob" } ∷ [];
      }
      ∷ [];
  plugins = ("env", []) ∷ ("svc", []) ∷ [];
  phase = JobPhase.unset;
}

vc_built : build_vc_job one_cpu job ≡ ok built_vc
unfolding build_vc_job patch_pod_spec_with_role_spec insert
vc_built = refl

reconcile_vc_job-build_vc_job_example :
    (shape built_vc.tasks ≡ desired job.spec.type job)
    × (built_vc.meta ≡ child_meta one_cpu job)
    × (reconcile_vc_job job built_vc ≡ ok (built_vc, false))
reconcile_vc_job-build_vc_job_example = reconcile_vc_job-build_vc_job one_cpu job built_vc vc_built

empty_cache-IsValid : IsValid (empty_cache {Q = Amount})
unfolding lookup
empty_cache-IsValid = record { in_heap = λ k p e. cc; no_alias = λ j k p e f. cc }

abbrev added : JobCache Amount
added = (handle_job (add_job job) empty_cache).1

added-IsValid : IsValid added
added-IsValid = handle_job-IsValid (add_job job) empty_cache empty_cache-IsValid

handle_job_lem_example :
    ((handle_job (put_vc vc) added).0 ≡ reply (put_vc vc) (view (event_key (put_vc vc)) added))
    × (view "ml/train" (handle_job (put_vc vc) added).1 ≡ (
        if str_eq (event_key (put_vc vc)) "ml/train"
        then entry_after (put_vc vc) (view (event_key (put_vc vc)) added)
        else view "ml/train" added))
handle_job_lem_example = handle_job_lem (put_vc vc) added "ml/train" added-IsValid

abbrev deleted : JobCache Amount
deleted = (handle_job (delete_job job) added).1

abbrev deleted_info : JobInfo Amount
deleted_info = record { namespace = "ml"; name = "train"; job = none; vc_job = none }

deleted_there : get_elem? deleted.heap 0 ≡ some deleted_info
unfolding handle_job pinta_scheduler.Controller.JobCache.find lookup insert key_fn
deleted_there = refl

process_cleanup_job_lem_example :
    ((process_cleanup_job (some 0) deleted).0 ≡ true)
    × (view "ml/train" (process_cleanup_job (some 0) deleted).1 ≡ (
        if job_terminated deleted_info && str_eq (key_fn "ml" "train") "ml/train"
        then none
        else view "ml/train" deleted))
    × ((process_cleanup_job (some 0) deleted).1.deleted_jobs
        ≡ deleted.deleted_jobs ++ forget 0 ∷ done 0 ∷ [])
process_cleanup_job_lem_example =
    process_cleanup_job_lem 0 deleted_info deleted "ml/train" deleted_there

-- A server that stores what it gets.
abbrev pub server : ClusterApi Amount
server = record {
  create_answer = λ sent ns x. some x;
  update_answer = λ sent ns x. some x;
  status_answer = λ sent ns x. some x;
}

abbrev info : JobInfo Amount
info = record { namespace = "ml"; name = "train"; job = some job; vc_job = some vc }

execute-IsAllowed_example :
    Sends (IsAllowed 9 info job scheduled_state) (execute amounts server 9 info)
unfolding state_of
execute-IsAllowed_example = execute-IsAllowed amounts server 9 info job refl

-- The Volcano job that the PintaJob controls, and a manager that has both.
abbrev owned_vc : VcJob Amount
owned_vc = record vc { meta = child_meta one_cpu job }

abbrev with_vc : JobCache Amount
with_vc = (handle_job (put_vc owned_vc) added).1

with_vc-IsValid : IsValid with_vc
with_vc-IsValid = handle_job-IsValid (put_vc owned_vc) added added-IsValid

abbrev loaded : Manager Amount
loaded = record { world = record { cache = with_vc; calls = [] }; queues = [] }

abbrev cached_info : JobInfo Amount
cached_info = record info { vc_job = some owned_vc }

loaded_info : view (vc_job_key owned_vc) with_vc ≡ some cached_info
unfolding handle_job view pinta_scheduler.Controller.JobCache.find lookup insert key_fn
loaded_info = refl

drop_vc_job-panics_example :
    let req = vc_job_request (λ k. 4) 3 owned_vc in
    let m' = drop_vc_job (λ k. 4) 3 owned_vc loaded in
    (m'.queues ≡ add_request 1 req ∷ [])
    × (process_next_req (λ k. 4) 3 amounts server 9 (λ calls w r. 0) 1 (some req) m'
        ≡ (panic, queue_call (finish 1 req) m'))
unfolding state_of is_controlled_by
drop_vc_job-panics_example =
    drop_vc_job-panics (λ k. 4) 3 amounts server 9 (λ calls w r. 0) loaded owned_vc cached_info job
      with_vc-IsValid refl loaded_info refl scheduled_started

-- All requests go to the second of three workers.
abbrev pub no_requests : Manager Amount
no_requests = record { world = record { cache = empty_cache; calls = [] }; queues = [] }

abbrev pub train_request : Request
train_request = record { namespace = "ml"; job_name = "train" }

abbrev pub busy : List (ManagerEvent Amount)
busy = job_added job ∷ round 0 (some train_request) ∷ round 1 (some train_request) ∷ []

handle_events-IsRouted_example :
    All
      (IsRouted (λ k. 4) 3)
      (handle_events (λ k. 4) 3 amounts server 9 (λ calls w r. 0) busy no_requests).queues
handle_events-IsRouted_example =
    handle_events-IsRouted (λ k. 4) 3 amounts server 9 (λ calls w r. 0) busy no_requests tt
