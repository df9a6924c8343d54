-- ===== src/Controller/JobType.antt =====
-- pkg/controller/pintajob/type: the Volcano job that each type of PintaJob asks for.
pub mod Laws
pub mod Pods
use pinta_scheduler.Prelude.{
  ℕ, String, Option, none, some, List, [], ◌∷◌, Bool, true, false, ◌&&◌, str_eq, if◌then◌else◌,
}
use pinta_scheduler.Prelude.Int.{ℤ, pos, ◌+ℤ◌, eqb_ℤ, wrap32}
use pinta_scheduler.Dict.{Dict, insert}
use pinta_scheduler.Info.Node.{type_label}
use pinta_scheduler.Api.{
  ObjectMeta, OwnerReference, Container, PodSpec, RoleSpec, PintaJobType, PintaJob, symmetric,
  ps_worker, mpi, image_builder, other, LifecyclePolicy, TaskSpec, VcJob, unset, last_status,
}
use pinta_scheduler.Controller.Result.{
  Result, ok, err, panic, ◌>>=◌, pod_spec_is_nil, role_spec_is_nil, no_container, unexpected_tasks,
}

-- The caller's map after the call: what a nil map is replaced by is a local variable of the callee.
unfoldable pub patch_node_selector_with_node_type :
    Option (Dict String) → String → Option (Dict String)
patch_node_selector_with_node_type none node_type = none
patch_node_selector_with_node_type (some selector) node_type =
    if str_eq node_type "" then some selector else some (insert type_label node_type selector)

module _ {Q : Type 0} where
  abbrev pub set_limits : Dict Q → List (Container Q) → List (Container Q)
  set_limits limits [] = []
  set_limits limits (c ∷ cs) = record c { limits = limits } ∷ cs

-- `TranslateResources` of the controller's cache.
abbrev pub Translate : Type 0 → Type 0
Translate Q = Dict Q → String → Result (Dict Q)

module _ {Q : Type 0} (translate_resources : Translate Q) where
  abbrev pub has_container : List (Container Q) → Bool
  has_container [] = false
  has_container (c ∷ cs) = true

  unfoldable pub patch_pod_spec_with_role_spec :
      Option (PodSpec Q) → Option (RoleSpec Q) → Result (PodSpec Q)
  unfolding patch_node_selector_with_node_type
  patch_pod_spec_with_role_spec none role = err pod_spec_is_nil
  patch_pod_spec_with_role_spec (some pod) none = err role_spec_is_nil
  patch_pod_spec_with_role_spec (some pod) (some role) =
      if has_container pod.containers
      then (do
        resources ← translate_resources role.resources role.node_type
        ok (record {
          node_selector = patch_node_selector_with_node_type pod.node_selector role.node_type;
          containers = set_limits resources pod.containers;
        }))
      else err no_container

  abbrev pub patched : RoleSpec Q → Result (PodSpec Q)
  patched role = patch_pod_spec_with_role_spec (some role.spec) (some role)

  -- metav1.NewControllerRef of the job, with the kind PintaJob
  abbrev pub controller_ref : PintaJob Q → OwnerReference
  controller_ref job = record {
    api_version = "pinta.qed.usc.edu/v1";
    kind = "PintaJob";
    uid = job.uid;
    controller = true;
  }

  abbrev pub child_meta : PintaJob Q → ObjectMeta
  child_meta job = record {
    name = job.name;
    namespace = job.namespace;
    uid = "";
    resource_version = "";
    annotations = [];
    owner_references = controller_ref job ∷ [];
    creation_timestamp = 0;
    deletion_timestamp = none;
  }

  abbrev complete_job : List LifecyclePolicy
  complete_job = record { event = "TaskCompleted"; action = "CompleteJob" } ∷ []

  abbrev pub vc_job : PintaJob Q → ℤ → List (TaskSpec Q) → Dict (List String) → VcJob Q
  vc_job job min_available tasks plugins = record {
    meta = child_meta job;
    scheduler_name = "volcano";
    min_available = min_available;
    volumes = job.spec.volumes;
    tasks = tasks;
    plugins = plugins;
    phase = unset;
  }

  abbrev task : String → ℤ → PodSpec Q → List LifecyclePolicy → TaskSpec Q
  task name replicas pod policies = record {
    name = name;
    replicas = replicas;
    pod_spec = pod;
    policies = policies;
  }

  unfoldable pub build_symmetric : PintaJob Q → Result (VcJob Q)
  build_symmetric job =
      let status = last_status job.status in
      do
        pod ← patched job.spec.replica
        ok (
            vc_job job status.num_replicas
              (task "replica" status.num_replicas pod complete_job ∷ [])
              (("env", []) ∷ ("svc", []) ∷ []))

  unfoldable pub build_mpi : PintaJob Q → Result (VcJob Q)
  build_mpi job =
      let status = last_status job.status in
      do
        master ← patched job.spec.master
        replica ← patched job.spec.replica
        ok (
            vc_job job (wrap32 (status.num_masters +ℤ status.num_replicas))
              (task "master" status.num_masters master complete_job
                ∷ task "replica" status.num_replicas replica []
                ∷ [])
              (("env", []) ∷ ("svc", []) ∷ ("ssh", []) ∷ []))

  unfoldable pub build_ps_worker : PintaJob Q → Result (VcJob Q)
  build_ps_worker job =
      let status = last_status job.status in
      do
        master ← patched job.spec.master
        replica ← patched job.spec.replica
        ok (
            vc_job job (wrap32 (status.num_masters +ℤ status.num_replicas))
              (task "ps" status.num_masters master []
                ∷ task "worker" status.num_replicas replica complete_job
                ∷ [])
              (("env", []) ∷ ("svc", []) ∷ []))

  unfoldable pub build_image_builder : PintaJob Q → Result (VcJob Q)
  build_image_builder job = do
    pod ← patched job.spec.replica
    ok (vc_job job (pos 1) (task "image-builder" (pos 1) pod [] ∷ []) [])

  build_by_type : PintaJobType → PintaJob Q → Result (VcJob Q)
  unfolding build_symmetric build_mpi build_ps_worker build_image_builder
  build_by_type symmetric job = build_symmetric job
  build_by_type mpi job = build_mpi job
  build_by_type ps_worker job = build_ps_worker job
  build_by_type image_builder job = build_image_builder job
  build_by_type (other t) job = panic

  -- `NewType(cache, job).BuildVCJob()`: of another type NewType returns nil, and the call panics.
  unfoldable pub build_vc_job : PintaJob Q → Result (VcJob Q)
  unfolding build_by_type
  build_vc_job job = build_by_type job.spec.type job

module _ {Q : Type 0} where
  -- The tasks with their new replicas, and whether they changed.
  unfoldable pub reconcile_one : String → ℤ → List (TaskSpec Q) → Result (List (TaskSpec Q) × Bool)
  reconcile_one name replicas (t ∷ []) =
      if str_eq t.name name
      then (if eqb_ℤ t.replicas replicas
          then ok (t ∷ [], false)
          else ok (record t { replicas = replicas } ∷ [], true))
      else err unexpected_tasks
  reconcile_one name replicas _ = err unexpected_tasks

  unfoldable pub reconcile_two :
      String → ℤ → String → ℤ → List (TaskSpec Q) → Result (List (TaskSpec Q) × Bool)
  reconcile_two first masters second replicas (t ∷ u ∷ []) =
      if str_eq t.name first && str_eq u.name second
      then (if eqb_ℤ t.replicas masters && eqb_ℤ u.replicas replicas
          then ok (t ∷ u ∷ [], false)
          else ok (record t { replicas = masters } ∷ record u { replicas = replicas } ∷ [], true))
      else err unexpected_tasks
  reconcile_two first masters second replicas _ = err unexpected_tasks

  abbrev pub reconcile_symmetric :
      PintaJob Q → List (TaskSpec Q) → Result (List (TaskSpec Q) × Bool)
  reconcile_symmetric job tasks =
      reconcile_one "replica" (last_status job.status).num_replicas tasks

  abbrev pub reconcile_mpi : PintaJob Q → List (TaskSpec Q) → Result (List (TaskSpec Q) × Bool)
  reconcile_mpi job tasks =
      let status = last_status job.status in
      reconcile_two "master" status.num_masters "replica" status.num_replicas tasks

  abbrev pub reconcile_ps_worker :
      PintaJob Q → List (TaskSpec Q) → Result (List (TaskSpec Q) × Bool)
  reconcile_ps_worker job tasks =
      let status = last_status job.status in
      reconcile_two "ps" status.num_masters "worker" status.num_replicas tasks

  abbrev pub reconcile_image_builder :
      PintaJob Q → List (TaskSpec Q) → Result (List (TaskSpec Q) × Bool)
  reconcile_image_builder job tasks = reconcile_one "image-builder" (pos 1) tasks

  unfoldable pub reconcile_tasks :
      PintaJobType → PintaJob Q → List (TaskSpec Q) → Result (List (TaskSpec Q) × Bool)
  unfolding reconcile_one reconcile_two
  reconcile_tasks symmetric job tasks = reconcile_symmetric job tasks
  reconcile_tasks mpi job tasks = reconcile_mpi job tasks
  reconcile_tasks ps_worker job tasks = reconcile_ps_worker job tasks
  reconcile_tasks image_builder job tasks = reconcile_image_builder job tasks
  reconcile_tasks (other t) job tasks = panic

  -- `NewType(cache, job).ReconcileVCJob(vcJob)`: the job in place, and whether it changed.
  unfoldable pub reconcile_vc_job : PintaJob Q → VcJob Q → Result (VcJob Q × Bool)
  unfolding reconcile_tasks
  reconcile_vc_job job vc = do
    r ← reconcile_tasks job.spec.type job vc.tasks
    ok (record vc { tasks = r.0 }, r.1)
