-- ===== src/Api.antt =====
-- pkg/apis/pinta/v1/types.go: PintaJobs, and of the Kubernetes and Volcano objects in them the
-- fields that the program reads or writes. `Q` is the type of quantities.
use pinta_scheduler.Prelude.{ℕ, String, Option, List, [], ◌∷◌, Bool}
use pinta_scheduler.Prelude.Int.{ℤ, pos}
use pinta_scheduler.Dict.{Dict}

-- metav1.OwnerReference
pub record OwnerReference : Type 0 where
  pub api_version : String
  pub kind : String
  pub uid : String
  pub controller : Bool

-- metav1.ObjectMeta
pub record ObjectMeta : Type 0 where
  pub name : String
  pub namespace : String
  pub uid : String
  pub resource_version : String
  pub annotations : Dict String
  pub owner_references : List OwnerReference
  pub creation_timestamp : ℕ
  pub deletion_timestamp : Option ℕ

-- corev1.Container, with its resource limits and its environment
pub record Container (Q : Type 0) : Type 0 where
  pub limits : Dict Q
  pub env : List (String × String)

-- corev1.PodSpec
pub record PodSpec (Q : Type 0) : Type 0 where
  pub node_selector : Option (Dict String)
  pub containers : List (Container Q)

pub record RoleSpec (Q : Type 0) : Type 0 where
  pub node_type : String
  pub spec : PodSpec Q
  pub resources : Dict Q

-- A string with four values that the program knows.
pub data PintaJobType : Type 0 where
  symmetric ps_worker mpi image_builder : PintaJobType
  other : String → PintaJobType

pub record PintaJobSpec (Q : Type 0) : Type 0 where
  pub type : PintaJobType
  pub volumes : List String  -- volcano VolumeSpecs, passed on unread
  pub master : RoleSpec Q
  pub replica : RoleSpec Q

-- A string with six values that the program knows; `empty` is "".
pub data PintaJobState : Type 0 where
  empty idle scheduled running preempted completed failed : PintaJobState
  other : String → PintaJobState

pub record PintaJobStatus : Type 0 where
  pub state : PintaJobState
  pub last_transition_time : ℕ
  pub num_masters : ℤ  -- int32
  pub num_replicas : ℤ  -- int32

pub record PintaJob (Q : Type 0) : Type 0 where
  pub meta : ObjectMeta
  pub open meta use *
  pub spec : PintaJobSpec Q
  pub status : List PintaJobStatus

abbrev pub zero_status : PintaJobStatus
zero_status = record {
  state = empty;
  last_transition_time = 0;
  num_masters = pos 0;
  num_replicas = pos 0;
}

-- `var last PintaJobStatus; if len(status) > 0 { last = status[0] }`
abbrev pub last_status : List PintaJobStatus → PintaJobStatus
last_status [] = zero_status
last_status (s ∷ rest) = s

-- volcano's LifecyclePolicy
pub record LifecyclePolicy : Type 0 where
  pub event : String
  pub action : String

-- volcano's TaskSpec, with the pod spec of its template
pub record TaskSpec (Q : Type 0) : Type 0 where
  pub name : String
  pub replicas : ℤ  -- int32
  pub pod_spec : PodSpec Q
  pub policies : List LifecyclePolicy

-- volcano's JobPhase; `unset` is "".
pub data JobPhase : Type 0 where
  unset pending aborting aborted running restarting completing completed terminating terminated
        failed :
      JobPhase

-- volcano's Job
pub record VcJob (Q : Type 0) : Type 0 where
  pub meta : ObjectMeta
  pub open meta use *
  pub scheduler_name : String
  pub min_available : ℤ  -- int32
  pub volumes : List String
  pub tasks : List (TaskSpec Q)
  pub plugins : Dict (List String)
  pub phase : JobPhase
