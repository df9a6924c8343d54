-- ===== src/Samples.antt =====
-- Sample objects of a small cluster, on which the theorems are tried.
mod Resources
mod Nodes
mod Jobs
mod Scheduling
mod Policies
mod Release
mod Filling
mod Workers
mod Sharing
mod Lives
mod Tools
use pinta_scheduler.Prelude.{
  ℕ, ◌*◌, ◌+◌, ◌/◌, String, Option, none, some, List, [], ◌∷◌, Bool, true, false, str_eq, ◌||◌,
}
use pinta_scheduler.Prelude.Int.{ℤ, pos, negsuc, eqb_ℤ}
use pinta_scheduler.Dict.{Dict}
use pinta_scheduler.Api.{
  ObjectMeta, PodSpec, RoleSpec, PintaJob, PintaJobState, PintaJobStatus, JobPhase, VcJob,
  symmetric,
}
use pinta_scheduler.Info.Resource.{QuantityApi, Resource}
use pinta_scheduler.Info.Node.{Node, NodeCondition}

-- An amount in thousandths.
pub data Amount : Type 0 where
  milli : ℤ → Amount
  units : ℤ → Amount

abbrev pub thousandths : Amount → ℤ
thousandths (milli n) = n
thousandths (units (pos n)) = pos (1000 * n)
thousandths (units (negsuc n)) = negsuc (1000 * n + 999)

-- Whole units, rounded up.
abbrev pub whole : Amount → ℤ
whole (units n) = n
whole (milli (pos n)) = pos ((n + 999) / 1000)
whole (milli (negsuc n)) = negsuc (n / 1000)

abbrev pub gpu : String
gpu = "nvidia.com/gpu"

abbrev pub amounts : QuantityApi Amount
amounts = record {
  milli_value = thousandths;
  value = whole;
  is_zero = λ a. eqb_ℤ (thousandths a) (pos 0);
  equal = λ a b. eqb_ℤ (thousandths a) (thousandths b);
  one = units (pos 1);
  new_milli = milli;
  new_quantity = units;
  is_scalar_resource_name = λ k. str_eq k gpu;
}

abbrev pub small : Resource
small = record {
  milli_cpu = pos 2000;
  memory = pos 512;
  scalar_resources = some ((gpu, pos 1000) ∷ []);
  max_task_num = pos 0;
}

abbrev pub large : Resource
large = record {
  milli_cpu = pos 8000;
  memory = pos 4096;
  scalar_resources = some ((gpu, pos 4000) ∷ []);
  max_task_num = pos 0;
}

-- A resource whose scalar map is nil.
abbrev pub plain : Resource
plain = record {
  milli_cpu = pos 4000;
  memory = pos 2048;
  scalar_resources = none;
  max_task_num = pos 0;
}

abbrev pub ready_condition : NodeCondition
ready_condition = record { type = "Ready"; status = "True" }

abbrev pub lost_condition : NodeCondition
lost_condition = record { type = "Ready"; status = "Unknown" }

abbrev pub worker_node : Node Amount
worker_node = record {
  name = "worker";
  resource_version = "7";
  labels = ("pinta.qed.usc.edu/type", "v100") ∷ [];
  allocatable = ("cpu", units (pos 8)) ∷ ("memory", units (pos 4096)) ∷ (gpu, units (pos 2)) ∷ [];
  capacity =
      ("volcano.sh/gpu-memory", units (pos 32)) ∷ ("volcano.sh/gpu-number", units (pos 2)) ∷ [];
  conditions = ready_condition ∷ [];
  taints = [];
}

abbrev pub lost_node : Node Amount
lost_node = record worker_node { conditions = lost_condition ∷ [] }

abbrev pub sample_meta : String → ObjectMeta
sample_meta name = record {
  name = name;
  namespace = "ml";
  uid = "u-1";
  resource_version = "3";
  annotations = [];
  owner_references = [];
  creation_timestamp = 5;
  deletion_timestamp = none;
}

abbrev pub pod : PodSpec Amount
pod = record { node_selector = some []; containers = record { limits = []; env = [] } ∷ [] }

abbrev pub role : RoleSpec Amount
role = record { node_type = "v100"; spec = pod; resources = ("node", units (pos 1)) ∷ [] }

abbrev pub status_of : PintaJobState → ℤ → PintaJobStatus
status_of state replicas = record {
  state = state;
  last_transition_time = 6;
  num_masters = pos 0;
  num_replicas = replicas;
}

-- A symmetric job with one status.
abbrev pub job_in : PintaJobState → ℤ → PintaJob Amount
job_in state replicas = record {
  meta = sample_meta "train";
  spec = record { type = symmetric; volumes = []; master = role; replica = role };
  status = status_of state replicas ∷ [];
}

abbrev pub sample_vc_job : ℤ → JobPhase → VcJob Amount
sample_vc_job replicas phase = record {
  meta = sample_meta "train";
  scheduler_name = "volcano";
  min_available = replicas;
  volumes = [];
  tasks = record { name = "replica"; replicas = replicas; pod_spec = pod; policies = [] } ∷ [];
  plugins = [];
  phase = phase;
}
