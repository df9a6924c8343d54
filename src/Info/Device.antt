-- ===== src/Info/Device.antt =====
-- pkg/apis/info/device_info.go: the GPUs of a node and the memory that pods take of them.
pub mod Laws
use pinta_scheduler.Prelude.{
  ℕ, ◌+◌, ◌-◌, ◌%◌, String, Option, none, some, List, [], ◌∷◌, Bool, true, false, ◌||◌, str_eq,
  if◌then◌else◌,
}
use pinta_scheduler.Prelude.Int.{ℤ, pos, negsuc}
use pinta_scheduler.Dict.{Dict, lookup}
use pinta_scheduler.Api.{Container, PodSpec}
use pinta_scheduler.Info.Resource.{QuantityApi}

-- corev1.Pod
pub record Pod (Q : Type 0) : Type 0 where
  pub phase : String
  pub spec : PodSpec Q

-- Nothing in the repository fills the map of pods.
pub record GpuDevice (Q : Type 0) : Type 0 where
  pub id : ℕ
  pub pod_map : Dict (Pod Q)
  pub memory : ℕ  -- uint

-- VolcanoGPUResource of well_known_labels.go
abbrev pub gpu_memory : String
gpu_memory = "volcano.sh/gpu-memory"

-- The words of a uint.
abbrev pub two_64 : ℕ
two_64 = 18446744073709551616

-- uint(a) of an int64.
unfoldable pub to_uint : ℤ → ℕ
to_uint (pos n) = n % two_64
to_uint (negsuc n) = 18446744073709551615 - n % two_64

abbrev pub new_gpu_device : {Q : Type 0} → ℕ → ℕ → GpuDevice Q
new_gpu_device id mem = record { id = id; pod_map = []; memory = mem }

abbrev pub is_over : String → Bool
is_over phase = str_eq phase "Succeeded" || str_eq phase "Failed"

module _ {Q : Type 0} (q : QuantityApi Q) where
  unfoldable pub gpu_resource_of_container : Container Q → ℕ
  gpu_resource_of_container c = elim (lookup gpu_memory c.limits) [
    | none ↦ 0
    | some val ↦ to_uint (q.value val)
  ]

  -- The loop over the containers, on what it has so far.
  unfoldable pub add_containers : List (Container Q) → ℕ → ℕ
  add_containers [] mem = mem
  add_containers (c ∷ cs) mem = add_containers cs ((mem + gpu_resource_of_container c) % two_64)

  unfoldable pub gpu_resource_of_pod : Pod Q → ℕ
  unfolding add_containers
  gpu_resource_of_pod pod = add_containers pod.spec.containers 0

  unfoldable pub add_pods : Dict (Pod Q) → ℕ → ℕ
  unfolding gpu_resource_of_pod
  add_pods [] res = res
  add_pods ((key, pod) ∷ pods) res =
      add_pods pods (if is_over pod.phase then res else (res + gpu_resource_of_pod pod) % two_64)

  unfoldable pub get_used_gpu_memory : GpuDevice Q → ℕ
  unfolding add_pods
  get_used_gpu_memory g = add_pods g.pod_map 0
