-- ===== src/Info/Node.antt =====
-- pkg/apis/info/node_info.go: what the scheduler and the controller keep of a node.
pub mod Laws
use pinta_scheduler.Prelude.{
  ℕ, zero, suc, ◌+◌, ◌-◌, ◌/◌, ◌%◌, String, Option, none, some, List, [], ◌∷◌, Bool, true, false,
  not, ◌&&◌, str_eq, ◌==◌, if◌then◌else◌, or_else,
}
use pinta_scheduler.Prelude.Int.{ℤ, pos, negsuc, pos_part, neg_part, abs_ℤ, eqb_ℤ, sub_ℕ}
use pinta_scheduler.Dict.{Dict, lookup}
use pinta_scheduler.Info.Device.{GpuDevice, gpu_memory, to_uint, new_gpu_device}
use pinta_scheduler.Info.Resource.{Resource, QuantityApi, empty_resource, new_resource}

-- corev1.NodeCondition
pub record NodeCondition : Type 0 where
  pub type : String
  pub status : String

-- corev1.Node
pub record Node (Q : Type 0) : Type 0 where
  pub name : String
  pub resource_version : String
  pub labels : Dict String
  pub allocatable : Dict Q
  pub capacity : Dict Q
  pub conditions : List NodeCondition
  pub taints : List String

-- map[int]*GPUDevice
abbrev pub GpuDevices : Type 0 → Type 0
GpuDevices Q = ℕ → Option (GpuDevice Q)

-- The value of a NodePhase is 0 until it is set.
pub data NodePhase : Type 0 where
  unset ready not_ready : NodePhase

unfoldable pub phase_name : NodePhase → String
phase_name ready = "Ready"
phase_name not_ready = "NotReady"
phase_name unset = "Unknown"

pub record NodeState : Type 0 where
  pub phase : NodePhase
  pub reason : String

-- `Others` is never set.
pub record NodeInfo (Q : Type 0) : Type 0 where
  pub name : String
  pub node : Option (Node Q)
  pub type : String
  pub state : NodeState
  pub allocatable : Resource
  pub capacity : Resource
  pub gpu_devices : GpuDevices Q

abbrev pub type_label : String
type_label = "pinta.qed.usc.edu/type"

abbrev pub gpu_number : String
gpu_number = "volcano.sh/gpu-number"

abbrev pub is_ready_phase : NodePhase → Bool
is_ready_phase ready = true
is_ready_phase _ = false

-- a / b of two int64, which rounds towards 0; the divisor is not 0 where it is called.
unfoldable pub quot_int64 : ℤ → ℤ → ℤ
quot_int64 a b =
    let q = abs_ℤ a / abs_ℤ b in
    if neg_part a == 0
    then if neg_part b == 0 then pos q else sub_ℕ 0 q
    else if neg_part b == 0
    then sub_ℕ 0 q
    else pos q

-- The loop of `setNodeGPUInfo` with `rounds` left, at device `i`.
unfoldable pub add_gpu_devices : {Q : Type 0} → ℕ → ℕ → ℕ → GpuDevices Q → GpuDevices Q
add_gpu_devices zero i mem devices = devices
add_gpu_devices (suc rounds) i mem devices =
    add_gpu_devices rounds (suc i) mem
      (λ j. if i == j then some (new_gpu_device i mem) else devices j)

-- The loop over the conditions returns at the first one that says that the node is not ready.
unfoldable pub conditions_ready : List NodeCondition → Bool
conditions_ready [] = true
conditions_ready (c ∷ cs) =
    not (str_eq c.type "Ready" && not (str_eq c.status "True")) && conditions_ready cs

module _ {Q : Type 0} (q : QuantityApi Q) where
  -- Capacity that gives no memory, no number or the number 0 changes nothing.
  unfoldable pub gpu_info : Option Q → Option Q → GpuDevices Q → GpuDevices Q
  gpu_info none res devices = devices
  gpu_info (some memory) none devices = devices
  gpu_info (some memory) (some res) devices =
      let number = q.value res in
      if eqb_ℤ number (pos 0)
      then devices
      else add_gpu_devices (pos_part number) 0 (to_uint (quot_int64 (q.value memory) number))
          devices

  unfoldable pub set_node_gpu_info : Option (Node Q) → NodeInfo Q → NodeInfo Q
  set_node_gpu_info none ni = ni
  set_node_gpu_info (some node) ni = record ni {
    gpu_devices =
        gpu_info (lookup gpu_memory node.capacity) (lookup gpu_number node.capacity) ni.gpu_devices;
  }

  unfoldable pub set_node_type : Option (Node Q) → NodeInfo Q → NodeInfo Q
  set_node_type none ni = ni
  set_node_type (some node) ni = record ni { type = or_else (lookup type_label node.labels) "" }

  unfoldable pub set_node_state : Option (Node Q) → NodeInfo Q → NodeInfo Q
  set_node_state none ni = record ni {
    state = record { phase = not_ready; reason = "UnInitialized" };
  }
  set_node_state (some node) ni =
      if conditions_ready node.conditions
      then record ni { state = record { phase = ready; reason = "" } }
      else record ni { state = record { phase = not_ready; reason = "NotReady" } }

  abbrev fill_node_info : Option (Node Q) → NodeInfo Q → NodeInfo Q
  fill_node_info none ni = ni
  fill_node_info (some node) ni = record ni {
    name = node.name;
    node = some node;
    allocatable = new_resource q node.allocatable;
    capacity = new_resource q node.capacity;
  }

  abbrev blank_node_info : NodeInfo Q
  blank_node_info = record {
    name = "";
    node = none;
    type = "";
    state = record { phase = unset; reason = "" };
    allocatable = empty_resource;
    capacity = empty_resource;
    gpu_devices = λ _. none;
  }

  unfoldable pub new_node_info : Option (Node Q) → NodeInfo Q
  unfolding set_node_type set_node_gpu_info set_node_state
  new_node_info node =
      set_node_state node
        (set_node_gpu_info node (set_node_type node (fill_node_info node blank_node_info)))

  unfoldable pub clone : NodeInfo Q → NodeInfo Q
  unfolding new_node_info
  clone ni = new_node_info ni.node

  unfoldable pub is_ready : NodeInfo Q → Bool
  is_ready ni = is_ready_phase ni.state.phase

  -- The callers give a node that is not nil.
  unfoldable pub set_node : Node Q → NodeInfo Q → NodeInfo Q
  unfolding set_node_type set_node_gpu_info set_node_state is_ready
  set_node node ni =
      let ni' =
        set_node_gpu_info (some node) (set_node_state (some node) (set_node_type (some node) ni)) in
      if is_ready ni' then fill_node_info (some node) ni' else ni'
