-- ===== src/Info/Node/Laws.antt =====
-- What a node info says of its node.
use pinta_scheduler.Prelude.{
  ℕ, zero, suc, ◌+◌, ◌≡◌, refl, ◌≢◌, ◌↔◌, ◌⊎◌, true, false, ◌&&◌, Option, none, some, List, [], ◌∷◌,
  arith, str_eq_iff, ltb, leb, ◌==◌, if◌then◌else◌, or_else, is_some, All,
}
use pinta_scheduler.Prelude.Int.{ℤ, pos, pos_part, eqb_ℤ→eq}
use pinta_scheduler.Dict.{lookup}
use pinta_scheduler.Info.Resource.{QuantityApi}
use pinta_scheduler.Info.Node.{
  NodeCondition, Node, GpuDevice, NodeInfo, add_gpu_devices, new_gpu_device, conditions_ready,
  gpu_info, new_node_info, is_ready, set_node, type_label, gpu_memory, gpu_number, to_uint,
  quot_int64,
}

-- The condition is not about readiness, or says that the node is ready.
abbrev pub SaysReady : NodeCondition → Type 0
SaysReady c = (c.type ≢ "Ready") ⊎ (c.status ≡ "True")

conditions_ready_iff : (cs : List NodeCondition) → (conditions_ready cs ≡ true) ↔ All SaysReady cs
unfolding conditions_ready
conditions_ready_iff [] = (λ _. tt, λ _. refl)
conditions_ready_iff (c ∷ cs) = (
  λ e. (
    ground (arith, str_eq_iff c.type "Ready", str_eq_iff c.status "True"),
    (conditions_ready_iff cs).0 (ground arith),
  ),
  λ h. ground (
    arith,
    str_eq_iff c.type "Ready",
    str_eq_iff c.status "True",
    h.0,
    (conditions_ready_iff cs).1 h.1,
  ),
)

module _ {Q : Type 0} (q : QuantityApi Q) where
  -- A node info is ready exactly where each condition of type Ready has the status True; one that is
  -- made of no node is not ready.
  pub new_node_info-is_ready :
      (node : Node Q)
      → ((is_ready q (new_node_info q (some node)) ≡ true) ↔ All SaysReady node.conditions)
        × (is_ready q (new_node_info q none) ≡ false)
  unfolding new_node_info is_ready
  new_node_info-is_ready node =
      let ready_iff = conditions_ready_iff node.conditions in
      ((λ e. ready_iff.0 (ground arith), λ h. ground (arith, ready_iff.1 h)), refl)

  -- `SetNode` to a node of which each condition of type Ready is True leaves what `NewNodeInfo`
  -- makes of it, but for the devices: these are put on top of those that the info had.
  pub set_node_ready :
      (node : Node Q) (ni : NodeInfo Q)
      → All SaysReady node.conditions
      → set_node q node ni ≡ record (new_node_info q (some node)) {
        gpu_devices =
            gpu_info q
              (lookup gpu_memory node.capacity)
              (lookup gpu_number node.capacity)
              ni.gpu_devices;
      }
  unfolding set_node new_node_info
  set_node_ready node ni h = ground (arith, (conditions_ready_iff node.conditions).1 h)

  -- `SetNode` to a node that is not ready keeps the name, the node and the resources that the info
  -- had, takes the new type, and makes the info not ready.
  pub set_node_not_ready :
      (node : Node Q) (ni : NodeInfo Q)
      → conditions_ready node.conditions ≡ false
      → let ni' = set_node q node ni in
        (is_ready q ni' ≡ false)
        × (ni'.name ≡ ni.name)
        × (ni'.node ≡ ni.node)
        × (ni'.allocatable ≡ ni.allocatable)
        × (ni'.capacity ≡ ni.capacity)
        × (ni'.type ≡ or_else (lookup type_label node.labels) "")
  unfolding set_node
  set_node_not_ready node ni h = ground arith

  add_gpu_devices_lem :
      (rounds i mem j : ℕ) {Q : Type 0} (devices : ℕ → Option (GpuDevice Q))
      → add_gpu_devices rounds i mem devices j
        ≡ (if leb i j && ltb j (i + rounds) then some (new_gpu_device j mem) else devices j)
  unfolding add_gpu_devices
  add_gpu_devices_lem zero i mem j devices = ground arith
  add_gpu_devices_lem (suc rounds) i mem j devices = ground (
    arith,
    add_gpu_devices_lem rounds (suc i) mem j
        (λ k. if i == k then some (new_gpu_device i mem) else devices k),
  )

  -- How many devices the capacity of a node gives, and the memory of each.
  abbrev pub gpu_count : Node Q → ℕ
  gpu_count node =
      if is_some (lookup gpu_memory node.capacity)
      then elim (lookup gpu_number node.capacity) [ none ↦ 0 | some res ↦ pos_part (q.value res) ]
      else 0

  abbrev value_or_zero : Option Q → ℤ
  value_or_zero none = pos 0
  value_or_zero (some quant) = q.value quant

  abbrev pub gpu_share : Node Q → ℕ
  gpu_share node = to_uint (
      quot_int64 (value_or_zero (lookup gpu_memory node.capacity))
        (value_or_zero (lookup gpu_number node.capacity)))

  -- After `SetNode` the devices below the number that the node has are new, with an equal share of
  -- its memory each, and all above keep what the info had: a node that loses devices keeps them.
  pub set_node-gpu_devices :
      (node : Node Q) (ni : NodeInfo Q) (j : ℕ)
      → (set_node q node ni).gpu_devices j ≡ (
          if ltb j (gpu_count node)
          then some (new_gpu_device j (gpu_share node))
          else ni.gpu_devices j)
  unfolding set_node gpu_info
  set_node-gpu_devices node ni j =
      let number = value_or_zero (lookup gpu_number node.capacity) in
      ground (
        arith,
        eqb_ℤ→eq number (pos 0),
        add_gpu_devices_lem (pos_part number) 0 (gpu_share node) j ni.gpu_devices,
      )
