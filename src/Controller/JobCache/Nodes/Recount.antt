-- ===== src/Controller/JobCache/Nodes/Recount.antt =====
-- The updates of a node that change nothing, in pkg/controller/cache/node_event_handlers.go.
use pinta_scheduler.Prelude.{◌≡◌, refl, true, some, List, [], ◌∷◌, ◌++◌, arith, str_eq_refl}
use pinta_scheduler.Dict.{lookup, entries}
use pinta_scheduler.Prelude.{ap, ◌∙◌, none, Option, if◌then◌else◌}
use mathlib.Core.List.{append_assoc}
use pinta_scheduler.Prelude.Int.{eqb_ℤ, eqb_ℤ_refl}
use pinta_scheduler.Dict.Laws.{lookup-insert, all_entries_iff}
use pinta_scheduler.Info.Resource.{Resource, QuantityApi, scalar}
use pinta_scheduler.Info.Resource.Compare.{equal_strict}
use pinta_scheduler.Info.Resource.Arith.{HasMap}
use pinta_scheduler.Info.Node.{Node, NodeInfo, new_node_info}
use pinta_scheduler.Info.NodeType.{NodeTypeInfo, add_node, new_node_type_info}
use pinta_scheduler.Controller.JobCache.{JobCache}
use pinta_scheduler.Controller.JobCache.Nodes.{
  delete_node, has_changed, put_node, add_or_update_node,
}
use pinta_scheduler.Controller.JobCache.Nodes.Laws.{lookup-count_node}
use pinta_scheduler.Controller.JobCache.Nodes.Requests.{new_node_info-HasMap}

module _ {Q : Type 0} (q : QuantityApi Q) where
  equal_strict_refl : (r : Resource) → HasMap r → equal_strict r r ≡ true
  unfolding equal_strict
  equal_strict_refl r h = ground (
    arith,
    eqb_ℤ_refl r.milli_cpu,
    eqb_ℤ_refl r.memory,
    (all_entries_iff (λ name quant. eqb_ℤ quant (scalar r.scalar_resources name))
          (entries r.scalar_resources) h).1
        (λ k v e. rw e (eqb_ℤ_refl v)),
  )

  put_node-listed :
      (ni : NodeInfo Q) (o : Option (NodeTypeInfo Q))
      → (listed : List (NodeInfo Q)) × ((put_node ni o).nodes ≡ listed ++ ni ∷ [])
  unfolding add_node new_node_type_info
  put_node-listed ni none = ([], refl)
  put_node-listed ni (some nti) = (nti.nodes, refl)

  -- After an update of a node its type lists it last.
  add_or_update_node-listed :
      (node : Node Q) (jc : JobCache Q)
      → let ni = new_node_info q (some node) in
        let jc' = add_or_update_node q node jc in
        (lookup node.name jc'.nodes ≡ some ni)
        × ((listed : List (NodeInfo Q)) × (nti : NodeTypeInfo Q) × (lookup ni.type jc'.node_types
              ≡ some nti)
            × (nti.nodes ≡ listed ++ ni ∷ []))
  unfolding add_or_update_node
  add_or_update_node-listed node jc =
      let ni = new_node_info q (some node) in
      let jc' =
        if has_changed ni (lookup node.name jc.nodes) then delete_node node.name jc else jc in
      let (listed, last) = put_node-listed ni (lookup ni.type jc'.node_types) in
      (
        ground (arith, lookup-insert node.name node.name ni jc'.nodes, str_eq_refl node.name),
        (
          listed,
          put_node ni (lookup ni.type jc'.node_types),
          ground (arith, lookup-count_node ni jc'.node_types ni.type, str_eq_refl ni.type),
          last,
        ),
      )

  counted :
      (node : Node Q) (jc : JobCache Q) (nti : NodeTypeInfo Q)
      → let ni = new_node_info q (some node) in
        lookup node.name jc.nodes ≡ some ni
        → equal_strict ni.allocatable ni.allocatable ≡ true
        → lookup ni.type jc.node_types ≡ some nti
        → lookup ni.type (add_or_update_node q node jc).node_types ≡ some (add_node ni nti)
  unfolding add_or_update_node
  counted node jc nti cached same there =
      let ni = new_node_info q (some node) in
      ground (arith, lookup-count_node ni jc.node_types ni.type, str_eq_refl ni.type)

  -- When a node is added or updated twice in a row without a change, in whatever cache, its type lists
  -- it twice in a row.
  pub add_or_update_node-counts_again :
      (node : Node Q) (jc : JobCache Q)
      → let ni = new_node_info q (some node) in
        (listed : List (NodeInfo Q)) × (nti : NodeTypeInfo Q) × (lookup ni.type
            (add_or_update_node q node (add_or_update_node q node jc)).node_types
          ≡ some nti)
        × (nti.nodes ≡ listed ++ ni ∷ ni ∷ [])
  add_or_update_node-counts_again node jc =
      let ni = new_node_info q (some node) in
      let jc' = add_or_update_node q node jc in
      let (cached, (listed, nti, there, last)) = add_or_update_node-listed node jc in
      let same = equal_strict_refl ni.allocatable (new_node_info-HasMap q node) in
      (
        listed,
        add_node ni nti,
        counted node jc' nti cached same there,
        unfold add_node in ap (λ ns. ns ++ ni ∷ []) last ∙ append_assoc listed (ni ∷ []) (ni ∷ []),
      )
