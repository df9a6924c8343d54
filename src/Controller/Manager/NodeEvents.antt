-- ===== src/Controller/Manager/NodeEvents.antt =====
-- The handlers of node events in pkg/controller/pintajob/pintajob_controller_handler.go.
use pinta_scheduler.Prelude.{
  ◌≡◌, refl, inl, inr, Option, none, some, List, [], ◌∷◌, str_eq, if◌then◌else◌, Bool-cases,
}
use pinta_scheduler.Info.Resource.{QuantityApi}
use pinta_scheduler.Info.Node.{Node}
use pinta_scheduler.Controller.Result.{ok}
use pinta_scheduler.Controller.JobCache.Nodes.{add_or_update_node, delete_node}
use pinta_scheduler.Controller.JobCache.Nodes.Requests.{
  NodeEvent, put, remove, handle_node, handle_nodes,
}
use pinta_scheduler.Controller.Manager.{Manager, cached}

-- What the informer gives for a deleted node: the node, or a tombstone that may hold it.
pub data Gone (Q : Type 0) : Type 0 where
  object : Node Q → Gone Q
  tombstone : Option (Node Q) → Gone Q

pub data Informed (Q : Type 0) : Type 0 where
  added : Node Q → Informed Q
  updated : Node Q → Node Q → Informed Q
  deleted : Gone Q → Informed Q

abbrev pub gone_node : {Q : Type 0} → Gone Q → Option (Node Q)
gone_node (object node) = some node
gone_node (tombstone node) = node

module _ {Q : Type 0} (q : QuantityApi Q) where
  unfoldable pub add_node : Node Q → Manager Q → Manager Q
  add_node node m = cached (λ jc. (ok tt, add_or_update_node q node jc)) m

  unfoldable pub update_node : Node Q → Node Q → Manager Q → Manager Q
  update_node old new m =
      if str_eq new.resource_version old.resource_version
      then m
      else cached (λ jc. (ok tt, add_or_update_node q new jc)) m

  -- `deleteNode`
  unfoldable pub drop_node : Gone Q → Manager Q → Manager Q
  drop_node gone m = elim (gone_node gone) [
    | none ↦ m
    | some node ↦ cached (λ jc. (ok tt, delete_node node.name jc)) m
  ]

  unfoldable pub handle_informed : Informed Q → Manager Q → Manager Q
  unfolding add_node update_node drop_node
  handle_informed (added node) m = add_node node m
  handle_informed (updated old new) m = update_node old new m
  handle_informed (deleted gone) m = drop_node gone m

  unfoldable pub handle_all : List (Informed Q) → Manager Q → Manager Q
  handle_all [] m = m
  handle_all (e ∷ es) m = handle_all es (handle_informed e m)

-- The events of the cache that the informer's events come down to.
abbrev pub effective : {Q : Type 0} → List (Informed Q) → List (NodeEvent Q)
effective [] = []
effective (added node ∷ es) = put node ∷ effective es
effective (updated old new ∷ es) =
    let rest = effective es in
    if str_eq new.resource_version old.resource_version then rest else put new ∷ rest
effective (deleted gone ∷ es) =
    let rest = effective es in
    elim (gone_node gone) [ none ↦ rest | some node ↦ remove node.name ∷ rest ]

module _ {Q : Type 0} (q : QuantityApi Q) where
  -- The manager with the cache that node events lead to.
  abbrev pub with_nodes : List (NodeEvent Q) → Manager Q → Manager Q
  with_nodes es m = cached (λ jc. (ok tt, handle_nodes q es jc)) m

  -- The events of the informer change the manager's cache as the node events of the cache do that they
  -- come down to: an update with the resource version of the old node and a tombstone without a node
  -- come down to none. They queue no request and call no client.
  pub handle_all_lem :
      (es : List (Informed Q)) (m : Manager Q) → handle_all q es m ≡ with_nodes (effective es) m
  unfolding handle_all handle_informed add_node update_node drop_node handle_nodes handle_node
  handle_all_lem [] m = refl
  handle_all_lem (added node ∷ es) m = handle_all_lem es (add_node q node m)
  handle_all_lem (updated old new ∷ es) m =
      elim (Bool-cases (str_eq new.resource_version old.resource_version)) [
        | inl same ↦ rw same (handle_all_lem es m)
        | inr other ↦
            rw other (handle_all_lem es (cached (λ jc. (ok tt, add_or_update_node q new jc)) m))
      ]
  handle_all_lem (deleted (object node) ∷ es) m = handle_all_lem es (drop_node q (object node) m)
  handle_all_lem (deleted (tombstone none) ∷ es) m = handle_all_lem es m
  handle_all_lem (deleted (tombstone (some node)) ∷ es) m =
      handle_all_lem es (drop_node q (tombstone (some node)) m)
