-- ===== src/Scheduler/Cache/Nodes.antt =====
-- A snapshot of the nodes never meets a ready info without its node.
use pinta_scheduler.Prelude.{
  String, ◌≡◌, refl, ◌⊎◌, inl, inr, Bool, true, false, Option, none, some, List, [], ◌∷◌, arith,
  str_eq, if◌then◌else◌, is_some, Bool-cases, Option-cases,
}
use pinta_scheduler.Dict.{Dict, lookup, insert, erase}
use pinta_scheduler.Info.Resource.{QuantityApi}
use pinta_scheduler.Info.Node.{
  Node, NodeInfo, new_node_info, set_node, is_ready, clone, conditions_ready,
}
use pinta_scheduler.Controller.Result.{ok, is_ok}
use pinta_scheduler.Scheduler.Cache.{
  JobInfo, PintaCache, add_node, update_node, delete_node, put_info, has_no_taint, is_usable,
  snapshot_nodes, snapshot,
}

-- Node events of the informer.
pub data NodeEvent (Q : Type 0) : Type 0 where
  put change remove : Node Q → NodeEvent Q

module _ {Q : Type 0} (q : QuantityApi Q) where
  -- An info that is ready has its node.
  HasNode : NodeInfo Q → Type 0
  HasNode ni = (is_ready q ni ≡ false) ⊎ (is_some ni.node ≡ true)

  abbrev AllHaveNodes : Dict (NodeInfo Q) → Type 0
  AllHaveNodes [] = Unit
  AllHaveNodes ((name, ni) ∷ nodes) = HasNode ni × AllHaveNodes nodes

  new_node_info-HasNode : (node : Node Q) → HasNode (new_node_info q (some node))
  unfolding HasNode new_node_info
  new_node_info-HasNode node = elim (Bool-cases (conditions_ready node.conditions)) [
    | inl ready ↦ rw ready (inr refl)
    | inr lost ↦ rw lost (inr refl)
  ]

  set_node-HasNode : (node : Node Q) (ni : NodeInfo Q) → HasNode (set_node q node ni)
  unfolding HasNode set_node
  set_node-HasNode node ni = elim (Bool-cases (conditions_ready node.conditions)) [
    | inl ready ↦ rw ready (inr refl)
    | inr lost ↦ rw lost (inl refl)
  ]

  put_info-HasNode : (node : Node Q) (o : Option (NodeInfo Q)) → HasNode (put_info q node o)
  unfolding put_info
  put_info-HasNode node none = new_node_info-HasNode node
  put_info-HasNode node (some ni) = set_node-HasNode node ni

  insert-AllHaveNodes :
      (name : String) (ni : NodeInfo Q) (nodes : Dict (NodeInfo Q))
      → HasNode ni
      → AllHaveNodes nodes
      → AllHaveNodes (insert name ni nodes)
  unfolding insert
  insert-AllHaveNodes name ni [] m h = (m, tt)
  insert-AllHaveNodes name ni ((k, n) ∷ nodes) m h = elim (Bool-cases (str_eq k name)) [
    | inl same ↦ rw same (m, h.1)
    | inr other ↦ rw other (h.0, insert-AllHaveNodes name ni nodes m h.1)
  ]

  erase-AllHaveNodes :
      (name : String) (nodes : Dict (NodeInfo Q))
      → AllHaveNodes nodes
      → AllHaveNodes (erase name nodes)
  unfolding erase
  erase-AllHaveNodes name [] h = tt
  erase-AllHaveNodes name ((k, n) ∷ nodes) h = elim (Bool-cases (str_eq k name)) [
    | inl same ↦ rw same (erase-AllHaveNodes name nodes h.1)
    | inr other ↦ rw other (h.0, erase-AllHaveNodes name nodes h.1)
  ]

  is_usable-ok : (ni : NodeInfo Q) → HasNode ni → (b : Bool) × (is_usable q ni ≡ ok b)
  unfolding is_usable has_no_taint HasNode
  is_usable-ok ni h = elim (Bool-cases (is_ready q ni)) [
    | inr lost ↦ (false, rw lost refl)
    | inl ready ↦ elim (Option-cases ni.node) [
      | inl missing ↦ ground (arith, ready, missing, h)
      | inr (node, there) ↦
          (elim node.taints [ [] ↦ true | t ∷ ts ↦ false ], rw (ready, there) refl)
    ]
  ]

  snapshot_nodes-ok :
      (nodes out : Dict (NodeInfo Q))
      → AllHaveNodes nodes
      → (shown : Dict (NodeInfo Q)) × (snapshot_nodes q nodes out ≡ ok shown)
  unfolding snapshot_nodes
  snapshot_nodes-ok [] out h = (out, refl)
  snapshot_nodes-ok ((name, ni) ∷ nodes) out h =
      let (usable, e) = is_usable-ok ni h.0 in
      let (shown, f) =
        snapshot_nodes-ok nodes (if usable then insert ni.name (clone q ni) out else out) h.1 in
      (shown, rw (e, f) refl)

  module _ {F : Type 0} where
    unfoldable pub handle_node : NodeEvent Q → PintaCache Q F → PintaCache Q F
    unfolding add_node update_node delete_node
    handle_node (put node) pc = add_node q node pc
    handle_node (change node) pc = (update_node q node pc).1
    handle_node (remove node) pc = (delete_node q node pc).1

    unfoldable pub handle_nodes : List (NodeEvent Q) → PintaCache Q F → PintaCache Q F
    unfolding handle_node
    handle_nodes [] pc = pc
    handle_nodes (e ∷ es) pc = handle_nodes es (handle_node e pc)

    handle_node-AllHaveNodes :
        (e : NodeEvent Q) (pc : PintaCache Q F)
        → AllHaveNodes pc.nodes
        → AllHaveNodes (handle_node e pc).nodes
    unfolding handle_node add_node update_node delete_node
    handle_node-AllHaveNodes (put node) pc h =
        insert-AllHaveNodes node.name _ pc.nodes (put_info-HasNode node (lookup node.name pc.nodes))
          h
    handle_node-AllHaveNodes (change node) pc h = elim (Option-cases (lookup node.name pc.nodes)) [
      | inl missing ↦ rw (missing, AllHaveNodes) h
      | inr (ni, there) ↦
          rw (there, AllHaveNodes)
            (insert-AllHaveNodes node.name _ pc.nodes (set_node-HasNode node ni) h)
    ]
    handle_node-AllHaveNodes (remove node) pc h = elim (Option-cases (lookup node.name pc.nodes)) [
      | inl missing ↦ rw (missing, AllHaveNodes) h
      | inr (ni, there) ↦ rw (there, AllHaveNodes) (erase-AllHaveNodes node.name pc.nodes h)
    ]

    handle_nodes-AllHaveNodes :
        (es : List (NodeEvent Q)) (pc : PintaCache Q F)
        → AllHaveNodes pc.nodes
        → AllHaveNodes (handle_nodes es pc).nodes
    unfolding handle_nodes
    handle_nodes-AllHaveNodes [] pc h = h
    handle_nodes-AllHaveNodes (e ∷ es) pc h =
        handle_nodes-AllHaveNodes es (handle_node e pc) (handle_node-AllHaveNodes e pc h)

    -- After any node events on a cache without nodes a snapshot returns: no info that is ready, of
    -- which it reads the taints, lacks its node.
    pub snapshot-ok :
        (es : List (NodeEvent Q)) (unmarshal : String → Option F) (jobs : Dict (JobInfo Q F))
        → is_ok (snapshot q unmarshal (handle_nodes es (record { nodes = []; jobs = jobs }))) ≡ true
    unfolding snapshot
    snapshot-ok es unmarshal jobs =
        let pc = handle_nodes es (record { nodes = []; jobs = jobs }) in
        let (shown, e) =
          snapshot_nodes-ok pc.nodes []
            (handle_nodes-AllHaveNodes es (record { nodes = []; jobs = jobs }) tt) in
        rw e refl
