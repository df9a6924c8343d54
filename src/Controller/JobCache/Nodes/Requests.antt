-- ===== src/Controller/JobCache/Nodes/Requests.antt =====
-- What a request for one node of a type asks for, each node of that type can give.
use pinta_scheduler.Prelude.{
  String, ◌≡◌, subst, inl, inr, true, false, some, List, [], ◌∷◌, arith, str_eq, Bool-cases,
  Option-cases,
}
use pinta_scheduler.Dict.{Dict, lookup, insert, erase}
use pinta_scheduler.Dict.Laws.{lookup-nil, lookup-insert}
use pinta_scheduler.Info.Resource.{Resource, QuantityApi, to_resource_list}
use pinta_scheduler.Info.Resource.Compare.{less_equal_strict}
use pinta_scheduler.Info.Resource.Arith.{HasMap}
use pinta_scheduler.Info.Resource.Quantities.{new_resource-HasMap}
use pinta_scheduler.Info.Resource.Order.{less_equal_strict_iff}
use pinta_scheduler.Info.Node.{Node, NodeInfo, new_node_info}
use pinta_scheduler.Info.NodeType.{NodeTypeInfo}
use pinta_scheduler.Controller.Result.{ok}
use pinta_scheduler.Controller.JobCache.{JobCache, empty_cache}
use pinta_scheduler.Controller.JobCache.Nodes.{
  count_node, delete_node, has_changed, add_or_update_node, translate_resources, translate_node,
  translate_type,
}
use pinta_scheduler.Controller.JobCache.Nodes.Laws.{
  Covers, HasMapAt, AllocatableMaps, count_node-keeps, count_node-Covers, count_node-HasMapAt,
  count_nodes-Covers, count_nodes-HasMapAt,
}

module _ {Q : Type 0} where
  -- What holds of the nodes of a cache between two events.
  pub record IsValid (jc : JobCache Q) : Type 0 where
    pub types_have_maps : (t : String) → HasMapAt (lookup t jc.node_types)
    pub nodes_have_maps : AllocatableMaps jc.nodes
    pub nodes_covered :
        (name : String) (ni : NodeInfo Q) → lookup name jc.nodes ≡ some ni → Covers jc.node_types ni

  erase-AllocatableMaps :
      (name : String) (nodes : Dict (NodeInfo Q))
      → AllocatableMaps nodes
      → AllocatableMaps (erase name nodes)
  unfolding erase
  erase-AllocatableMaps name [] h = tt
  erase-AllocatableMaps name ((k, n) ∷ nodes) h =
      ground (arith, h.0, erase-AllocatableMaps name nodes h.1)

  insert-AllocatableMaps :
      (name : String) (ni : NodeInfo Q) (nodes : Dict (NodeInfo Q))
      → HasMap ni.allocatable
      → AllocatableMaps nodes
      → AllocatableMaps (insert name ni nodes)
  unfolding insert
  insert-AllocatableMaps name ni [] m h = (m, tt)
  insert-AllocatableMaps name ni ((k, n) ∷ nodes) m h =
      ground (arith, m, h.0, h.1, insert-AllocatableMaps name ni nodes m h.1)

  delete_node-IsValid :
      (name : String) (jc : JobCache Q) → IsValid jc → IsValid (delete_node name jc)
  unfolding delete_node
  delete_node-IsValid name jc v =
      let maps = erase-AllocatableMaps name jc.nodes v.nodes_have_maps in
      record {
        types_have_maps = λ t.
            count_nodes-HasMapAt (erase name jc.nodes) [] t maps
              (rw (lookup-nil {V = NodeTypeInfo Q} t) tt);
        nodes_have_maps = maps;
        nodes_covered = λ k ni e. count_nodes-Covers (erase name jc.nodes) [] k ni maps e;
      }

  -- The last step of `addOrUpdateNode`.
  put_info-IsValid :
      (name : String) (ni : NodeInfo Q) (jc : JobCache Q)
      → HasMap ni.allocatable
      → IsValid jc
      → IsValid
          (record jc { nodes = insert name ni jc.nodes; node_types = count_node ni jc.node_types })
  put_info-IsValid name ni jc m v = record {
    types_have_maps = λ t. count_node-HasMapAt ni jc.node_types t m (v.types_have_maps t);
    nodes_have_maps = insert-AllocatableMaps name ni jc.nodes m v.nodes_have_maps;
    nodes_covered = λ k n e. elim (Bool-cases (str_eq name k)) [
      | inl same ↦
          let found : ni ≡ n = ground (arith, same, e, lookup-insert k name ni jc.nodes) in
          subst (λ x. Covers (count_node ni jc.node_types) x) found
            (count_node-Covers ni jc.node_types m)
      | inr other ↦
          count_node-keeps ni n jc.node_types
            (v.nodes_covered k n (ground (arith, other, e, lookup-insert k name ni jc.nodes)))
    ];
  }

-- Node events of the informer.
pub data NodeEvent (Q : Type 0) : Type 0 where
  put : Node Q → NodeEvent Q
  remove : String → NodeEvent Q

module _ {Q : Type 0} (q : QuantityApi Q) where
  pub new_node_info-HasMap : (node : Node Q) → HasMap (new_node_info q (some node)).allocatable
  unfolding new_node_info
  new_node_info-HasMap node = ground (arith, new_resource-HasMap q node.allocatable)

  add_or_update_node-IsValid :
      (node : Node Q) (jc : JobCache Q) → IsValid jc → IsValid (add_or_update_node q node jc)
  unfolding add_or_update_node
  add_or_update_node-IsValid node jc v =
      let ni = new_node_info q (some node) in
      elim (Bool-cases (has_changed ni (lookup node.name jc.nodes))) [
        | inl changed ↦ rw changed (
            put_info-IsValid node.name ni (delete_node node.name jc) (new_node_info-HasMap node)
              (delete_node-IsValid node.name jc v))
        | inr same ↦ rw same (put_info-IsValid node.name ni jc (new_node_info-HasMap node) v)
      ]

  unfoldable pub handle_node : NodeEvent Q → JobCache Q → JobCache Q
  unfolding add_or_update_node delete_node
  handle_node (put node) jc = add_or_update_node q node jc
  handle_node (remove name) jc = delete_node name jc

  unfoldable pub handle_nodes : List (NodeEvent Q) → JobCache Q → JobCache Q
  unfolding handle_node
  handle_nodes [] jc = jc
  handle_nodes (e ∷ es) jc = handle_nodes es (handle_node e jc)

  handle_nodes-IsValid :
      (es : List (NodeEvent Q)) (jc : JobCache Q) → IsValid jc → IsValid (handle_nodes es jc)
  unfolding handle_nodes handle_node
  handle_nodes-IsValid [] jc v = v
  handle_nodes-IsValid (put node ∷ es) jc v =
      handle_nodes-IsValid es (add_or_update_node q node jc) (add_or_update_node-IsValid node jc v)
  handle_nodes-IsValid (remove name ∷ es) jc v =
      handle_nodes-IsValid es (delete_node name jc) (delete_node-IsValid name jc v)

  empty_cache-IsValid : IsValid (empty_cache {Q = Q})
  empty_cache-IsValid = record {
    types_have_maps = λ t. rw (lookup-nil {V = NodeTypeInfo Q} t) tt;
    nodes_have_maps = tt;
    nodes_covered = λ k n e. cc (lookup-nil {V = NodeInfo Q} k);
  }

  translated_type :
      (rl limits : Dict Q) (quant : Q) (t : String) (nti : NodeTypeInfo Q) (jc : JobCache Q)
      → lookup "node" rl ≡ some quant
      → q.is_zero quant ≡ false
      → lookup t jc.node_types ≡ some nti
      → translate_resources q rl t jc ≡ ok limits
      → limits ≡ to_resource_list q nti.resource
  unfolding translate_resources translate_node translate_type
  translated_type rl limits quant t nti jc e nonzero there translated = ground arith

  -- After any events of the informer, a request for one node of a type that is translated gives the
  -- list of a resource that every cached node of that type can allocate, by `LessEqualStrict`.
  pub translate_resources-fits :
      (es : List (NodeEvent Q)) (rl limits : Dict Q) (quant : Q) (name : String) (ni : NodeInfo Q)
      → let jc = handle_nodes es empty_cache in
        lookup "node" rl ≡ some quant
        → q.is_zero quant ≡ false
        → lookup name jc.nodes ≡ some ni
        → translate_resources q rl ni.type jc ≡ ok limits
        → (r : Resource) × (limits ≡ to_resource_list q r)
          × (less_equal_strict r ni.allocatable ≡ true)
  translate_resources-fits es rl limits quant name ni e nonzero found translated =
      let jc = handle_nodes es empty_cache in
      let v = handle_nodes-IsValid es empty_cache empty_cache-IsValid in
      elim (Option-cases (lookup ni.type jc.node_types)) [
        | inl missing ↦ absurd (rw missing at (v.nodes_covered name ni found))
        | inr (nti, there) ↦ (
          nti.resource,
          translated_type rl limits quant ni.type nti jc e nonzero there translated,
          (less_equal_strict_iff nti.resource ni.allocatable
                (rw there at (v.types_have_maps ni.type))).1
              (rw there at (v.nodes_covered name ni found)),
        )
      ]
