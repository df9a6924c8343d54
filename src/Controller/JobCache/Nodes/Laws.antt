-- ===== src/Controller/JobCache/Nodes/Laws.antt =====
-- What counting nodes into the node type map keeps.
use pinta_scheduler.Prelude.{
  String, ◌≡◌, subst, inl, inr, Option, none, some, [], ◌∷◌, arith, str_eq, str_eq_iff, str_eq_refl,
  if◌then◌else◌, Bool-cases,
}
use pinta_scheduler.Dict.{Dict, lookup}
use pinta_scheduler.Dict.Laws.{lookup-insert}
use pinta_scheduler.Info.Resource.Arith.{HasMap, clone-HasMap}
use pinta_scheduler.Info.Resource.Order.{
  IsBelow, min_resource-HasMap, min_resource-IsBelow_right, min_resource-IsBelow_of_left,
}
use pinta_scheduler.Info.Node.{NodeInfo}
use pinta_scheduler.Info.NodeType.{NodeTypeInfo, new_node_type_info, add_node}
use pinta_scheduler.Info.NodeType.Laws.{clone-IsBelow}
use pinta_scheduler.Controller.JobCache.Nodes.{put_node, count_node, count_nodes}

module _ {Q : Type 0} where
  abbrev pub CoveredBy : Option (NodeTypeInfo Q) → NodeInfo Q → Type 0
  CoveredBy none ni = ⊥
  CoveredBy (some nti) ni = IsBelow nti.resource ni.allocatable

  -- The type of the node is in the map, and its resource is at most what the node can allocate.
  abbrev pub Covers : Dict (NodeTypeInfo Q) → NodeInfo Q → Type 0
  Covers types ni = CoveredBy (lookup ni.type types) ni

  abbrev pub HasMapAt : Option (NodeTypeInfo Q) → Type 0
  HasMapAt none = Unit
  HasMapAt (some nti) = HasMap nti.resource

  put_node-keeps :
      (ni n : NodeInfo Q) (o : Option (NodeTypeInfo Q))
      → CoveredBy o n
      → CoveredBy (some (put_node ni o)) n
  unfolding add_node
  put_node-keeps ni n none h = absurd h
  put_node-keeps ni n (some nti) h =
      min_resource-IsBelow_of_left nti.resource ni.allocatable n.allocatable h

  put_node-covers :
      (ni : NodeInfo Q) (o : Option (NodeTypeInfo Q))
      → HasMap ni.allocatable
      → CoveredBy (some (put_node ni o)) ni
  unfolding add_node new_node_type_info
  put_node-covers ni none h = clone-IsBelow ni.allocatable h
  put_node-covers ni (some nti) h = min_resource-IsBelow_right nti.resource ni.allocatable

  put_node-HasMapAt :
      (ni : NodeInfo Q) (o : Option (NodeTypeInfo Q))
      → HasMap ni.allocatable
      → HasMapAt o
      → HasMapAt (some (put_node ni o))
  unfolding add_node new_node_type_info
  put_node-HasMapAt ni none h m = clone-HasMap ni.allocatable h
  put_node-HasMapAt ni (some nti) h m = min_resource-HasMap nti.resource ni.allocatable m

  -- A lookup in the map after a node is counted.
  pub lookup-count_node :
      (ni : NodeInfo Q) (types : Dict (NodeTypeInfo Q)) (t : String)
      → lookup t (count_node ni types)
        ≡ (if str_eq ni.type t then some (put_node ni (lookup t types)) else lookup t types)
  unfolding count_node
  lookup-count_node ni types t = ground (
    arith,
    str_eq_iff ni.type t,
    lookup-insert t ni.type (put_node ni (lookup ni.type types)) types,
  )

  pub count_node-keeps :
      (ni n : NodeInfo Q) (types : Dict (NodeTypeInfo Q))
      → Covers types n
      → Covers (count_node ni types) n
  count_node-keeps ni n types h =
      rw (lookup-count_node ni types n.type) (elim (Bool-cases (str_eq ni.type n.type)) [
        | inl same ↦ rw same (put_node-keeps ni n (lookup n.type types) h)
        | inr other ↦ rw other h
      ])

  pub count_node-Covers :
      (ni : NodeInfo Q) (types : Dict (NodeTypeInfo Q))
      → HasMap ni.allocatable
      → Covers (count_node ni types) ni
  count_node-Covers ni types h =
      rw (lookup-count_node ni types ni.type, str_eq_refl ni.type)
        (put_node-covers ni (lookup ni.type types) h)

  pub count_node-HasMapAt :
      (ni : NodeInfo Q) (types : Dict (NodeTypeInfo Q)) (t : String)
      → HasMap ni.allocatable
      → HasMapAt (lookup t types)
      → HasMapAt (lookup t (count_node ni types))
  count_node-HasMapAt ni types t h m =
      rw (lookup-count_node ni types t) (elim (Bool-cases (str_eq ni.type t)) [
        | inl same ↦ rw same (put_node-HasMapAt ni (lookup t types) h m)
        | inr other ↦ rw other m
      ])

  count_nodes-keeps :
      (nodes : Dict (NodeInfo Q)) (n : NodeInfo Q) (types : Dict (NodeTypeInfo Q))
      → Covers types n
      → Covers (count_nodes nodes types) n
  unfolding count_nodes
  count_nodes-keeps [] n types h = h
  count_nodes-keeps ((name, ni) ∷ nodes) n types h =
      count_nodes-keeps nodes n (count_node ni types) (count_node-keeps ni n types h)

  abbrev pub AllocatableMaps : Dict (NodeInfo Q) → Type 0
  AllocatableMaps [] = Unit
  AllocatableMaps ((name, ni) ∷ nodes) = HasMap ni.allocatable × AllocatableMaps nodes

  pub count_nodes-Covers :
      (nodes : Dict (NodeInfo Q)) (types : Dict (NodeTypeInfo Q)) (name : String) (ni : NodeInfo Q)
      → AllocatableMaps nodes
      → lookup name nodes ≡ some ni
      → Covers (count_nodes nodes types) ni
  unfolding lookup count_nodes
  count_nodes-Covers [] types name ni m e = cc
  count_nodes-Covers ((k, n) ∷ nodes) types name ni m e = elim (Bool-cases (str_eq k name)) [
    | inl same ↦
        let found : n ≡ ni = ground (arith, same, e) in
        subst (λ x. Covers (count_nodes nodes (count_node n types)) x) found
          (count_nodes-keeps nodes n (count_node n types) (count_node-Covers n types m.0))
    | inr other ↦
        count_nodes-Covers nodes (count_node n types) name ni m.1 (ground (arith, other, e))
  ]

  pub count_nodes-HasMapAt :
      (nodes : Dict (NodeInfo Q)) (types : Dict (NodeTypeInfo Q)) (t : String)
      → AllocatableMaps nodes
      → HasMapAt (lookup t types)
      → HasMapAt (lookup t (count_nodes nodes types))
  unfolding count_nodes
  count_nodes-HasMapAt [] types t m h = h
  count_nodes-HasMapAt ((k, n) ∷ nodes) types t m h =
      count_nodes-HasMapAt nodes (count_node n types) t m.1 (count_node-HasMapAt n types t m.0 h)
