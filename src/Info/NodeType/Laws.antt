-- ===== src/Info/NodeType/Laws.antt =====
-- The resource of a node type is the greatest lower bound of what its nodes can give.
use pinta_scheduler.Prelude.{◌≡◌, refl, sym, ◌∙◌, true, List, [], ◌∷◌, ◌++◌, arith, All}
use mathlib.Core.List.{append-nil, append_assoc}
use pinta_scheduler.Info.Resource.{Resource, clone, min_resource}
use pinta_scheduler.Info.Resource.Compare.{less_equal_strict}
use pinta_scheduler.Info.Resource.Arith.{HasMap, clone-HasMap, lookup-clone}
use pinta_scheduler.Info.Resource.Order.{
  IsBelow, less_equal_strict_iff, min_resource-HasMap, min_resource-IsBelow_right,
  min_resource-IsBelow_greatest, min_resource-IsBelow_of_left,
}
use pinta_scheduler.Info.Node.{NodeInfo}
use pinta_scheduler.Info.NodeType.{NodeTypeInfo, new_node_type_info, add_node, add_nodes}

pub clone-IsBelow : (r : Resource) → HasMap r → IsBelow (clone r) r
unfolding clone
clone-IsBelow r h = record {
  cpu_le = omega arith;
  memory_le = omega arith;
  scalars_le = λ k v f. ground (arith, lookup-clone r k h);
}

IsBelow-clone : (x r : Resource) → HasMap r → IsBelow x r → IsBelow x (clone r)
unfolding clone
IsBelow-clone x r h b = record {
  cpu_le = b.cpu_le;
  memory_le = b.memory_le;
  scalars_le = λ k v f. ground (arith, lookup-clone r k h, b.scalars_le k v f);
}

module _ {ℓ κ} {A : Type ℓ} where
  All-snoc : (P : A → Type κ) (xs : List A) (x : A) → All P xs → P x → All P (xs ++ x ∷ [])
  All-snoc P [] x h p = (p, tt)
  All-snoc P (y ∷ xs) x h p = (h.0, All-snoc P xs x h.1 p)

  All-imp : (P P' : A → Type κ) (xs : List A) → ((x : A) → P x → P' x) → All P xs → All P' xs
  All-imp P P' [] f h = tt
  All-imp P P' (x ∷ xs) f h = (f x h.0, All-imp P P' xs f h.1)

module _ {Q : Type 0} where
  -- What holds of a node type between two additions.
  record IsCommon (nti : NodeTypeInfo Q) : Type 0 where
    has_map : HasMap nti.resource
    below_all : All (λ ni. IsBelow nti.resource ni.allocatable) nti.nodes

  new_node_type_info-IsCommon :
      (ni : NodeInfo Q) → HasMap ni.allocatable → IsCommon (new_node_type_info ni)
  unfolding new_node_type_info
  new_node_type_info-IsCommon ni h = record {
    has_map = clone-HasMap ni.allocatable h;
    below_all = (clone-IsBelow ni.allocatable h, tt);
  }

  add_node-IsCommon :
      (ni : NodeInfo Q) (nti : NodeTypeInfo Q) → IsCommon nti → IsCommon (add_node ni nti)
  unfolding add_node
  add_node-IsCommon ni nti h = record {
    has_map = min_resource-HasMap nti.resource ni.allocatable h.has_map;
    below_all =
        All-snoc (λ n. IsBelow (min_resource nti.resource ni.allocatable) n.allocatable) nti.nodes
          ni
          (All-imp (λ n. IsBelow nti.resource n.allocatable)
            (λ n. IsBelow (min_resource nti.resource ni.allocatable) n.allocatable) nti.nodes
            (λ n b. min_resource-IsBelow_of_left nti.resource ni.allocatable n.allocatable b)
            h.below_all)
          (min_resource-IsBelow_right nti.resource ni.allocatable);
  }

  add_nodes-IsCommon :
      (nti : NodeTypeInfo Q) (nis : List (NodeInfo Q)) → IsCommon nti → IsCommon (add_nodes nti nis)
  unfolding add_nodes
  add_nodes-IsCommon nti [] h = h
  add_nodes-IsCommon nti (ni ∷ nis) h =
      add_nodes-IsCommon (add_node ni nti) nis (add_node-IsCommon ni nti h)

  pub nodes-add_nodes :
      (nti : NodeTypeInfo Q) (nis : List (NodeInfo Q))
      → (add_nodes nti nis).nodes ≡ nti.nodes ++ nis
  unfolding add_nodes add_node
  nodes-add_nodes nti [] = sym (append-nil nti.nodes)
  nodes-add_nodes nti (ni ∷ nis) =
      nodes-add_nodes (add_node ni nti) nis ∙ append_assoc nti.nodes (ni ∷ []) nis

  add_nodes-greatest :
      (x : Resource) (nti : NodeTypeInfo Q) (nis : List (NodeInfo Q))
      → IsBelow x nti.resource
      → All (λ ni. IsBelow x ni.allocatable) nis
      → IsBelow x (add_nodes nti nis).resource
  unfolding add_nodes add_node
  add_nodes-greatest x nti [] a b = a
  add_nodes-greatest x nti (ni ∷ nis) a b =
      add_nodes-greatest x (add_node ni nti) nis
        (min_resource-IsBelow_greatest nti.resource ni.allocatable x a b.0) b.1

  -- A node type that is built from a first node, whose scalar map holds each name once, by adding
  -- others holds those nodes in that order, and its resource is at most what each of them can
  -- allocate.
  pub node_type-common :
      (ni : NodeInfo Q) (nis : List (NodeInfo Q))
      → HasMap ni.allocatable
      → let nti = add_nodes (new_node_type_info ni) nis in
        (nti.nodes ≡ ni ∷ nis)
        × All (λ n. less_equal_strict nti.resource n.allocatable ≡ true) nti.nodes
  node_type-common ni nis h =
      let nti = add_nodes (new_node_type_info ni) nis in
      let c = add_nodes-IsCommon (new_node_type_info ni) nis (new_node_type_info-IsCommon ni h) in
      (
        nodes-add_nodes (new_node_type_info ni) nis ∙ unfold new_node_type_info in refl,
        All-imp (λ n. IsBelow nti.resource n.allocatable)
            (λ n. less_equal_strict nti.resource n.allocatable ≡ true) nti.nodes
            (λ n b. (less_equal_strict_iff nti.resource n.allocatable c.has_map).1 b) c.below_all,
      )

  -- The node type that is built from nodes lists them in that order, its resource is at most what each
  -- of them can allocate, and a resource that is at most what each of them can allocate is at most it,
  -- where the scalar maps of that resource and of the first node hold each name once.
  pub node_type-largest :
      (ni : NodeInfo Q) (nis : List (NodeInfo Q)) (x : Resource)
      → HasMap x
      → HasMap ni.allocatable
      → All (λ n. less_equal_strict x n.allocatable ≡ true) (ni ∷ nis)
      → let nti = add_nodes (new_node_type_info ni) nis in
        (nti.nodes ≡ ni ∷ nis)
        × All (λ n. less_equal_strict nti.resource n.allocatable ≡ true) nti.nodes
        × (less_equal_strict x nti.resource ≡ true)
  node_type-largest ni nis x hx h a =
      let (listed, common) = node_type-common ni nis h in
      (
        listed,
        common,
        (less_equal_strict_iff x (add_nodes (new_node_type_info ni) nis).resource hx).1 (
            add_nodes-greatest x (new_node_type_info ni) nis
              (unfold new_node_type_info in
                IsBelow-clone x ni.allocatable h
                  ((less_equal_strict_iff x ni.allocatable hx).0 a.0))
              (All-imp (λ n. less_equal_strict x n.allocatable ≡ true)
                (λ n. IsBelow x n.allocatable) nis
                (λ n e. (less_equal_strict_iff x n.allocatable hx).0 e) a.1)),
      )
