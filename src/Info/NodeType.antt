-- ===== src/Info/NodeType.antt =====
-- pkg/apis/info/node_type_info.go: the nodes of one type, and what each of them can give.
pub mod Laws
use pinta_scheduler.Prelude.{List, [], ◌∷◌, ◌++◌}
use pinta_scheduler.Info.Resource.{Resource, clone, min_resource}
use pinta_scheduler.Info.Node.{NodeInfo}

pub record NodeTypeInfo (Q : Type 0) : Type 0 where
  pub resource : Resource
  pub nodes : List (NodeInfo Q)

module _ {Q : Type 0} where
  unfoldable pub new_node_type_info : NodeInfo Q → NodeTypeInfo Q
  new_node_type_info ni = record { resource = clone ni.allocatable; nodes = ni ∷ [] }

  -- Both resources are there, so `SetMinResource` takes the minimum.
  unfoldable pub add_node : NodeInfo Q → NodeTypeInfo Q → NodeTypeInfo Q
  add_node ni nti = record {
    resource = min_resource nti.resource ni.allocatable;
    nodes = nti.nodes ++ ni ∷ [];
  }

  -- The type that a first node and then the others build, as the callers do.
  unfoldable pub add_nodes : NodeTypeInfo Q → List (NodeInfo Q) → NodeTypeInfo Q
  add_nodes nti [] = nti
  add_nodes nti (ni ∷ nis) = add_nodes (add_node ni nti) nis
