-- ===== src/Controller/JobCache/Nodes.antt =====
-- pkg/controller/cache/node_event_handlers.go. Node types and node infos are not shared with the
-- queue, so they are values in their maps.
pub mod Laws
pub mod Requests
pub mod Recount
use pinta_scheduler.Prelude.{
  String, Option, none, some, List, [], ◌∷◌, Bool, true, false, ◌&&◌, not, if◌then◌else◌, length,
  ◌==◌,
}
use pinta_scheduler.Dict.{Dict, lookup, insert, erase}
use pinta_scheduler.Info.Resource.{QuantityApi, to_resource_list}
use pinta_scheduler.Info.Resource.Compare.{equal_strict}
use pinta_scheduler.Info.Node.{Node, NodeInfo, new_node_info}
use pinta_scheduler.Info.NodeType.{NodeTypeInfo, new_node_type_info, add_node}
use pinta_scheduler.Controller.Result.{
  Result, ok, err, node_is_not_one, node_with_others, no_node_type,
}
use pinta_scheduler.Controller.JobCache.{JobCache}

module _ {Q : Type 0} where
  abbrev pub put_node : NodeInfo Q → Option (NodeTypeInfo Q) → NodeTypeInfo Q
  put_node ni none = new_node_type_info ni
  put_node ni (some nti) = add_node ni nti

  -- Update the node type map by one node.
  unfoldable pub count_node : NodeInfo Q → Dict (NodeTypeInfo Q) → Dict (NodeTypeInfo Q)
  count_node ni types = insert ni.type (put_node ni (lookup ni.type types)) types

  unfoldable pub count_nodes : Dict (NodeInfo Q) → Dict (NodeTypeInfo Q) → Dict (NodeTypeInfo Q)
  unfolding count_node
  count_nodes [] types = types
  count_nodes ((name, ni) ∷ nodes) types = count_nodes nodes (count_node ni types)

  unfoldable pub delete_node : String → JobCache Q → JobCache Q
  unfolding count_nodes
  delete_node name jc =
      let nodes = erase name jc.nodes in
      record jc { nodes = nodes; node_types = count_nodes nodes [] }

  abbrev pub has_changed : NodeInfo Q → Option (NodeInfo Q) → Bool
  has_changed ni none = false
  has_changed ni (some old) = not (equal_strict old.allocatable ni.allocatable)

  module _ (q : QuantityApi Q) where
    -- `AddNode` and `UpdateNode`
    unfoldable pub add_or_update_node : Node Q → JobCache Q → JobCache Q
    unfolding delete_node count_node
    add_or_update_node node jc =
        let ni = new_node_info q (some node) in
        let jc' =
          if has_changed ni (lookup node.name jc.nodes) then delete_node node.name jc else jc in
        record jc' {
          nodes = insert node.name ni jc'.nodes;
          node_types = count_node ni jc'.node_types;
        }

    translate_type : String → Option (NodeTypeInfo Q) → Result (Dict Q)
    translate_type node_type none = err (no_node_type node_type)
    translate_type node_type (some nti) = ok (to_resource_list q nti.resource)

    translate_node : Option Q → Dict Q → String → JobCache Q → Result (Dict Q)
    unfolding translate_type
    translate_node none rl node_type jc = ok rl
    translate_node (some fraction) rl node_type jc =
        if q.is_zero fraction
        then ok rl
        else if not (q.equal fraction q.one)
        then err node_is_not_one
        else if not (length rl == 1)
        then err node_with_others
        else translate_type node_type (lookup node_type jc.node_types)

    unfoldable pub translate_resources : Dict Q → String → JobCache Q → Result (Dict Q)
    unfolding translate_node
    translate_resources rl node_type jc = translate_node (lookup "node" rl) rl node_type jc
