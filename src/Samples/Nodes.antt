-- ===== src/Samples/Nodes.antt =====
-- The theorems on nodes and node types, at a worker node that is ready and the same node when lost.
use pinta_scheduler.Prelude.{◌%◌}
use pinta_scheduler.Info.Device.{Pod, GpuDevice, gpu_memory, get_used_gpu_memory}
use pinta_scheduler.Info.Device.Laws.{IsWord, limits_of_pods, live, get_used_gpu_memory_lem}
use pinta_scheduler.Prelude.{
  ◌≡◌, refl, ◌↔◌, inl, inr, Bool, true, false, Option, none, some, List, [], ◌∷◌, ◌++◌, All, String,
  arith, length, if◌then◌else◌, ltb,
}
use pinta_scheduler.Prelude.Int.{ℤ, pos}
use pinta_scheduler.Dict.{Dict, lookup, all_entries, insert, range}
use pinta_scheduler.Samples.{
  amounts, gpu, small, large, units, milli, Amount, worker_node, lost_node,
}
use pinta_scheduler.Info.Resource.{
  Resource, to_resource_list, new_resource, count_list, count_quantity,
}
use pinta_scheduler.Info.Resource.Compare.{less_equal_strict}
use pinta_scheduler.Info.Device.{new_gpu_device}
use pinta_scheduler.Info.Node.{NodeInfo, new_node_info, set_node, conditions_ready}
use pinta_scheduler.Info.Node.Laws.{set_node-gpu_devices, gpu_share, gpu_count}
use pinta_scheduler.Info.NodeType.{NodeTypeInfo, new_node_type_info, add_nodes}
use pinta_scheduler.Info.NodeType.Laws.{node_type-largest}
use pinta_scheduler.Controller.Result.{ok}
use pinta_scheduler.Controller.JobCache.{JobCache, empty_cache}
use pinta_scheduler.Controller.JobCache.Nodes.{
  translate_resources, add_or_update_node, delete_node, count_node,
}
use pinta_scheduler.Controller.JobCache.Nodes.Recount.{add_or_update_node-counts_again}
use pinta_scheduler.Controller.JobCache.Nodes.Requests.{
  put, handle_nodes, handle_node, translate_resources-fits,
}

abbrev worker_info : NodeInfo Amount
worker_info = new_node_info amounts (some worker_node)

abbrev lost_info : NodeInfo Amount
lost_info = new_node_info amounts (some lost_node)

lost_is_not_ready : conditions_ready lost_node.conditions ≡ false
unfolding conditions_ready
lost_is_not_ready = refl

set_node-gpu_devices_example : (set_node amounts worker_node lost_info).gpu_devices 2 ≡ (
    if ltb 2 (gpu_count amounts worker_node)
    then some (new_gpu_device 2 (gpu_share amounts worker_node))
    else lost_info.gpu_devices 2)
set_node-gpu_devices_example = set_node-gpu_devices amounts worker_node lost_info 2

abbrev small_info : NodeInfo Amount
small_info = record worker_info { allocatable = small }

abbrev large_info : NodeInfo Amount
large_info = record worker_info { allocatable = large }

small_below_each :
    All (λ n. less_equal_strict small n.allocatable ≡ true) (large_info ∷ small_info ∷ [])
unfolding less_equal_strict all_entries lookup
small_below_each = (refl, (refl, tt))

node_type-largest_example :
    let nti = add_nodes (new_node_type_info large_info) (small_info ∷ []) in
    (nti.nodes ≡ large_info ∷ small_info ∷ [])
    × All (λ n. less_equal_strict nti.resource n.allocatable ≡ true) nti.nodes
    × (less_equal_strict small nti.resource ≡ true)
unfolding lookup
node_type-largest_example =
    node_type-largest large_info (small_info ∷ []) small (refl, tt) (refl, tt) small_below_each

abbrev one_node : JobCache Amount
one_node = handle_nodes amounts (put worker_node ∷ []) empty_cache

worker_found : lookup "worker" one_node.nodes ≡ some worker_info
unfolding handle_nodes handle_node add_or_update_node delete_node count_node insert lookup
worker_found = refl

-- What a request for one v100 node is translated to.
abbrev v100_list : Dict Amount
v100_list = ("cpu", milli (pos 8000)) ∷ ("memory", units (pos 4096)) ∷ (gpu, milli (pos 2000)) ∷ []

node_asked : lookup "node" (("node", units (pos 1)) ∷ []) ≡ some (units (pos 1))
unfolding lookup
node_asked = refl

v100_translated :
    translate_resources amounts (("node", units (pos 1)) ∷ []) worker_info.type one_node
    ≡ ok v100_list
unfolding translate_resources handle_nodes handle_node add_or_update_node delete_node count_node
    insert lookup new_node_info to_resource_list conditions_ready range new_node_type_info
    pinta_scheduler.Info.Resource.clone new_resource count_list count_quantity
    pinta_scheduler.Info.Resource.add_scalar pinta_scheduler.Prelude.Int.◌+ℤ◌
v100_translated = refl

translate_resources-fits_example :
    (r : Resource) × (v100_list ≡ to_resource_list amounts r)
    × (less_equal_strict r worker_info.allocatable ≡ true)
translate_resources-fits_example =
    translate_resources-fits amounts (put worker_node ∷ []) (("node", units (pos 1)) ∷ []) v100_list
      (units (pos 1)) "worker" worker_info node_asked refl worker_found v100_translated

add_or_update_node-counts_again_example :
    (listed : List (NodeInfo Amount)) × (nti : NodeTypeInfo Amount) × (lookup worker_info.type
        (add_or_update_node amounts worker_node
          (add_or_update_node amounts worker_node one_node)).node_types
      ≡ some nti)
    × (nti.nodes ≡ listed ++ worker_info ∷ worker_info ∷ [])
add_or_update_node-counts_again_example =
    add_or_update_node-counts_again amounts worker_node one_node

abbrev gpu_pod : String → Pod Amount
gpu_pod phase = record {
  phase = phase;
  spec = record {
    node_selector = none;
    containers =
        record { limits = (gpu_memory, units (pos 4000)) ∷ []; env = [] }
        ∷ record { limits = []; env = [] }
        ∷ [];
  };
}

abbrev shared_gpu : GpuDevice Amount
shared_gpu = record {
  id = 0;
  pod_map = ("a", gpu_pod "Running") ∷ ("b", gpu_pod "Failed") ∷ ("c", gpu_pod "Pending") ∷ [];
  memory = 16000;
}

get_used_gpu_memory_lem_example :
    IsWord
      (limits_of_pods amounts (live amounts shared_gpu.pod_map))
      (get_used_gpu_memory amounts shared_gpu)
get_used_gpu_memory_lem_example = get_used_gpu_memory_lem amounts shared_gpu
