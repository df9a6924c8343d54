-- ===== src/Scheduler/Cache.antt =====
-- pkg/scheduler/cache: what the scheduler knows of nodes and jobs, by informer events, and the
-- snapshot that a session works on. Each handler holds the cache's mutex from start to end, and the
-- goroutines of a snapshot write to different keys.
pub mod Laws
pub mod Nodes
pub mod Notices
use pinta_scheduler.Prelude.{
  String, Option, none, some, List, [], ◌∷◌, Bool, true, false, ◌&&◌, not, is_some, str_eq,
  if◌then◌else◌,
}
use pinta_scheduler.Dict.{Dict, lookup, insert, erase}
use pinta_scheduler.Api.{PintaJob, PintaJobState, OwnerReference, empty, completed, last_status}
use pinta_scheduler.Info.Resource.{QuantityApi}
use pinta_scheduler.Info.Node.{Node, NodeInfo, new_node_info, set_node, is_ready, clone}
use pinta_scheduler.Info.Job.{JobInfo, new_job_info, parse_custom_fields, clone as clone_job}
use pinta_scheduler.Controller.Result.{Result, ok, panic, ◌>>=◌}
use pinta_scheduler.Controller.JobCache.{key_fn}

pub record PintaCache (Q F : Type 0) : Type 0 where
  pub nodes : Dict (NodeInfo Q)
  pub jobs : Dict (JobInfo Q F)

-- info.ClusterInfo
pub record ClusterInfo (Q F : Type 0) : Type 0 where
  pub nodes : Dict (NodeInfo Q)
  pub jobs : Dict (JobInfo Q F)

abbrev pub is_skipped : PintaJobState → Bool
is_skipped empty = true
is_skipped completed = true
is_skipped _ = false

-- The UID of the owner that is a controller.
unfoldable pub get_controller : List OwnerReference → String
get_controller [] = ""
get_controller (r ∷ rs) = let rest = get_controller rs in if r.controller then r.uid else rest

abbrev pub get_job_id : {Q : Type 0} → PintaJob Q → String
get_job_id job = key_fn job.meta.namespace job.meta.name

module _ {Q : Type 0} (q : QuantityApi Q) where
  unfoldable pub put_info : Node Q → Option (NodeInfo Q) → NodeInfo Q
  put_info node none = new_node_info q (some node)
  put_info node (some ni) = set_node q node ni

  -- No taint. The nil node of an info would be a panic.
  unfoldable pub has_no_taint : Option (Node Q) → Result Bool
  has_no_taint none = panic
  has_no_taint (some node) = ok (elim node.taints [ [] ↦ true | t ∷ ts ↦ false ])

  -- A node that is ready and has no taint: a taint marks the master.
  unfoldable pub is_usable : NodeInfo Q → Result Bool
  unfolding has_no_taint
  is_usable ni = if is_ready q ni then has_no_taint ni.node else ok false

  unfoldable pub snapshot_nodes : Dict (NodeInfo Q) → Dict (NodeInfo Q) → Result (Dict (NodeInfo Q))
  snapshot_nodes [] out = ok out
  snapshot_nodes ((name, ni) ∷ nodes) out = is_usable ni >>= λ usable.
      snapshot_nodes nodes (if usable then insert ni.name (clone q ni) out else out)

-- A new job without a controller gets the owners of the old one.
abbrev pub with_owners : {Q : Type 0} → PintaJob Q → PintaJob Q → PintaJob Q
with_owners old new =
    if str_eq (get_controller new.meta.owner_references) ""
    then record new {
      meta = let meta = new.meta in record meta { owner_references = old.meta.owner_references };
    }
    else new

module _ {Q F : Type 0} where
  unfoldable pub add_job : PintaJob Q → PintaCache Q F → PintaCache Q F
  add_job job pc =
      if is_skipped (last_status job.status).state
      then pc
      else record pc { jobs = insert (get_job_id job) (new_job_info (get_job_id job) job) pc.jobs }

  unfoldable pub delete_job : PintaJob Q → PintaCache Q F → PintaCache Q F
  delete_job job pc = record pc { jobs = erase (get_job_id job) pc.jobs }

  unfoldable pub update_job : PintaJob Q → PintaJob Q → PintaCache Q F → PintaCache Q F
  unfolding add_job delete_job
  update_job old new pc = add_job (with_owners old new) (delete_job old pc)

  unfoldable pub snapshot_job : (String → Option F) → JobInfo Q F → JobInfo Q F
  snapshot_job unmarshal ji = (parse_custom_fields unmarshal (clone_job ji)).0

  unfoldable pub snapshot_jobs :
      (String → Option F) → Dict (JobInfo Q F) → Dict (JobInfo Q F) → Dict (JobInfo Q F)
  unfolding snapshot_job
  snapshot_jobs unmarshal [] out = out
  snapshot_jobs unmarshal ((uid, ji) ∷ jobs) out =
      snapshot_jobs unmarshal jobs (insert ji.uid (snapshot_job unmarshal ji) out)

  module _ (q : QuantityApi Q) where
    unfoldable pub add_node : Node Q → PintaCache Q F → PintaCache Q F
    unfolding put_info
    add_node node pc = record pc {
      nodes = insert node.name (put_info q node (lookup node.name pc.nodes)) pc.nodes;
    }

    -- Whether the node was there, and the cache.
    unfoldable pub update_node : Node Q → PintaCache Q F → Bool × PintaCache Q F
    update_node node pc = elim (lookup node.name pc.nodes) [
      | none ↦ (false, pc)
      | some ni ↦ (true, record pc { nodes = insert node.name (set_node q node ni) pc.nodes })
    ]

    unfoldable pub delete_node : Node Q → PintaCache Q F → Bool × PintaCache Q F
    delete_node node pc = elim (lookup node.name pc.nodes) [
      | none ↦ (false, pc)
      | some ni ↦ (true, record pc { nodes = erase node.name pc.nodes })
    ]

    unfoldable pub snapshot : (String → Option F) → PintaCache Q F → Result (ClusterInfo Q F)
    unfolding snapshot_nodes
    snapshot unmarshal pc = snapshot_nodes q pc.nodes [] >>= λ nodes.
        ok (record { nodes = nodes; jobs = snapshot_jobs unmarshal pc.jobs [] })
