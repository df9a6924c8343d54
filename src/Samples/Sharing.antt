-- ===== src/Samples/Sharing.antt =====
-- A round of the scheduler with the policy equi, at one job and one node.
use pinta_scheduler.Prelude.{
  ℕ, ◌≡◌, refl, Option, some, List, [], ◌∷◌, String, arith, map, str_eq_iff,
}
use pinta_scheduler.Prelude.Int.{ℤ, pos}
use pinta_scheduler.Dict.{Dict, lookup, insert}
use pinta_scheduler.Api.{PintaJob, idle}
use pinta_scheduler.Samples.{Amount, amounts, worker_node, job_in}
use pinta_scheduler.Info.Node.{NodeInfo, new_node_info, clone, is_ready, set_node, conditions_ready}
use pinta_scheduler.Info.Job.{new_job_info}
use pinta_scheduler.Controller.Result.{ok}
use pinta_scheduler.Controller.JobCache.{key_fn}
use pinta_scheduler.Scheduler.Outcome.{done}
use pinta_scheduler.Scheduler.Cache.{PintaCache, snapshot_nodes, is_usable, get_job_id, add_job}
use pinta_scheduler.Scheduler.Cache.Laws.{put, handle_jobs, handle_job}
use pinta_scheduler.Scheduler.Equi.{sum_replicas}
use pinta_scheduler.Scheduler.Equi.Pass.{IsOrder, IsFair}
use pinta_scheduler.Scheduler.Policies.{equi}
use pinta_scheduler.Scheduler.Loop.{run_policy}
use pinta_scheduler.Scheduler.Loop.Settle.{stored}
use pinta_scheduler.Scheduler.Loop.Equi.{run_policy-equi}

abbrev worker : NodeInfo Amount
worker = new_node_info amounts (some worker_node)

abbrev nodes : Dict (NodeInfo Amount)
nodes = ("worker", worker) ∷ []

abbrev usable : Dict (NodeInfo Amount)
usable = ("worker", clone amounts worker) ∷ []

shown : snapshot_nodes amounts nodes [] ≡ ok usable
unfolding snapshot_nodes is_usable insert new_node_info set_node is_ready clone conditions_ready
shown = refl

abbrev train : PintaJob Amount
train = job_in idle (pos 0)

abbrev cached : PintaCache Amount (Unit {0})
cached = handle_jobs (put train ∷ []) (record { nodes = nodes; jobs = [] })

abbrev only : ℕ → List String
only i = get_job_id train ∷ []

only-IsOrder : (i : ℕ) → IsOrder cached.jobs (only i)
unfolding handle_jobs handle_job add_job lookup new_job_info insert
only-IsOrder i = record {
  unique = (refl, tt);
  same_keys = λ k. ground (arith, str_eq_iff (get_job_id train) k);
}

abbrev no_fields : String → Option (Unit {0})
no_fields s = some tt

run_policy-equi_example :
    (rs : List (String × PintaJob Amount)) × (a : ℤ) × (run_policy amounts 8
        (equi no_fields 1 only)
        cached
      ≡ done rs tt)
    × (run_policy amounts 9 (equi no_fields 0 only) (handle_jobs (map stored rs) cached)
        ≡ done [] tt)
    × (sum_replicas (handle_jobs (map stored rs) cached).jobs ≡ pos 1)
    × IsFair (handle_jobs (map stored rs) cached).jobs a
unfolding handle_jobs handle_job add_job lookup new_job_info insert key_fn
run_policy-equi_example =
    run_policy-equi amounts no_fields 1 0 8 9 only only (put train ∷ []) nodes usable
      (get_job_id train) (new_job_info (get_job_id train) train) shown refl only-IsOrder
      (omega arith) (omega arith) (omega arith)
