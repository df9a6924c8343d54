-- ===== src/Samples/Scheduling.antt =====
-- The theorems on the scheduler, at two jobs that share three nodes.
use pinta_scheduler.Scheduler.Cache.Notices.{
  Notice, job_added, node_added, job_deleted, node_deleted, a_job, a_node, tombstone, foreign,
  notify_all, job_events, node_events, notify_all_lem,
}
use pinta_scheduler.Prelude.{ℕ, ◌≡◌, refl, false, some, List, [], ◌∷◌, String, arith, str_eq_iff}
use pinta_scheduler.Prelude.Int.{ℤ, pos}
use pinta_scheduler.Dict.{Dict, lookup, insert}
use pinta_scheduler.Api.{idle, last_status}
use pinta_scheduler.Samples.{Amount, amounts, worker_node, lost_node, job_in}
use pinta_scheduler.Info.Job.{JobInfo, new_job_info}
use pinta_scheduler.Scheduler.Equi.{execute, sum_replicas}
use pinta_scheduler.Scheduler.Equi.Pass.{IsOrder, IsFair, SameJobs}
use pinta_scheduler.Scheduler.Equi.Shares.{execute-IsFair}
use pinta_scheduler.Scheduler.Cache.{snapshot, is_skipped, add_job}
use pinta_scheduler.Scheduler.Cache.Nodes
use pinta_scheduler.Prelude.{true}
use pinta_scheduler.Controller.Result.{is_ok}
use pinta_scheduler.Scheduler.Cache.Nodes.{change, handle_nodes, snapshot-ok}
use pinta_scheduler.Scheduler.Cache.Laws.{put, handle_jobs, handle_job, handle_jobs-active}
use pinta_scheduler.Scheduler.Session.{update_job, with_numbers}

-- The custom fields of a policy that has none.
abbrev pub Info : Type 0
Info = JobInfo Amount (Unit {0})

abbrev pub info_with : String → ℤ → Info
info_with uid n = record (new_job_info uid (job_in idle (pos 0))) { num_replicas = n }

abbrev pub second : Dict Info
second = ("b", info_with "b" (pos 0)) ∷ []

abbrev pub both : ℕ → List String
both i = "a" ∷ "b" ∷ []

pub both-IsOrder : (i : ℕ) → IsOrder (("a", info_with "a" (pos 5)) ∷ second) (both i)
unfolding lookup
both-IsOrder i = record {
  unique = (refl, (refl, tt));
  same_keys = λ k. ground (arith, str_eq_iff "a" k, str_eq_iff "b" k);
}

execute-IsFair_example :
    (jobs : Dict Info) × (a : ℤ) × (execute 3 both (("a", info_with "a" (pos 5)) ∷ second) 3
      ≡ some jobs)
    × (sum_replicas jobs ≡ pos 3)
    × IsFair jobs a
    × SameJobs (("a", info_with "a" (pos 5)) ∷ second) jobs
execute-IsFair_example =
    execute-IsFair 3 3 both "a" (info_with "a" (pos 5)) second both-IsOrder (omega arith)
      (omega arith) (omega arith)

train_found :
    lookup "ml/train"
      (handle_jobs {F = Unit {0}}
        (put (job_in idle (pos 0)) ∷ [])
        (record { nodes = []; jobs = [] })).jobs
    ≡ some (new_job_info "ml/train" (job_in idle (pos 0)))
unfolding handle_jobs handle_job add_job lookup insert pinta_scheduler.Controller.JobCache.key_fn
train_found = refl

handle_jobs-active_example :
    ((new_job_info {F = Unit {0}} "ml/train" (job_in idle (pos 0))).uid ≡ "ml/train")
    × (is_skipped
          (last_status
            (new_job_info {F = Unit {0}} "ml/train" (job_in idle (pos 0))).job.status).state
        ≡ false)
handle_jobs-active_example =
    handle_jobs-active (put (job_in idle (pos 0)) ∷ []) "ml/train"
      (new_job_info "ml/train" (job_in idle (pos 0))) train_found

abbrev placed : Info
placed = new_job_info "a" (job_in idle (pos 0))

abbrev moved : Info
moved = record placed { num_replicas = pos 2 }

train_sent : update_job 8 moved ≡ some ("ml", with_numbers 8 moved)
unfolding update_job new_job_info
train_sent = refl

snapshot-ok_example :
    is_ok (
      snapshot amounts
        (λ s. some tt)
        (handle_nodes amounts {F = Unit {0}}
          (Nodes.put worker_node ∷ change lost_node ∷ [])
          (record { nodes = []; jobs = second })))
    ≡ true
snapshot-ok_example =
    snapshot-ok amounts (Nodes.put worker_node ∷ change lost_node ∷ []) (λ s. some tt) second

-- The notices of the two informers, one after the other, with a tombstone and an object of another type.
abbrev notices : List (Notice Amount)
notices =
    job_added (a_job (job_in idle (pos 0)))
    ∷ node_added (a_node worker_node)
    ∷ job_deleted (tombstone (a_job (job_in idle (pos 0))))
    ∷ node_deleted foreign
    ∷ []

notify_all_lem_example :
    notify_all {F = Unit {0}} amounts notices (record { nodes = []; jobs = [] })
    ≡ handle_nodes amounts
        (node_events notices)
        (handle_jobs (job_events notices) (record { nodes = []; jobs = [] }))
notify_all_lem_example = notify_all_lem amounts notices (record { nodes = []; jobs = [] })
