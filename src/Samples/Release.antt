-- ===== src/Samples/Release.antt =====
-- The deferred end of a session in which the policy panics, at one job.
use mathlib.Core.Option
use pinta_scheduler.Prelude.{ℕ, ◌≡◌, refl, Option, none, List, [], ◌∷◌, String, map}
use pinta_scheduler.Prelude.Int.{pos}
use pinta_scheduler.Scheduler.Outcome.{panicked}
use pinta_scheduler.Scheduler.Session.{
  open_session, update_job, put_request, with_numbers, update_all,
}
use pinta_scheduler.Scheduler.Hell.Ratios.{
  measure, measure_one, report, report_one, put_report, pod_suffix, clear,
}
use pinta_scheduler.Prelude.{◌⊎◌}
use pinta_scheduler.Scheduler.Loop.Release.{last_numbers, run_policy-unparsed}
use pinta_scheduler.Scheduler.Policies.{hell}
use pinta_scheduler.Scheduler.Cache.Laws.{handle_job}
use pinta_scheduler.Scheduler.Cache.{snapshot, snapshot_jobs, snapshot_job, add_job, get_job_id}
use pinta_scheduler.Dict.{lookup, insert}
use pinta_scheduler.Api.{PintaJob, idle}
use pinta_scheduler.Samples.{Amount, amounts, job_in}
use pinta_scheduler.Samples.Scheduling.{both}
use pinta_scheduler.Info.Job.{parse_custom_fields, clone, new_job_info}
use pinta_scheduler.Scheduler.Cache.{PintaCache, snapshot_nodes}
use pinta_scheduler.Scheduler.Cache.Laws.{put, handle_jobs}
use pinta_scheduler.Scheduler.Hell.Ratios.{HellFields, Pods}
use pinta_scheduler.Scheduler.Hell.{execute}
use pinta_scheduler.Scheduler.Loop.{run_policy}
use pinta_scheduler.Scheduler.Loop.Settle.{stored}
use pinta_scheduler.Samples.Policies.{whole_numbers, no_nodes}
use pinta_scheduler.Controller.JobCache.{key_fn}
use pinta_scheduler.Controller.JobCache.Nodes

abbrev unread : String → Option (HellFields ℕ)
unread s = none

abbrev no_pods : Pods
no_pods name namespace = none

abbrev held : PintaCache Amount (HellFields ℕ)
held = handle_jobs (put (job_in idle (pos 2)) ∷ []) (record { nodes = []; jobs = [] })

-- The job that has 2 replicas loses them.
releases :
    run_policy amounts 8 (hell unread whole_numbers no_pods 4 both both) held
    ≡ panicked (
        (
          "ml",
          with_numbers {F = HellFields ℕ} 8
              (record (new_job_info (get_job_id (job_in idle (pos 2))) (job_in idle (pos 2))) {
                num_replicas = pos 0;
                custom_fields = none;
              }),
        )
        ∷ [])
unfolding run_policy snapshot snapshot_nodes snapshot_jobs snapshot_job parse_custom_fields clone
    execute report report_one put_report pod_suffix measure measure_one clear update_all put_request
    update_job open_session handle_jobs handle_job add_job lookup new_job_info insert key_fn
    pinta_scheduler.Controller.JobCache.Nodes.count_nodes
releases = refl

run_policy-unparsed_example :
    (rs : List (String × PintaJob Amount)) × (run_policy amounts 8
        (hell unread whole_numbers no_pods 4 both both)
        held
      ≡ panicked rs)
    × ((rs ≡ [])
        ⊎ ((k : String)
            → Option.map last_numbers (lookup k (handle_jobs (map stored rs) held).jobs)
              ≡ Option.map (λ ji. (pos 0, pos 0)) (lookup k held.jobs)))
unfolding handle_jobs handle_job add_job lookup new_job_info insert key_fn
run_policy-unparsed_example =
    run_policy-unparsed amounts unread whole_numbers no_pods 4 8 both both
      (put (job_in idle (pos 2)) ∷ []) [] [] (get_job_id (job_in idle (pos 2)))
      (new_job_info (get_job_id (job_in idle (pos 2))) (job_in idle (pos 2))) no_nodes refl refl
