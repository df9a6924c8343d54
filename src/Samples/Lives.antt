-- ===== src/Samples/Lives.antt =====
-- The history of a job that a worker marks as Idle and a session then gives two replicas.
use pinta_scheduler.Prelude.{refl, inl, none, some, [], ◌∷◌}
use pinta_scheduler.Prelude.Int.{pos}
use pinta_scheduler.Dict.{lookup, insert}
use pinta_scheduler.Api.{PintaJob, PintaJobState, idle}
use pinta_scheduler.Info.Job.{JobInfo as Decided, new_job_info}
use pinta_scheduler.Samples.{Amount, amounts, job_in}
use pinta_scheduler.Samples.Jobs.{server}
use pinta_scheduler.Controller.JobCache.{JobInfo, empty_cache, key_fn, update}
use pinta_scheduler.Controller.Updater.{
  World, with_state, update_status, get_last_pinta_job_status, update_pinta_job_status_state,
}
use pinta_scheduler.Controller.State.{execute, execute_state, state_of, execute_empty}
use pinta_scheduler.Scheduler.Cache.{get_job_id, add_job}
use pinta_scheduler.Scheduler.Cache.Laws.{put, handle_jobs, handle_job}
use pinta_scheduler.Scheduler.Session.{update_job, with_numbers}
use pinta_scheduler.Lifecycle.{Step, by_worker, by_session, at_first, then_by, IsLife}
use pinta_scheduler.Lifecycle.Laws.{Reaches-IsLife}

abbrev new_job : PintaJob Amount
new_job = record (job_in idle (pos 0)) { status = [] }

abbrev info : JobInfo Amount
info = record { namespace = "ml"; name = "train"; job = some new_job; vc_job = none }

abbrev idle_job : PintaJob Amount
idle_job = with_state 9 PintaJobState.idle new_job

abbrev first_world : World Amount
first_world = record { cache = empty_cache; calls = [] }

marked : Step amounts (Unit {0}) new_job idle_job
unfolding execute execute_state state_of execute_empty get_last_pinta_job_status
    update_pinta_job_status_state update
marked =
    by_worker server 9 info first_world (update_status "ml" idle_job ∷ []) "ml" new_job idle_job
      refl refl (inl refl)

abbrev cached : Decided Amount (Unit {0})
cached = new_job_info (get_job_id idle_job) idle_job

abbrev decided : Decided Amount (Unit {0})
decided = record cached { num_replicas = pos 2 }

abbrev sent_job : PintaJob Amount
sent_job = with_numbers 10 decided

given : Step amounts (Unit {0}) idle_job sent_job
unfolding handle_jobs handle_job add_job lookup new_job_info insert key_fn update_job
given =
    by_session (put idle_job ∷ []) (get_job_id idle_job) cached decided 10 "ml" idle_job sent_job
      refl refl refl refl

Reaches-IsLife_example : IsLife sent_job.status
Reaches-IsLife_example =
    Reaches-IsLife amounts (Unit {0}) new_job sent_job refl
      (then_by idle_job sent_job (then_by new_job idle_job at_first marked) given)
