-- ===== src/Controller/State.antt =====
-- pkg/controller/pintajob/state: what a worker does with a PintaJob by the state of its last status.
pub mod Laws
use pinta_scheduler.Prelude.{ℕ, String, Option, none, some, Bool, true, false, ◌&&◌, if◌then◌else◌}
use pinta_scheduler.Prelude.Int.{pos, eqb_ℤ}
use pinta_scheduler.Api.{
  PintaJobState, PintaJobStatus, JobPhase, empty, idle, scheduled, running, preempted, completed,
  failed, other,
}
use pinta_scheduler.Info.Resource.{QuantityApi}
use pinta_scheduler.Controller.Result.{Result, ok, err, panic, Exec, continue}
use pinta_scheduler.Controller.JobCache.{JobInfo}
use pinta_scheduler.Controller.Updater.{
  ClusterApi, World, get_vc_job_status, get_last_pinta_job_status, update_pinta_job_status_state,
  reconcile,
}

-- The objects that `NewState` makes.
pub data State : Type 0 where
  empty_state idle_state scheduled_state running_state preempted_state finished_state : State

unfoldable pub state_name : State → String
state_name empty_state = "empty"
state_name idle_state = "idle"
state_name scheduled_state = "scheduled"
state_name running_state = "running"
state_name preempted_state = "preempted"
state_name finished_state = "finished"

unfoldable pub state_of : PintaJobState → State
state_of idle = idle_state
state_of scheduled = scheduled_state
state_of running = running_state
state_of preempted = preempted_state
state_of completed = finished_state
state_of failed = finished_state
state_of empty = empty_state
state_of (other s) = empty_state

-- No masters and no replicas: the scheduler gives the job no node.
abbrev pub is_unscheduled : PintaJobStatus → Bool
is_unscheduled status = eqb_ℤ status.num_masters (pos 0) && eqb_ℤ status.num_replicas (pos 0)

abbrev pub is_completed : JobPhase → Bool
is_completed JobPhase.completed = true
is_completed _ = false

abbrev pub is_running : JobPhase → Bool
is_running JobPhase.running = true
is_running _ = false

module _ {Q : Type 0} (q : QuantityApi Q) (api : ClusterApi Q) (now : ℕ) (info : JobInfo Q) where
  abbrev Step : Type 0
  Step = Exec (World Q) (Unit {0})

  abbrev move_to : PintaJobState → Step
  move_to state = update_pinta_job_status_state q api now info state

  abbrev reconcile_then : Step → Step
  reconcile_then rest w = let (r, w') = reconcile q api now info w in continue r (λ _. rest) w'

  unfoldable pub execute_empty : Step
  execute_empty = move_to idle

  unfoldable pub execute_idle : Step
  execute_idle w =
      continue (get_last_pinta_job_status info)
        (λ status w'.
          if is_unscheduled status then (ok tt, w') else reconcile_then (move_to scheduled) w')
        w

  unfoldable pub execute_scheduled : Step
  execute_scheduled w =
      continue (get_vc_job_status info)
        (λ phase w'.
          if is_completed phase
          then move_to completed w'
          else reconcile_then
              (λ w''. if is_running phase then move_to running w'' else (ok tt, w'')) w')
        w

  unfoldable pub execute_running : Step
  execute_running w =
      continue (get_vc_job_status info)
        (λ phase w'.
          if is_completed phase
          then move_to completed w'
          else reconcile_then
              (λ w''.
                continue (get_last_pinta_job_status info)
                  (λ status w3. if is_unscheduled status then move_to running w3 else (ok tt, w3))
                  w'')
              w')
        w

  unfoldable pub execute_preempted : Step
  execute_preempted w =
      continue (get_vc_job_status info)
        (λ phase w'.
          if is_completed phase
          then move_to completed w'
          else continue (get_last_pinta_job_status info)
              (λ status w''.
                if is_unscheduled status
                then (ok tt, w'')
                else reconcile_then (move_to running) w'')
              w')
        w

  unfoldable pub execute_state : State → Step
  unfolding execute_empty execute_idle execute_scheduled execute_running execute_preempted
  execute_state empty_state = execute_empty
  execute_state idle_state = execute_idle
  execute_state scheduled_state = execute_scheduled
  execute_state running_state = execute_running
  execute_state preempted_state = execute_preempted
  execute_state finished_state = λ w. (ok tt, w)

  -- `NewState(updater).Execute()`
  unfoldable pub execute : Step
  unfolding execute_state state_of
  execute w =
      continue (get_last_pinta_job_status info) (λ status. execute_state (state_of status.state)) w
