-- ===== src/Lifecycle.antt =====
-- The history of a PintaJob that the controller (pkg/controller/pintajob) and the scheduler
-- (pkg/scheduler) write together. The API server refuses a request that was made from an older version
-- of the job, and status is a subresource (deploy/helm/crds/crd.yaml), so that no other edit changes it.
pub mod Laws
use pinta_scheduler.Prelude.{
  ℕ, String, ◌≡◌, refl, sym, ap, subst, ◌∙◌, ◌⊎◌, inl, inr, All, false, some, List, [], ◌∷◌, ◌++◌,
  Bool-cases, arith,
}
use pinta_scheduler.Api.{
  PintaJob, PintaJobState, PintaJobStatus, idle, scheduled, running, completed, last_status,
}
use pinta_scheduler.Dict.{lookup}
use pinta_scheduler.Info.Resource.{QuantityApi}
use pinta_scheduler.Info.Job.{JobInfo as Decided}
use pinta_scheduler.Controller.JobCache.{JobInfo}
use pinta_scheduler.Controller.Updater.{
  Call, ClusterApi, World, create_vc_job, update_vc_job, update_status,
}
use pinta_scheduler.Controller.State.{
  State, empty_state, idle_state, scheduled_state, running_state, preempted_state, state_of,
  execute,
}
use pinta_scheduler.Controller.State.Laws.{
  Moves, IsAllowed, scheduled_started, running_started, preempted_started, enqueue, schedule,
  complete, start, lose_nodes, resume, creates, updates, moves, execute-IsAllowed,
}
use pinta_scheduler.Scheduler.Cache.{is_skipped}
use pinta_scheduler.Scheduler.Cache.Laws.{JobEvent, handle_jobs, handle_jobs-active}
use pinta_scheduler.Scheduler.Session.{update_job, with_numbers, is_unchanged}

-- The states that may come next in a history.
pub data Follows : State → PintaJobState → Type 0 where
  to_idle : Follows empty_state idle
  keep_idle : Follows idle_state idle
  to_scheduled : Follows idle_state scheduled
  keep_scheduled : Follows scheduled_state scheduled
  to_running : Follows scheduled_state running
  to_completed : Follows scheduled_state completed
  keep_running : Follows running_state running
  complete_running : Follows running_state completed

-- A history, the newest status first, in which each status may follow the one before it.
abbrev pub IsLife : List PintaJobStatus → Type 0
IsLife [] = Unit
IsLife (s ∷ ss) = Follows (state_of (last_status ss).state) s.state × IsLife ss

abbrev pub IsIn : {A : Type 0} → A → List A → Type 0
IsIn x [] = ⊥
IsIn x (y ∷ ys) = (x ≡ y) ⊎ IsIn x ys

module _ {Q : Type 0} (q : QuantityApi Q) (F : Type 0) where
  -- What the API server stores next: a status that a worker sends for a job info with the stored job, a
  -- status that a session sends for a job info of the scheduler's cache with the stored job, whatever
  -- the numbers of the policy, or an edit that leaves the status.
  pub data Step : PintaJob Q → PintaJob Q → Type 0 where
    by_worker :
        (api : ClusterApi Q) (now : ℕ) (info : JobInfo Q) (w : World Q) (l : List (Call Q))
        (namespace : String) (job job' : PintaJob Q)
        → info.job ≡ some job
        → (execute q api now info w).1.calls ≡ w.calls ++ l
        → IsIn (update_status namespace job') l
        → Step job job'
    by_session :
        (es : List (JobEvent Q)) (id : String) (cached ji : Decided Q F) (now : ℕ)
        (namespace : String) (job job' : PintaJob Q)
        → lookup id (handle_jobs es (record { nodes = []; jobs = [] })).jobs ≡ some cached
        → cached.job ≡ job
        → ji.job ≡ job
        → update_job now ji ≡ some (namespace, job')
        → Step job job'
    edit : (job job' : PintaJob Q) → job'.status ≡ job.status → Step job job'

  pub data Reaches (job : PintaJob Q) : PintaJob Q → Type 0 where
    at_first : Reaches job job
    then_by : (mid next : PintaJob Q) → Reaches job mid → Step mid next → Reaches job next
