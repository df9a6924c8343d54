-- ===== src/Controller/State/Laws.antt =====
-- Which states a worker moves a PintaJob to, and under which conditions.
use pinta_scheduler.Prelude.{ℕ, ◌≡◌, refl, inl, inr, true, false, Option, none, some, Option-cases}
use pinta_scheduler.Api.{
  PintaJob, PintaJobState, PintaJobStatus, VcJob, idle, scheduled, running, preempted, completed,
  failed, last_status,
}
use pinta_scheduler.Info.Resource.{QuantityApi}
use pinta_scheduler.Controller.Result.{ok, panic, Exec, continue}
use pinta_scheduler.Controller.JobCache.{JobInfo}
use pinta_scheduler.Controller.Updater.{
  Call, ClusterApi, World, get_vc_job_status, get_last_pinta_job_status,
  update_pinta_job_status_state, reconcile, create_vc_job, update_vc_job, update_status, with_state,
}
use pinta_scheduler.Controller.Updater.Laws.{
  Sends, Sends-return, Sends-if, Sends-bind, Sends-ok, Sends-panic, Sends-imp, update_status-Sends,
  reconcile-Sends,
}
use pinta_scheduler.Controller.State.{
  State, empty_state, idle_state, scheduled_state, running_state, preempted_state, finished_state,
  state_of, is_unscheduled, is_completed, is_running, execute_empty, execute_idle,
  execute_scheduled, execute_running, execute_preempted, execute_state, execute,
}

-- A state whose actions read the phase of the Volcano job.
pub data IsStarted : State → Type 0 where
  scheduled_started : IsStarted scheduled_state
  running_started : IsStarted running_state
  preempted_started : IsStarted preempted_state

module _ {Q : Type 0} where
  -- The moves of the state machine for a job with the status `last` and, if there is one, a Volcano
  -- job `vc`. A running job that has lost its nodes is marked as running again.
  pub data Moves (vc : Option (VcJob Q)) (last : PintaJobStatus)
      : State → PintaJobState → Type 0 where
    enqueue : Moves vc last empty_state idle
    schedule : is_unscheduled last ≡ false → Moves vc last idle_state scheduled
    complete :
        (s : State) (v : VcJob Q)
        → IsStarted s
        → vc ≡ some v
        → is_completed v.phase ≡ true
        → Moves vc last s completed
    start :
        (v : VcJob Q)
        → vc ≡ some v
        → is_running v.phase ≡ true
        → Moves vc last scheduled_state running
    lose_nodes :
        (v : VcJob Q)
        → vc ≡ some v
        → is_completed v.phase ≡ false
        → is_unscheduled last ≡ true
        → Moves vc last running_state running
    resume :
        (v : VcJob Q)
        → vc ≡ some v
        → is_completed v.phase ≡ false
        → is_unscheduled last ≡ false
        → Moves vc last preempted_state running

  -- What a worker may send for the job of `info`: a Volcano job in the namespace of `info`, or the
  -- job with a status on top of its history that the state machine allows.
  pub data IsAllowed (now : ℕ) (info : JobInfo Q) (job : PintaJob Q) (s : State)
      : Call Q → Type 0 where
    creates : (vc : VcJob Q) → IsAllowed now info job s (create_vc_job info.namespace vc)
    updates : (vc : VcJob Q) → IsAllowed now info job s (update_vc_job info.namespace vc)
    moves :
        (state : PintaJobState)
        → Moves info.vc_job (last_status job.status) s state
        → IsAllowed now info job s (update_status info.namespace (with_state now state job))

-- All states but Preempted and Failed.
abbrev IsWritten : PintaJobState → Type 0
IsWritten preempted = ⊥
IsWritten failed = ⊥
IsWritten _ = Unit

module _ {Q : Type 0} where
  abbrev WritesState : Call Q → Type 0
  WritesState (update_status ns sent) = IsWritten (last_status sent.status).state
  WritesState _ = Unit

module _ {Q : Type 0} (q : QuantityApi Q) (api : ClusterApi Q) (now : ℕ) (info : JobInfo Q)
    (job : PintaJob Q) (there : info.job ≡ some job) where
  get_last-there : get_last_pinta_job_status info ≡ ok (last_status job.status)
  unfolding get_last_pinta_job_status
  get_last-there = rw there refl

  get_vc-none : info.vc_job ≡ none → get_vc_job_status info ≡ panic
  unfolding get_vc_job_status
  get_vc-none e = rw e refl

  get_vc-some : (v : VcJob Q) → info.vc_job ≡ some v → get_vc_job_status info ≡ ok v.phase
  unfolding get_vc_job_status
  get_vc-some v e = rw e refl

  module _ (s : State) where
    abbrev Obeys : {A : Type 0} → Exec (World Q) A → Type 0
    Obeys m = Sends (IsAllowed now info job s) m

    move-Sends :
        (state : PintaJobState)
        → Moves info.vc_job (last_status job.status) s state
        → Obeys (update_pinta_job_status_state q api now info state)
    move-Sends state m =
        update_status-Sends q api now (IsAllowed now info job s) info state job there
          (moves state m)

    reconciled :
        (m : Exec (World Q) (Unit {0}))
        → Obeys m
        → Obeys (λ w. let (r, w') = reconcile q api now info w in continue r (λ _. m) w')
    reconciled m h =
        Sends-bind (reconcile q api now info) (λ _. m)
          (reconcile-Sends q api now (IsAllowed now info job s) info (λ vc. creates vc)
            (λ vc. updates vc))
          (λ _. h)

  idle-Sends : Obeys idle_state (execute_idle q api now info)
  unfolding execute_idle
  idle-Sends = Sends-ok (get_last_pinta_job_status info) (last_status job.status) _ get_last-there (
      Sends-if (is_unscheduled (last_status job.status)) _ _ (λ _. Sends-return (ok tt))
        (λ e. reconciled idle_state _ (move-Sends idle_state scheduled (schedule e))))

  scheduled-Sends : Obeys scheduled_state (execute_scheduled q api now info)
  unfolding execute_scheduled
  scheduled-Sends = elim (Option-cases info.vc_job) [
    | inl nil ↦ Sends-panic (get_vc_job_status info) _ (get_vc-none nil)
    | inr (v, e) ↦ Sends-ok (get_vc_job_status info) v.phase _ (get_vc-some v e) (
        Sends-if (is_completed v.phase) _ _
          (λ c.
            move-Sends scheduled_state completed (complete scheduled_state v scheduled_started e c))
          (λ _. reconciled scheduled_state _ (
            Sends-if (is_running v.phase) _ _
              (λ r. move-Sends scheduled_state running (start v e r)) (λ _. Sends-return (ok tt)))))
  ]

  running-Sends : Obeys running_state (execute_running q api now info)
  unfolding execute_running
  running-Sends = elim (Option-cases info.vc_job) [
    | inl nil ↦ Sends-panic (get_vc_job_status info) _ (get_vc-none nil)
    | inr (v, e) ↦ Sends-ok (get_vc_job_status info) v.phase _ (get_vc-some v e) (
        Sends-if (is_completed v.phase) _ _
          (λ c. move-Sends running_state completed (complete running_state v running_started e c))
          (λ c. reconciled running_state _ (
            Sends-ok (get_last_pinta_job_status info) (last_status job.status) _ get_last-there (
              Sends-if (is_unscheduled (last_status job.status)) _ _
                (λ u. move-Sends running_state running (lose_nodes v e c u))
                (λ _. Sends-return (ok tt))))))
  ]

  preempted-Sends : Obeys preempted_state (execute_preempted q api now info)
  unfolding execute_preempted
  preempted-Sends = elim (Option-cases info.vc_job) [
    | inl nil ↦ Sends-panic (get_vc_job_status info) _ (get_vc-none nil)
    | inr (v, e) ↦ Sends-ok (get_vc_job_status info) v.phase _ (get_vc-some v e) (
        Sends-if (is_completed v.phase) _ _
          (λ c.
            move-Sends preempted_state completed (complete preempted_state v preempted_started e c))
          (λ c.
            Sends-ok (get_last_pinta_job_status info) (last_status job.status) _ get_last-there (
              Sends-if (is_unscheduled (last_status job.status)) _ _ (λ _. Sends-return (ok tt))
                (λ u.
                  reconciled preempted_state _
                    (move-Sends preempted_state running (resume v e c u))))))
  ]

  execute_state-Sends : (s : State) → Obeys s (execute_state q api now info s)
  unfolding execute_state execute_empty
  execute_state-Sends empty_state = move-Sends empty_state idle enqueue
  execute_state-Sends idle_state = idle-Sends
  execute_state-Sends scheduled_state = scheduled-Sends
  execute_state-Sends running_state = running-Sends
  execute_state-Sends preempted_state = preempted-Sends
  execute_state-Sends finished_state = Sends-return (ok tt)

  -- For a job info that has its job, every request that a worker sends is allowed by the state
  -- machine: a Volcano job to be created or updated, or the job with one more status by a move of
  -- the state of its last status.
  pub execute-IsAllowed :
      Sends
        (IsAllowed now info job (state_of (last_status job.status).state))
        (execute q api now info)
  unfolding execute
  execute-IsAllowed =
      Sends-ok (get_last_pinta_job_status info) (last_status job.status) _ get_last-there
        (execute_state-Sends (state_of (last_status job.status).state))

  execute_state-panic :
      (s : State) (w : World Q)
      → IsStarted s
      → info.vc_job ≡ none
      → execute_state q api now info s w ≡ (panic, w)
  unfolding execute_state execute_scheduled execute_running execute_preempted
  execute_state-panic s w scheduled_started e = rw (get_vc-none e) refl
  execute_state-panic s w running_started e = rw (get_vc-none e) refl
  execute_state-panic s w preempted_started e = rw (get_vc-none e) refl

  -- A worker that takes a job whose last status is scheduled, running or preempted, and whose
  -- Volcano job is gone, panics before it sends a request.
  pub execute-panic :
      (w : World Q)
      → IsStarted (state_of (last_status job.status).state)
      → info.vc_job ≡ none
      → execute q api now info w ≡ (panic, w)
  unfolding execute
  execute-panic w started e =
      rw get_last-there (execute_state-panic (state_of (last_status job.status).state) w started e)

  Moves-IsWritten :
      (s : State) (state : PintaJobState)
      → Moves info.vc_job (last_status job.status) s state
      → IsWritten state
  Moves-IsWritten s state enqueue = tt
  Moves-IsWritten s state (schedule e) = tt
  Moves-IsWritten s state (complete _ v k e c) = tt
  Moves-IsWritten s state (start v e r) = tt
  Moves-IsWritten s state (lose_nodes v e c u) = tt
  Moves-IsWritten s state (resume v e c u) = tt

  IsAllowed-WritesState :
      (s : State) (call : Call Q) → IsAllowed now info job s call → WritesState call
  IsAllowed-WritesState s call (creates vc) = tt
  IsAllowed-WritesState s call (updates vc) = tt
  IsAllowed-WritesState s call (moves state m) = Moves-IsWritten s state m

  -- For a job info that has its job, no worker marks the job as Preempted or as Failed, not even
  -- one that has lost its nodes.
  execute-WritesState : Sends WritesState (execute q api now info)
  execute-WritesState =
      Sends-imp _ WritesState (execute q api now info)
        (IsAllowed-WritesState (state_of (last_status job.status).state)) execute-IsAllowed
