-- ===== src/Lifecycle/Laws.antt =====
-- What every history of a job that workers and sessions write is like.
use pinta_scheduler.Prelude.{
  ℕ, String, ◌≡◌, refl, sym, ap, subst, ◌∙◌, ◌⊎◌, inl, inr, All, false, some, List, [], ◌∷◌, ◌++◌,
  Bool-cases, arith,
}
use pinta_scheduler.Api.{PintaJob, PintaJobState, PintaJobStatus, last_status}
use pinta_scheduler.Info.Resource.{QuantityApi}
use pinta_scheduler.Info.Job.{JobInfo as Decided}
use pinta_scheduler.Controller.JobCache.{JobInfo}
use pinta_scheduler.Controller.Updater.{Call, create_vc_job, update_vc_job, update_status}
use pinta_scheduler.Controller.State.{State, preempted_state, state_of}
use pinta_scheduler.Controller.State.Laws.{
  Moves, IsAllowed, scheduled_started, running_started, preempted_started, enqueue, schedule,
  complete, start, lose_nodes, resume, creates, updates, moves, execute-IsAllowed,
}
use pinta_scheduler.Scheduler.Cache.{is_skipped}
use pinta_scheduler.Scheduler.Cache.Laws.{handle_jobs-active}
use pinta_scheduler.Scheduler.Session.{update_job, with_numbers, is_unchanged}
use pinta_scheduler.Lifecycle.{
  Follows, to_idle, keep_idle, to_scheduled, keep_scheduled, to_running, to_completed, keep_running,
  complete_running, IsLife, IsIn, Step, by_worker, by_session, edit, Reaches, at_first, then_by,
}

not_preempted : (s : State) (st : PintaJobState) → Follows s st → ¬ (state_of st ≡ preempted_state)
unfolding state_of
not_preempted s st to_idle e = absurd cc
not_preempted s st keep_idle e = absurd cc
not_preempted s st to_scheduled e = absurd cc
not_preempted s st keep_scheduled e = absurd cc
not_preempted s st to_running e = absurd cc
not_preempted s st to_completed e = absurd cc
not_preempted s st keep_running e = absurd cc
not_preempted s st complete_running e = absurd cc

-- A state that the scheduler's cache does not skip may follow itself.
keep :
    (s : State) (st : PintaJobState)
    → Follows s st
    → is_skipped st ≡ false
    → Follows (state_of st) st
unfolding state_of
keep s st to_idle e = keep_idle
keep s st keep_idle e = keep_idle
keep s st to_scheduled e = keep_scheduled
keep s st keep_scheduled e = keep_scheduled
keep s st to_running e = keep_running
keep s st keep_running e = keep_running
keep s st to_completed e = absurd cc
keep s st complete_running e = absurd cc

IsLife-last :
    (ss : List PintaJobStatus) → IsLife ss → ¬ (state_of (last_status ss).state ≡ preempted_state)
unfolding state_of
IsLife-last [] life e = absurd cc
IsLife-last (s ∷ ss) life e = not_preempted (state_of (last_status ss).state) s.state life.0 e

IsLife-keep :
    (ss : List PintaJobStatus)
    → IsLife ss
    → is_skipped (last_status ss).state ≡ false
    → Follows (state_of (last_status ss).state) (last_status ss).state
IsLife-keep [] life e = absurd cc
IsLife-keep (s ∷ ss) life e = keep (state_of (last_status ss).state) s.state life.0 e

cancel : {A : Type 0} (xs l l' : List A) → xs ++ l ≡ xs ++ l' → l ≡ l'
cancel [] l l' e = e
cancel (x ∷ xs) l l' e = cancel xs l l' cc

module _ {Q : Type 0} where
  -- A request on the status puts one on top of the history that may come next.
  Continues : List PintaJobStatus → Call Q → Type 0
  Continues ss (create_vc_job ns vc) = Unit
  Continues ss (update_vc_job ns vc) = Unit
  Continues ss (update_status ns sent) =
      (s : PintaJobStatus) × (sent.status ≡ s ∷ ss)
      × Follows (state_of (last_status ss).state) s.state

  Moves-Follows :
      (info : JobInfo Q) (last : PintaJobStatus) (s : State) (st : PintaJobState)
      → Moves info.vc_job last s st
      → ¬ (s ≡ preempted_state)
      → Follows s st
  Moves-Follows info last s st enqueue other = to_idle
  Moves-Follows info last s st (schedule e) other = to_scheduled
  Moves-Follows info last s st (complete _ v scheduled_started e c) other = to_completed
  Moves-Follows info last s st (complete _ v running_started e c) other = complete_running
  Moves-Follows info last s st (complete _ v preempted_started e c) other = absurd (other refl)
  Moves-Follows info last s st (start v e r) other = to_running
  Moves-Follows info last s st (lose_nodes v e c u) other = keep_running
  Moves-Follows info last s st (resume v e c u) other = absurd (other refl)

  IsAllowed-Continues :
      (now : ℕ) (info : JobInfo Q) (job : PintaJob Q) (call : Call Q)
      → IsLife job.status
      → IsAllowed now info job (state_of (last_status job.status).state) call
      → Continues job.status call
  unfolding Continues
  IsAllowed-Continues now info job call life (creates vc) = tt
  IsAllowed-Continues now info job call life (updates vc) = tt
  IsAllowed-Continues now info job call life (moves st m) =
      (_, refl, Moves-Follows info (last_status job.status) _ st m (IsLife-last job.status life))

  All-IsIn :
      {P R : Call Q → Type 0} (l : List (Call Q)) (call : Call Q)
      → ((c : Call Q) → P c → R c)
      → All P l
      → IsIn call l
      → R call
  All-IsIn {R = R} [] call f all there = absurd there
  All-IsIn {R = R} (c ∷ l) call f all there = elim there [
    | inl same ↦ subst R (sym same) (f c all.0)
    | inr later ↦ All-IsIn {R = R} l call f all.1 later
  ]

  Extends : PintaJob Q → PintaJob Q → Type 0
  Extends job job' =
      (job'.status ≡ job.status)
      ⊎ ((s : PintaJobStatus) × (job'.status ≡ s ∷ job.status)
          × Follows (state_of (last_status job.status).state) s.state)

  Extends-IsLife :
      (job job' : PintaJob Q) → Extends job job' → IsLife job.status → IsLife job'.status
  unfolding Extends
  Extends-IsLife job job' ex life = elim ex [
    | inl same ↦ subst IsLife (sym same) life
    | inr (s, e, f) ↦ subst IsLife (sym e) (f, life)
  ]

  IsKeptState : PintaJob Q → PintaJob Q → Type 0
  IsKeptState job job' =
      (s : PintaJobStatus) × (job'.status ≡ s ∷ job.status)
      × (s.state ≡ (last_status job.status).state)

  sent_lem :
      {F : Type 0} (now : ℕ) (ji : Decided Q F) (ns : String) (job' : PintaJob Q)
      → update_job now ji ≡ some (ns, job')
      → IsKeptState ji.job job'
  unfolding update_job IsKeptState
  sent_lem now ji ns job' e = elim (Bool-cases (is_unchanged ji (last_status ji.job.status))) [
    | inl same ↦ absurd (ground (arith, same, e))
    | inr sent ↦
        let is_sent : with_numbers now ji ≡ job' = ground (arith, sent, e) in
        (_, sym (ap (λ (j : PintaJob Q). j.status) is_sent), refl)
  ]

module _ {Q : Type 0} (q : QuantityApi Q) (F : Type 0) where
  Step-Extends : (job job' : PintaJob Q) → IsLife job.status → Step q F job job' → Extends job job'
  unfolding Extends Continues IsKeptState
  Step-Extends job job' life (edit _ _ e) = inl e
  Step-Extends job job' life (by_worker api now info w l ns _ _ there e sent) =
      let (l', e', all) = (execute-IsAllowed q api now info job there).at w in
      let same = cancel w.calls l' l (sym e' ∙ e) in
      inr (
        All-IsIn {R = Continues job.status} l (update_status ns job')
          (λ c allowed. IsAllowed-Continues now info job c life allowed)
          (subst (λ l. All (IsAllowed now info job (state_of (last_status job.status).state)) l)
            same all)
          sent)
  Step-Extends job job' life (by_session es id cached ji now ns _ _ there e e' sent) =
      let active =
        subst (λ (j : PintaJob Q). is_skipped (last_status j.status).state ≡ false) e
          (handle_jobs-active es id cached there).1 in
      let stored =
        subst (λ (j : PintaJob Q). IsKeptState j job') e' (sent_lem now ji ns job' sent) in
      let (s, is_next, same_state) = stored in
      inr (
        s,
        is_next,
        subst (λ st. Follows (state_of (last_status job.status).state) st) (sym same_state)
            (IsLife-keep job.status life active),
      )

  -- Whatever the workers of the controller and the sessions of the scheduler send for a job without a
  -- history, each from the version that is stored, the first status of its history is Idle, and each
  -- later one is in the state of the one before it or in the next: Idle, Scheduled, Running and
  -- Completed in this order, of which Running may be left out. No status follows Completed, and none is
  -- Preempted or Failed.
  pub Reaches-IsLife :
      (job job' : PintaJob Q) → job.status ≡ [] → Reaches q F job job' → IsLife job'.status
  Reaches-IsLife job _ new at_first = subst IsLife (sym new) tt
  Reaches-IsLife job _ new (then_by mid next r step) =
      let life = Reaches-IsLife job mid new r in
      Extends-IsLife mid next (Step-Extends mid next life step) life
