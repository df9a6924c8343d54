-- ===== src/Simulator/Laws.antt =====
-- Which jobs the simulator creates.
use pinta_scheduler.Prelude.{
  ℕ, suc, ◌≡◌, refl, ap, ◌∙◌, inl, inr, List, [], ◌∷◌, ◌++◌, Bool, true, ◌&&◌, arith, if◌then◌else◌,
  Bool-cases,
}
use pinta_scheduler.Api.{PintaJob}
use pinta_scheduler.Controller.Result.{ok, err, request_failed}
use pinta_scheduler.Generator.Files.{SimulatorSpec}
use pinta_scheduler.Simulator.{Clock, Action, sleep, create, wait_for, run}

module _ {Q : Type 0} where
  -- The jobs that the actions create, in order.
  abbrev pub created : List (Action Q) → List (PintaJob Q)
  created [] = []
  created (sleep d ∷ acts) = created acts
  created (create job ∷ acts) = job ∷ created acts

  -- The jobs up to the first one that is not accepted.
  abbrev pub until_rejected : (ℕ → PintaJob Q → Bool) → ℕ → List (PintaJob Q) → List (PintaJob Q)
  until_rejected accepts i [] = []
  until_rejected accepts i (job ∷ jobs) =
      let rest = until_rejected accepts (suc i) jobs in job ∷ (if accepts i job then rest else [])

  abbrev pub all_accepted : (ℕ → PintaJob Q → Bool) → ℕ → List (PintaJob Q) → Bool
  all_accepted accepts i [] = true
  all_accepted accepts i (job ∷ jobs) =
      let rest = all_accepted accepts (suc i) jobs in accepts i job && rest

module _ {Q R : Type 0} where
  abbrev pub jobs_of : SimulatorSpec Q R → List (PintaJob Q)
  jobs_of [] = []
  jobs_of ((time, job) ∷ jobs) = job ∷ jobs_of jobs

  created-wait_for :
      (clock : Clock R) (now time : R) (acts : List (Action Q))
      → created (wait_for clock now time ++ acts) ≡ created acts
  created-wait_for clock now time acts = ground arith

  -- The simulator creates the jobs of its file in their order, up to the first one that the API server
  -- does not accept, and returns an error if there is one.
  pub run_lem :
      (clock : Clock R) (accepts : ℕ → PintaJob Q → Bool) (i : ℕ) (jobs : SimulatorSpec Q R)
      → (created (run clock accepts i jobs).0 ≡ until_rejected accepts i (jobs_of jobs))
        × ((run clock accepts i jobs).1
            ≡ (if all_accepted accepts i (jobs_of jobs) then ok tt else err request_failed))
  unfolding run
  run_lem clock accepts i [] = (refl, refl)
  run_lem clock accepts i ((time, job) ∷ jobs) =
      let (made, ends) = run_lem clock accepts (suc i) jobs in
      elim (Bool-cases (accepts i job)) [
        | inl accepted ↦
            rw accepted (created-wait_for clock (clock.elapsed i) time _ ∙ ap (◌∷◌ job) made, ends)
        | inr rejected ↦ rw rejected (created-wait_for clock (clock.elapsed i) time _, refl)
      ]
