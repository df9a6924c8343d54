-- ===== src/Scheduler/Hell.antt =====
-- pkg/scheduler/policies/hell/hell.go: the policy that places the jobs by the ratio of the remaining
-- service time to the efficiency, and then fills the nodes that are left. The float64 operations and
-- what the pods report are parameters.
pub mod Ratios
pub mod Gang
pub mod Place
pub mod Fill
pub mod Laws
use pinta_scheduler.Prelude.{ℕ, String, Option, none, some, List, length}
use pinta_scheduler.Prelude.Int.{ℤ, pos}
use pinta_scheduler.Dict.{Dict}
use pinta_scheduler.Controller.Result.{Result, ok, ◌>>=◌}
use pinta_scheduler.Scheduler.Outcome.{
  Outcome, done, panicked, unfinished, and_then, attempt, with_state,
}
use pinta_scheduler.Scheduler.Hell.Ratios.{FloatApi, Job, Pods, report, clear, measure}
use pinta_scheduler.Scheduler.Hell.Place.{schedule}
use pinta_scheduler.Scheduler.Hell.Fill.{fill}

module _ {Q R : Type 0} (fl : FloatApi R) where
  -- `Execute`, on the given fuel for each of its two loops, with the orders in which these range over
  -- their maps.
  unfoldable pub execute :
      Pods
      → ℕ
      → (ℕ → List String)
      → (ℕ → List String)
      → Dict (Job Q R)
      → ℕ
      → Outcome (Dict (Job Q R)) (Unit {0})
  execute pods fuel orders fill_orders jobs num_nodes = and_then (report pods jobs) λ reported _.
      attempt (clear reported) (measure fl (clear reported)) λ measured.
        and_then (schedule fl fuel orders 0 (clear reported) measured.0 (pos num_nodes))
          λ placed left. fill fl fuel fill_orders 0 placed measured.1 left
