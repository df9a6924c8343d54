-- ===== src/Simulator.antt =====
-- pkg/simulator/simulator.go: the jobs of a file are created one after the other, each at its time.
-- The clock, YAML, the disk and the API server's answers are parameters.
pub mod Laws
pub mod Generated
use pinta_scheduler.Prelude.{
  ℕ, suc, String, Option, none, some, List, [], ◌∷◌, ◌++◌, Bool, true, false, if◌then◌else◌,
}
use pinta_scheduler.Prelude.Int.{ℤ}
use pinta_scheduler.Api.{PintaJob}
use pinta_scheduler.Controller.Result.{
  Result, ok, err, panic, Exec, continue, unmarshal_failed, request_failed,
}
use pinta_scheduler.Generator.Files.{SimulatorSpec, Disk, Yaml, read_file, or_err}

-- The seconds since the simulator was made, as float64: what the clock shows in each round, the order,
-- and the nanoseconds from one time to another, int64((b - a) * 1e9).
pub record Clock (R : Type 0) : Type 0 where
  pub elapsed : ℕ → R
  pub less : R → R → Bool
  pub nanos : R → R → ℤ

-- A timer that is waited for, and a request to the API server for the namespace "default".
pub data Action (Q : Type 0) : Type 0 where
  sleep : ℤ → Action Q
  create : PintaJob Q → Action Q

module _ {Q R : Type 0} where
  -- A client set that cannot be made is a panic.
  unfoldable pub new_simulator : Yaml Q R → Bool → String → Exec Disk (SimulatorSpec Q R)
  new_simulator yaml has_client path disk =
      let (read, disk') = read_file path disk in
      if has_client
      then continue read (λ text d. (or_err unmarshal_failed (yaml.simulator_spec text), d)) disk'
      else (panic, disk)

  abbrev pub wait_for : Clock R → R → R → List (Action Q)
  wait_for clock now time = if clock.less now time then sleep (clock.nanos now time) ∷ [] else []

  -- `Run`, where the API server accepts the job of the i-th round or not.
  unfoldable pub run :
      Clock R
      → (ℕ → PintaJob Q → Bool)
      → ℕ
      → SimulatorSpec Q R
      → List (Action Q) × Result (Unit {0})
  run clock accepts i [] = ([], ok tt)
  run clock accepts i ((time, job) ∷ jobs) =
      let rest = run clock accepts (suc i) jobs in
      let end : List (Action Q) × Result (Unit {0}) =
        if accepts i job then rest else ([], err request_failed) in
      (wait_for clock (clock.elapsed i) time ++ create job ∷ end.0, end.1)
