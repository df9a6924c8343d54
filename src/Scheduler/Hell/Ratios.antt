-- ===== src/Scheduler/Hell/Ratios.antt =====
-- hell.go up to the loop that schedules: what the pods report, and the ratios of each job.
pub mod Ready
pub mod Unparsed
use Prim.Native.String.{◌++◌ as str_append}
use pinta_scheduler.Prelude.{ℕ, suc, String, Option, none, some, List, [], ◌∷◌, Bool}
use pinta_scheduler.Prelude.Int.{ℤ, pos, ◌-ℤ◌, ◌*ℤ◌, wrap64}
use pinta_scheduler.Dict.{Dict, insert}
use pinta_scheduler.Api.{PintaJobType, symmetric, ps_worker, mpi, image_builder, other}
use pinta_scheduler.Info.Job.{JobInfo}
use pinta_scheduler.Controller.Result.{Result, ok, panic, ◌>>=◌}
use pinta_scheduler.Scheduler.Outcome.{
  Outcome, done, panicked, unfinished, and_then, attempt, with_state,
}

-- What the policy uses of float64.
pub record FloatApi (R : Type 0) : Type 0 where
  pub of_int : ℤ → R
  pub div : R → R → R
  pub less : R → R → Bool
  pub equal : R → R → Bool
  pub max_float : R  -- math.MaxFloat64

-- `JobCustomFields`
pub record HellFields (R : Type 0) : Type 0 where
  pub batch_size : ℤ
  pub iterations : ℤ
  pub throughput : List R
  pub completed_iterations : ℤ

abbrev pub Job : Type 0 → Type 0 → Type 0
Job Q R = JobInfo Q (HellFields R)

-- Reading /etc/pinta/ITERATION in a pod, by the pod's name and namespace, and strconv.Atoi: the number
-- that Atoi returns for the output, with an error too, and none where no executor is made.
abbrev pub Pods : Type 0
Pods = String → String → Option ℤ

unfoldable pub pod_suffix : PintaJobType → Option String
pod_suffix symmetric = some "-replica-0"
pod_suffix ps_worker = some "-worker-0"
pod_suffix mpi = some "-replica-0"
pod_suffix image_builder = none
pod_suffix (other t) = none

module _ {Q R : Type 0} where
  -- The fields are asserted to be there after the executor is made.
  unfoldable pub put_report : Job Q R → Option ℤ → Option (HellFields R) → Result (Job Q R)
  put_report job none fields = ok job
  put_report job (some n) none = panic
  put_report job (some n) (some fields) =
      ok (record job { custom_fields = some (record fields { completed_iterations = n }) })

  unfoldable pub report_one : Pods → Job Q R → Option String → Result (Job Q R)
  unfolding put_report
  report_one pods job none = ok job
  report_one pods job (some suffix) =
      put_report job (pods (str_append job.name suffix) job.namespace) job.custom_fields

  -- The jobs come back as they stand when a round of the loop panics.
  unfoldable pub report : Pods → Dict (Job Q R) → Outcome (Dict (Job Q R)) (Unit {0})
  unfolding report_one
  report pods [] = done [] tt
  report pods ((id, job) ∷ jobs) =
      attempt ((id, job) ∷ jobs) (report_one pods job (pod_suffix job.type))
        λ job'. with_state (λ jobs'. (id, job') ∷ jobs') (report pods jobs)

  unfoldable pub clear : Dict (Job Q R) → Dict (Job Q R)
  clear [] = []
  clear ((id, job) ∷ jobs) =
      (id, record job { num_masters = pos 0; num_replicas = pos 0 }) ∷ clear jobs

unfoldable pub remaining_examples : {R : Type 0} → HellFields R → ℤ
remaining_examples fields =
    wrap64 (wrap64 (fields.iterations -ℤ fields.completed_iterations) *ℤ fields.batch_size)

module _ {R : Type 0} (fl : FloatApi R) where
  unfoldable pub service_times : R → List R → List R
  service_times examples [] = []
  service_times examples (t ∷ ts) = fl.div examples t ∷ service_times examples ts

  -- The ratios from index i on, where `first` is throughput[0].
  unfoldable pub ratios_from : ℕ → R → R → List R → List R
  ratios_from i first examples [] = []
  ratios_from i first examples (t ∷ ts) =
      let efficiency = fl.div (fl.div t first) (fl.of_int (pos (suc i))) in
      fl.div (fl.div examples t) efficiency ∷ ratios_from (suc i) first examples ts

  unfoldable pub ratios_of : R → List R → List R
  ratios_of examples [] = []
  ratios_of examples (t ∷ ts) = ratios_from 0 t examples (t ∷ ts)

  unfoldable pub measure_one : Option (HellFields R) → Result (List R × List R)
  measure_one none = panic
  measure_one (some fields) =
      let examples = fl.of_int (remaining_examples fields) in
      ok (ratios_of examples fields.throughput, service_times examples fields.throughput)

  module _ {Q : Type 0} where
    -- `ratiosMap` and `remainingServiceTimesMap`
    unfoldable pub measure : Dict (Job Q R) → Result (Dict (List R) × Dict (List R))
    unfolding measure_one
    measure [] = ok ([], [])
    measure ((id, job) ∷ jobs) = measure_one job.custom_fields >>= λ m.
        measure jobs >>= λ rest. ok ((id, m.0) ∷ rest.0, (id, m.1) ∷ rest.1)
