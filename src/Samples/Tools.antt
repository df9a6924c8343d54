-- ===== src/Samples/Tools.antt =====
-- The theorems on the recorder and the generator.
use pinta_scheduler.Prelude.{◌-◌, ◌/◌, ltb, Bool, true, none, ap, sym, ◌∙◌, String}
use pinta_scheduler.Controller.Result.{err, request_failed, ok_inj}
use pinta_scheduler.Generator.{env_of, with_containers, create_with, put_env, other_env}
use pinta_scheduler.Generator.Files.{
  GeneratorSpec, SimulatorSpec, Disk, Yaml, Random, generate_jobs,
}
use pinta_scheduler.Simulator.{Clock, run, new_simulator}
use pinta_scheduler.Simulator.Laws.{created, until_rejected, all_accepted, jobs_of, run_lem}
use pinta_scheduler.Simulator.Generated.{generated, run-generate_jobs}
use pinta_scheduler.Prelude.{
  ℕ, ◌+◌, ◌≡◌, refl, some, List, [], ◌∷◌, arith, ◌==◌, if◌then◌else◌, length,
}
use pinta_scheduler.Prelude.Int.{ℤ, pos}
use pinta_scheduler.Api.{PintaJob, idle, completed}
use pinta_scheduler.Samples.{Amount, job_in}
use pinta_scheduler.Controller.Result.{ok}
use pinta_scheduler.Metrics.{new_recorder}
use pinta_scheduler.Metrics.Laws.{Move, record_moves, record_moves_lem}
use pinta_scheduler.Generator.{Texts, create_job_from_template, generate}
use pinta_scheduler.Generator.Laws.{IsTemplate, AreNamed, name_of}

abbrev move_to : ℤ → pinta_scheduler.Api.PintaJobState → Move
move_to time state = record { time = time; namespace = "ml"; name = "train"; to_status = state }

abbrev moves : List Move
moves = move_to (pos 3) idle ∷ move_to (pos 9) completed ∷ move_to (pos 10) completed ∷ []

record_moves_lem_example :
    (length (record_moves moves new_recorder).metrics + (record_moves moves new_recorder).succeeded
      ≡ (record_moves moves new_recorder).total)
    × (length (record_moves moves new_recorder).observed
        ≡ (record_moves moves new_recorder).succeeded)
record_moves_lem_example = record_moves_lem moves

abbrev texts : Texts
texts = record {
  itoa = λ n. if n == 0 then "0" else "1";
  join = λ ts sep. sep;
  unmarshal = λ s. some (record { batch_size = "8"; iterations = "100"; throughput = [] });
}

abbrev template : PintaJob Amount
template = job_in idle (pos 0)

template-IsTemplate : IsTemplate texts template
template-IsTemplate = (omega arith, refl)

abbrev clock : Clock ℕ
clock = record { elapsed = λ i. i; less = ltb; nanos = λ a b. pos (b - a) }

abbrev second_rejected : ℕ → PintaJob Amount → Bool
second_rejected i job = i == 0

abbrev spec_of_two : SimulatorSpec Amount ℕ
spec_of_two = (0, template) ∷ (7, template) ∷ (9, template) ∷ []

run_lem_example :
    (created (run clock second_rejected 0 spec_of_two).0
      ≡ until_rejected second_rejected 0 (jobs_of spec_of_two))
    × ((run clock second_rejected 0 spec_of_two).1 ≡ (
        if all_accepted second_rejected 0 (jobs_of spec_of_two) then ok tt else err request_failed))
run_lem_example = run_lem clock second_rejected 0 spec_of_two

abbrev random : Random ℕ
random = record {
  zero_time = 0;
  plus = λ a b. a + b;
  div = λ a b. a / b;
  intn = λ i. 0;
  exp_float = λ i. 8;
}

abbrev two_jobs : GeneratorSpec Amount ℕ
two_jobs = record { templates = template ∷ []; rate = 2; num_jobs = pos 2 }

abbrev blank_disk : Disk
blank_disk = record { files = []; is_writable = λ path. true }

abbrev made : String → PintaJob Amount
made name = with_containers name template (
    record {
      limits = [];
      env = env_of texts (record { batch_size = "8"; iterations = "100"; throughput = [] });
    }
    ∷ [])

abbrev two_made : SimulatorSpec Amount ℕ
two_made = (0, made "pinta-job-simulation-0") ∷ (4, made "pinta-job-simulation-1") ∷ []

abbrev one_file : Yaml Amount ℕ
one_file = record {
  generator_spec = λ text. none;
  simulator_spec = λ text. some two_made;
  marshal = λ jobs. some "jobs";
}

two_made-generated : generated texts random two_jobs ≡ ok two_made
unfolding generate create_job_from_template create_with put_env other_env
two_made-generated = refl

run-generate_jobs_example :
    (disk' : Disk) × (jobs : SimulatorSpec Amount ℕ) × (generate_jobs one_file texts random two_jobs
        "/jobs" blank_disk
      ≡ (ok tt, disk'))
    × (new_simulator one_file true "/jobs" disk' ≡ (ok jobs, disk'))
    × ((run clock (λ i job. true) 0 jobs).1 ≡ ok tt)
    × (length (created (run clock (λ i job. true) 0 jobs).0) ≡ 2)
    × AreNamed
        (λ (job : PintaJob Amount). job.meta.name)
        (name_of texts)
        0
        2
        (created (run clock (λ i job. true) 0 jobs).0)
run-generate_jobs_example =
    run-generate_jobs one_file texts random two_jobs "/jobs" blank_disk clock
      (template-IsTemplate, tt) (λ i. omega arith) refl
      (λ jobs e. ("jobs", refl, ap some (ok_inj (sym two_made-generated ∙ e))))
