-- ===== src/Simulator/Generated.antt =====
-- The simulator with a file that the generator wrote.
use mathlib.Core.Option
use pinta_scheduler.Prelude.{
  ℕ, zero, suc, ◌<◌, String, ◌≡◌, refl, ap, ◌∙◌, some, List, [], ◌∷◌, true, arith, str_eq_refl,
  length, get_elem?, All,
}
use pinta_scheduler.Prelude.Int.{pos_part}
use pinta_scheduler.Dict.{lookup, insert}
use pinta_scheduler.Dict.Laws.{lookup-insert}
use pinta_scheduler.Api.{PintaJob}
use pinta_scheduler.Controller.Result.{Result, ok}
use pinta_scheduler.Generator.{Texts, generate}
use pinta_scheduler.Generator.Laws.{IsTemplate, AreNamed, name_of, generate_lem}
use pinta_scheduler.Generator.Files.{
  GeneratorSpec, SimulatorSpec, Disk, Yaml, Random, generate_jobs,
}
use pinta_scheduler.Simulator.{Clock, new_simulator, run}
use pinta_scheduler.Simulator.Laws.{created, until_rejected, all_accepted, jobs_of, run_lem}

module _ {Q : Type 0} where
  until_rejected-none :
      (jobs : List (PintaJob Q)) (i : ℕ)
      → (until_rejected (λ i job. true) i jobs ≡ jobs)
        × (all_accepted (λ i job. true) i jobs ≡ true)
  until_rejected-none [] i = (refl, refl)
  until_rejected-none (job ∷ jobs) i =
      let (kept, accepted) = until_rejected-none jobs (suc i) in (ap (◌∷◌ job) kept, accepted)

module _ {Q R : Type 0} where
  -- YAML writes the jobs, and reads back what it wrote.
  abbrev pub ReadsBack : Yaml Q R → SimulatorSpec Q R → Type 0
  ReadsBack yaml jobs =
      (text : String) × (yaml.marshal jobs ≡ some text) × (yaml.simulator_spec text ≡ some jobs)

  abbrev pub generated : Texts → Random R → GeneratorSpec Q R → Result (SimulatorSpec Q R)
  generated t random spec =
      generate t random.plus (pos_part spec.num_jobs) spec.templates random.intn
        (λ i. random.div (random.exp_float i) spec.rate) 0 random.zero_time

  names-jobs_of :
      (jobs : SimulatorSpec Q R) (i : ℕ)
      → Option.map (λ (job : PintaJob Q). job.meta.name) (get_elem? (jobs_of jobs) i)
        ≡ Option.map (λ (e : R × PintaJob Q). e.1.meta.name) (get_elem? jobs i)
  names-jobs_of [] i = refl
  names-jobs_of ((time, job) ∷ jobs) zero = refl
  names-jobs_of ((time, job) ∷ jobs) (suc i) = names-jobs_of jobs i

  length-jobs_of : (jobs : SimulatorSpec Q R) → length (jobs_of jobs) ≡ length jobs
  length-jobs_of [] = refl
  length-jobs_of ((time, job) ∷ jobs) = ap suc (length-jobs_of jobs)

  module _ (yaml : Yaml Q R) (t : Texts) (random : Random R) (spec : GeneratorSpec Q R)
      (path : String) (disk : Disk) where
    generate_jobs_lem :
        (jobs : SimulatorSpec Q R) (text : String)
        → disk.is_writable path ≡ true
        → generated t random spec ≡ ok jobs
        → yaml.marshal jobs ≡ some text
        → generate_jobs yaml t random spec path disk
          ≡ (ok tt, record disk { files = insert path text disk.files })
    unfolding generate_jobs
    generate_jobs_lem jobs text writable e e' = ground (arith, e, e', writable)

    new_simulator_lem :
        (jobs : SimulatorSpec Q R) (text : String) (disk : Disk)
        → lookup path disk.files ≡ some text
        → yaml.simulator_spec text ≡ some jobs
        → new_simulator yaml true path disk ≡ (ok jobs, disk)
    unfolding new_simulator
    new_simulator_lem jobs text disk there e = ground (arith, there, e)

    -- With templates that have a container and an annotation that decodes, random indexes into them, a
    -- path that can be written and YAML that reads back what it wrote for the jobs, the generator writes a file
    -- which the simulator reads. The simulator then creates, if the API server accepts them, as many jobs
    -- as the specification asks for, named by their numbers from 0 on.
    pub run-generate_jobs :
        (clock : Clock R)
        → All (IsTemplate t) spec.templates
        → ((i : ℕ) → random.intn i < length spec.templates)
        → disk.is_writable path ≡ true
        → ((jobs : SimulatorSpec Q R) → generated t random spec ≡ ok jobs → ReadsBack yaml jobs)
        → (disk' : Disk) × (jobs : SimulatorSpec Q R) × (generate_jobs yaml t random spec path disk
            ≡ (ok tt, disk'))
          × (new_simulator yaml true path disk' ≡ (ok jobs, disk'))
          × ((run clock (λ i job. true) 0 jobs).1 ≡ ok tt)
          × (length (created (run clock (λ i job. true) 0 jobs).0) ≡ pos_part spec.num_jobs)
          × AreNamed
              (λ (job : PintaJob Q). job.meta.name)
              (name_of t)
              0
              (pos_part spec.num_jobs)
              (created (run clock (λ i job. true) 0 jobs).0)
    run-generate_jobs clock good in_range writable reads_back =
        let (jobs, e, size, names) =
          generate_lem t random.plus spec.templates random.intn
            (λ i. random.div (random.exp_float i) spec.rate) good in_range (pos_part spec.num_jobs)
            0 random.zero_time in
        let (text, e', back) = reads_back jobs e in
        let disk' : Disk = record disk { files = insert path text disk.files } in
        let (made, ends) = run_lem clock (λ i job. true) 0 jobs in
        let (kept, accepted) = until_rejected-none (jobs_of jobs) 0 in
        let all_made = made ∙ kept in
        (
          disk',
          jobs,
          generate_jobs_lem jobs text writable e e',
          new_simulator_lem jobs text disk'
              (lookup-insert path path text disk.files ∙ rw (str_eq_refl path) refl) back,
          ends ∙ rw accepted refl,
          ap length all_made ∙ length-jobs_of jobs ∙ size,
          λ i.
              ap (λ js. Option.map (λ (job : PintaJob Q). job.meta.name) (get_elem? js i)) all_made
              ∙ names-jobs_of jobs i
              ∙ names i,
        )
