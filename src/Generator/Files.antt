-- ===== src/Generator/Files.antt =====
-- The files that pkg/generator/generator.go reads and writes. YAML and the disk are parameters.
use pinta_scheduler.Prelude.{ℕ, String, Option, none, some, List, Bool, if◌then◌else◌}
use pinta_scheduler.Prelude.Int.{ℤ, pos_part}
use pinta_scheduler.Dict.{Dict, lookup, insert}
use pinta_scheduler.Api.{PintaJob}
use pinta_scheduler.Controller.Result.{
  Result, ok, err, panic, Exec, continue, unmarshal_failed, marshal_failed, file_failed,
}
use pinta_scheduler.Generator.{Texts, generate}

-- `GeneratorSpec`, whose templates have a weight that nothing reads.
pub record GeneratorSpec (Q R : Type 0) : Type 0 where
  pub templates : List (PintaJob Q)
  pub rate : R
  pub num_jobs : ℤ

-- `SimulatorSpec`: the jobs with the times of their arrival.
abbrev pub SimulatorSpec : Type 0 → Type 0 → Type 0
SimulatorSpec Q R = List (R × PintaJob Q)

-- The texts of the files by their paths, and the paths that can be written.
pub record Disk : Type 0 where
  pub files : Dict String
  pub is_writable : String → Bool

pub record Yaml (Q R : Type 0) : Type 0 where
  pub generator_spec : String → Option (GeneratorSpec Q R)
  pub simulator_spec : String → Option (SimulatorSpec Q R)
  pub marshal : SimulatorSpec Q R → Option String

-- What the generator uses of float64 and of math/rand.
pub record Random (R : Type 0) : Type 0 where
  pub zero_time : R
  pub plus : R → R → R
  pub div : R → R → R
  pub intn : ℕ → ℕ
  pub exp_float : ℕ → R

abbrev pub read_file : String → Exec Disk String
read_file path disk = elim (lookup path disk.files) [
  | none ↦ (err file_failed, disk)
  | some text ↦ (ok text, disk)
]

abbrev pub write_file : String → String → Exec Disk (Unit {0})
write_file path text disk =
    if disk.is_writable path
    then (ok tt, record disk { files = insert path text disk.files })
    else (err file_failed, disk)

-- A value that may be missing as an outcome.
abbrev pub or_err {ℓ} : {A : Type ℓ} → pinta_scheduler.Controller.Result.Error → Option A → Result A
or_err e none = err e
or_err e (some a) = ok a

module _ {Q R : Type 0} (yaml : Yaml Q R) where
  unfoldable pub new_generator : String → Exec Disk (GeneratorSpec Q R)
  new_generator path disk =
      let (read, disk') = read_file path disk in
      continue read (λ text d. (or_err unmarshal_failed (yaml.generator_spec text), d)) disk'

  -- `GenerateJobs`: the jobs, and the file that they are written to.
  unfoldable pub generate_jobs :
      Texts → Random R → GeneratorSpec Q R → String → Exec Disk (Unit {0})
  generate_jobs t random spec file_out disk =
      let intervals : ℕ → R = λ i. random.div (random.exp_float i) spec.rate in
      continue
        (generate t random.plus (pos_part spec.num_jobs) spec.templates random.intn intervals 0
          random.zero_time)
        (λ jobs d. continue (or_err marshal_failed (yaml.marshal jobs)) (write_file file_out) d)
        disk
