-- ===== src/Generator.antt =====
-- pkg/generator/generator.go and pkg/apis/simulation/types.go: random workloads from templates.
-- strconv.Itoa, strings.Join, YAML, the random numbers and the float64 times are parameters; the file
-- that the jobs are written to is not modelled.
pub mod Laws
pub mod Files
use Prim.Native.String.{◌++◌ as str_append}
use pinta_scheduler.Prelude.{
  ℕ, zero, suc, ◌+◌, ◌-◌, ◌*◌, ◌%◌, ◌≤◌, ◌<◌, String, ◌≡◌, refl, sym, ap, subst, ◌∙◌, ◌≢◌, ◌↔◌, ◌⊎◌,
  inl, inr, Bool, true, false, not, ◌&&◌, ◌||◌, Option, none, some, List, [], ◌∷◌, ◌++◌, map, arith,
  str_eq, str_eq_iff, str_eq_refl, ltb, leb, ◌==◌, if◌then◌else◌, or_else, is_some, Bool-cases,
  Option-cases, length, get_elem?, set, length-append, All, length-set, get_elem?-set_self,
  get_elem?-set_ne, get_elem?-append_new, get_elem?-append_old, get_elem?-All,
}
use pinta_scheduler.Prelude.Int.{
  ℤ, pos, negsuc, pos_part, neg_part, ◌+ℤ◌, ◌-ℤ◌, ◌≤ℤ◌, ◌<ℤ◌, ltb_ℤ, leb_ℤ, eqb_ℤ, abs_ℤ, +ℤ_parts,
  -ℤ_parts, eq_of_parts, eqb_ℤ→eq, eqb_ℤ_refl, int_laws, wrap32, wrap32_small, two_31, +ℤ_zero,
  zero_+ℤ, -ℤ_zero, +ℤ_cancel, add_pos, sub_pos, is_positive,
}
use pinta_scheduler.Dict.{
  Dict, lookup, insert, erase, IsMap, or_some, write, range, after, range_new, entries, all_entries,
}
use pinta_scheduler.Dict.Laws.{
  lookup-nil, lookup-insert, lookup-erase, insert-IsMap, erase-IsMap, Each, insert-Each, erase-Each,
  lookup-range, range-IsMap, lookup-range_new, all_entries_iff,
}
use pinta_scheduler.Api.{PintaJob, PintaJobSpec, RoleSpec, PodSpec, Container, ObjectMeta}
use pinta_scheduler.Controller.Result.{Result, ok, err, panic, unmarshal_failed, ◌>>=◌}

-- The custom fields as texts.
pub record TextFields : Type 0 where
  pub batch_size : String
  pub iterations : String
  pub throughput : List String

pub record Texts : Type 0 where
  pub itoa : ℕ → String
  pub join : List String → String → String
  pub unmarshal : String → Option TextFields

abbrev pub EnvVar : Type 0
EnvVar = String × String

-- The variables that a job of the simulation sets itself.
abbrev pub is_set : String → Bool
is_set name = str_eq name "BATCH_SIZE" || str_eq name "ITERATIONS" || str_eq name "THROUGHPUT"

unfoldable pub other_env : List EnvVar → List EnvVar
other_env [] = []
other_env ((name, value) ∷ env) =
    let rest = other_env env in if is_set name then rest else (name, value) ∷ rest

abbrev pub env_of : Texts → TextFields → List EnvVar
env_of t fields =
    ("BATCH_SIZE", fields.batch_size)
    ∷ ("ITERATIONS", fields.iterations)
    ∷ ("THROUGHPUT", t.join fields.throughput ",")
    ∷ []

module _ {Q : Type 0} where
  -- The write to the environment of the first container: an index out of range without one.
  unfoldable pub put_env : List EnvVar → List (Container Q) → Result (List (Container Q))
  put_env added [] = panic
  put_env added (c ∷ cs) = ok (record c { env = other_env c.env ++ added } ∷ cs)

  -- A job with its first container's environment set.
  abbrev pub with_containers : String → PintaJob Q → List (Container Q) → PintaJob Q
  with_containers name job containers = record job {
    meta = let meta = job.meta in record meta { name = name };
    spec =
        let spec = job.spec in
        let replica = spec.replica in
        let pod = replica.spec in
        record spec { replica = record replica { spec = record pod { containers = containers } } };
  }

  unfoldable pub create_with : Texts → PintaJob Q → ℕ → Option TextFields → Result (PintaJob Q)
  unfolding put_env
  create_with t template id none = elim template.spec.replica.spec.containers [
    | [] ↦ panic
    | c ∷ cs ↦ err unmarshal_failed
  ]
  create_with t template id (some fields) =
      put_env (env_of t fields) template.spec.replica.spec.containers >>= λ containers.
      ok (with_containers (str_append "pinta-job-simulation-" (t.itoa id)) template containers)

  -- `CreateJobFromTemplate`
  unfoldable pub create_job_from_template : Texts → PintaJob Q → ℕ → Result (PintaJob Q)
  unfolding create_with
  create_job_from_template t template id = create_with t template id (
      t.unmarshal (or_else (lookup "pinta.qed.usc.edu/custom-fields" template.meta.annotations) ""))

  module _ {R : Type 0} (t : Texts) (plus : R → R → R) where
    -- The loop of `GenerateJobs`: rand.Intn gives an index into the templates, and panics without one;
    -- the intervals are the random numbers divided by the rate.
    unfoldable pub generate :
        ℕ → List (PintaJob Q) → (ℕ → ℕ) → (ℕ → R) → ℕ → R → Result (List (R × PintaJob Q))
    unfolding create_job_from_template
    generate zero templates rand intervals id timestamp = ok []
    generate (suc n) templates rand intervals id timestamp = elim (get_elem? templates (rand id)) [
      | none ↦ panic
      | some template ↦ create_job_from_template t template id >>= λ job.
          generate n templates rand intervals (suc id) (plus timestamp (intervals id)) >>= λ jobs.
          ok ((timestamp, job) ∷ jobs)
    ]
