-- ===== src/Scheduler/Policies.antt =====
-- pkg/scheduler/policies and pkg/scheduler/session/interface.go: the policies that a scheduler knows by
-- name. The policies equi and hell have modules of their own.
pub mod Laws
use Prim.Native.String.{String}
use pinta_scheduler.Prelude.{ℕ, Option, none, some, List, [], ◌∷◌, length}
use pinta_scheduler.Prelude.Int.{ℤ}
use pinta_scheduler.Dict.{Dict, lookup, insert}
use pinta_scheduler.Info.Job.{JobInfo}
use pinta_scheduler.Controller.Result.{Result, ok, panic, ◌>>=◌}
use pinta_scheduler.Scheduler.Outcome.{
  Outcome, done, panicked, unfinished, and_then, attempt, with_state,
}
use pinta_scheduler.Scheduler.Session.{Session}
use pinta_scheduler.Scheduler.Equi.{execute as equi_execute}
use pinta_scheduler.Scheduler.Hell.Ratios.{FloatApi, HellFields, Pods}
use pinta_scheduler.Scheduler.Hell.{execute as hell_execute}

-- `JobCustomFields` of nop.
pub record NopFields : Type 0 where
  pub num_masters : ℤ
  pub num_replicas : ℤ

-- A policy has the custom fields of its own type, which the YAML library decodes. It changes the jobs
-- of a session.
pub record Policy (Q : Type 0) : Type 1 where
  pub name : String
  pub CustomFields : Type 0
  pub unmarshal : String → Option CustomFields
  pub execute : Session Q CustomFields → Outcome (Dict (JobInfo Q CustomFields)) (Unit {0})

-- The jobs of a policy that does not panic; none where the fuel is used up.
abbrev pub of_option : {S : Type 0} → Option S → Outcome S (Unit {0})
of_option none = unfinished
of_option (some s) = done s tt

module _ {Q : Type 0} where
  -- The fields are asserted to be there.
  unfoldable pub pass_through :
      JobInfo Q NopFields → Option NopFields → Result (JobInfo Q NopFields)
  pass_through ji none = panic
  pass_through ji (some fields) =
      ok (record ji { num_masters = fields.num_masters; num_replicas = fields.num_replicas })

  unfoldable pub nop_jobs :
      Dict (JobInfo Q NopFields) → Outcome (Dict (JobInfo Q NopFields)) (Unit {0})
  unfolding pass_through
  nop_jobs [] = done [] tt
  nop_jobs ((uid, ji) ∷ jobs) =
      attempt ((uid, ji) ∷ jobs) (pass_through ji ji.custom_fields)
        λ ji'. with_state (λ jobs'. (uid, ji') ∷ jobs') (nop_jobs jobs)

  abbrev pub nop : (String → Option NopFields) → Policy Q
  nop unmarshal = record {
    name = "nop";
    CustomFields = NopFields;
    unmarshal = unmarshal;
    execute = λ ssn. nop_jobs ssn.jobs;
  }

  -- `struct{}` has one value.
  abbrev pub fcfs : (String → Option (Unit {0})) → Policy Q
  fcfs unmarshal = record {
    name = "fcfs";
    CustomFields = Unit {0};
    unmarshal = unmarshal;
    execute = λ ssn. done ssn.jobs tt;
  }

  abbrev pub equi : (String → Option (Unit {0})) → ℕ → (ℕ → List String) → Policy Q
  equi unmarshal fuel orders = record {
    name = "equi";
    CustomFields = Unit {0};
    unmarshal = unmarshal;
    execute = λ ssn. of_option (equi_execute fuel orders ssn.jobs (length ssn.nodes));
  }

  abbrev pub hell :
      {R : Type 0}
      → (String → Option (HellFields R))
      → FloatApi R
      → Pods
      → ℕ
      → (ℕ → List String)
      → (ℕ → List String)
      → Policy Q
  hell {R = R} unmarshal fl pods fuel orders fill_orders = record {
    name = "hell";
    CustomFields = HellFields R;
    unmarshal = unmarshal;
    execute = λ ssn. hell_execute fl pods fuel orders fill_orders ssn.jobs (length ssn.nodes);
  }

  -- `policyMap[policy.Name()] = policy`
  unfoldable pub register_policy : Policy Q → Dict (Policy Q) → Dict (Policy Q)
  register_policy policy policies = insert policy.name policy policies

  unfoldable pub get_policy : String → Dict (Policy Q) → Option (Policy Q)
  get_policy name policies = lookup name policies

-- What decodes the custom fields of each policy, and the parameters of the policies that have loops.
pub record Env (R : Type 0) : Type 0 where
  pub nop_fields : String → Option NopFields
  pub fcfs_fields : String → Option (Unit {0})
  pub equi_fields : String → Option (Unit {0})
  pub hell_fields : String → Option (HellFields R)
  pub float : FloatApi R
  pub pods : Pods
  pub fuel : ℕ
  pub orders : ℕ → List String
  pub fill_orders : ℕ → List String

module _ {Q R : Type 0} where
  -- `init` of factory.go.
  unfoldable pub init : Env R → Dict (Policy Q)
  init env =
      register_policy (hell env.hell_fields env.float env.pods env.fuel env.orders env.fill_orders)
        (register_policy (equi env.equi_fields env.fuel env.orders)
          (register_policy (fcfs env.fcfs_fields) (register_policy (nop env.nop_fields) [])))
