-- ===== src/Scheduler/Loop.antt =====
-- pkg/scheduler/scheduler.go and util.go: a round of the scheduler. Reading files, YAML and
-- strings.TrimSpace are parameters.
pub mod Known
pub mod Settle
pub mod Nop
pub mod Quiet
pub mod Release
pub mod Equi
pub mod Laws
use pinta_scheduler.Prelude.{ℕ, String, Option, none, some, List, [], ◌∷◌, str_eq, if◌then◌else◌}
use mathlib.Core.Option
use pinta_scheduler.Dict.{Dict}
use pinta_scheduler.Api.{PintaJob}
use pinta_scheduler.Info.Resource.{QuantityApi}
use pinta_scheduler.Info.Job.{JobInfo}
use pinta_scheduler.Controller.Result.{Result, ok, panic, ◌>>=◌}
use pinta_scheduler.Scheduler.Outcome.{
  Outcome, done, panicked, unfinished, and_then, attempt, with_state,
}
use pinta_scheduler.Scheduler.Cache.{PintaCache, snapshot}
use pinta_scheduler.Scheduler.Session.{open_session, update_all}
use pinta_scheduler.Scheduler.Policies.{Policy, get_policy}

-- The field `Policy` of a configuration, of which YAML may not be able to decode the text; the text of
-- a file that can be read; and the white space taken off.
pub record Host : Type 0 where
  pub unmarshal : String → Option String
  pub read_file : String → Option String
  pub trim_space : String → String

abbrev pub default_scheduler_conf : String
default_scheduler_conf = "\npolicy: \"nop\"\n"

-- `readSchedulerConf`, with the default where it fails or no path is given.
unfoldable pub scheduler_conf : Host → String → String
scheduler_conf host path =
    if str_eq path ""
    then default_scheduler_conf
    else elim (host.read_file path) [ none ↦ default_scheduler_conf | some text ↦ text ]

module _ {Q : Type 0} where
  -- `loadSchedulerConf` of util.go: none is an error.
  unfoldable pub load_scheduler_conf : Host → Dict (Policy Q) → String → Option (Policy Q)
  load_scheduler_conf host policies conf = elim (host.unmarshal conf) [
    | none ↦ none
    | some name ↦ get_policy (host.trim_space name) policies
  ]

  -- The method of the scheduler: an error is a panic.
  unfoldable pub load_policy : Host → Dict (Policy Q) → String → Result (Policy Q)
  load_policy host policies path =
      elim (load_scheduler_conf host policies (scheduler_conf host path)) [
        | none ↦ panic
        | some policy ↦ ok policy
      ]

  -- The cache keeps no custom fields: a job info of it can take those of any type.
  unfoldable pub for_policy : {F : Type 0} → Dict (JobInfo Q ⊥) → Dict (JobInfo Q F)
  for_policy [] = []
  for_policy ((uid, ji) ∷ jobs) =
      (
        uid,
        record {
          uid = ji.uid;
          name = ji.name;
          namespace = ji.namespace;
          type = ji.type;
          num_masters = ji.num_masters;
          num_replicas = ji.num_replicas;
          creation_timestamp = ji.creation_timestamp;
          custom_fields = none;
          job = ji.job;
        },
      )
      ∷ for_policy jobs

  -- The session that a policy is given, and the requests of closing it: that is deferred, so they are
  -- sent when the policy panics too, for the jobs as they stand then. A panic before the session is
  -- open sends nothing.
  unfoldable pub run_policy :
      QuantityApi Q
      → ℕ
      → (policy : Policy Q) → PintaCache Q policy.CustomFields
      → Outcome (List (String × PintaJob Q)) (Unit {0})
  run_policy q now policy pc = attempt [] (snapshot q policy.unmarshal pc) λ info.
      with_state (λ jobs. update_all now jobs) (policy.execute (open_session info.jobs info.nodes))

  unfoldable pub run_once :
      QuantityApi Q
      → Host
      → Dict (Policy Q)
      → String
      → ℕ
      → PintaCache Q ⊥
      → Outcome (List (String × PintaJob Q)) (Unit {0})
  run_once q host policies path now pc =
      attempt [] (load_policy host policies path)
        λ policy. run_policy q now policy (record { nodes = pc.nodes; jobs = for_policy pc.jobs })
