-- ===== src/Scheduler/Policies/Laws.antt =====
-- The policy nop, and the policies that are registered.
use pinta_scheduler.Prelude.{
  String, ◌≡◌, refl, ap, ◌∙◌, ◌⊎◌, inl, inr, true, none, some, [], ◌∷◌, arith, str_eq, str_eq_iff,
  str_eq_refl, is_some, Bool-cases, Option-cases,
}
use pinta_scheduler.Scheduler.Outcome.{done, panicked}
use pinta_scheduler.Dict.{Dict, lookup, IsMap}
use pinta_scheduler.Dict.Laws.{Each, insert-Each}
use pinta_scheduler.Info.Job.{JobInfo}
use pinta_scheduler.Controller.Result.{ok}
use mathlib.Core.Option
use pinta_scheduler.Scheduler.Policies.{
  NopFields, pass_through, nop_jobs, Policy, register_policy, Env, init,
}

module _ {Q : Type 0} where
  -- A job with the numbers of its fields.
  abbrev pub with_fields : JobInfo Q NopFields → JobInfo Q NopFields
  with_fields ji = elim ji.custom_fields [
    | none ↦ ji
    | some fields ↦ record ji {
      num_masters = fields.num_masters;
      num_replicas = fields.num_replicas;
    }
  ]

  abbrev pub AllParsed : Dict (JobInfo Q NopFields) → Type 0
  AllParsed jobs = Each (λ k (ji : JobInfo Q NopFields). is_some ji.custom_fields ≡ true) jobs

  pass_through-with_fields :
      (ji : JobInfo Q NopFields) (fields : NopFields)
      → ji.custom_fields ≡ some fields
      → pass_through ji ji.custom_fields ≡ ok (with_fields ji)
  unfolding pass_through
  pass_through-with_fields ji fields e = ground (arith, e)

  -- With parsed fields the policy returns, and gives each job the numbers of its fields.
  pub nop_jobs_lem :
      (jobs : Dict (JobInfo Q NopFields))
      → IsMap jobs
      → AllParsed jobs
      → (jobs' : Dict (JobInfo Q NopFields)) × (nop_jobs jobs ≡ done jobs' tt)
        × IsMap jobs'
        × ((k : String) → lookup k jobs' ≡ Option.map with_fields (lookup k jobs))
  unfolding nop_jobs lookup
  nop_jobs_lem [] m h = ([], refl, tt, λ k. refl)
  nop_jobs_lem ((uid, ji) ∷ jobs) m h = elim (Option-cases ji.custom_fields) [
    | inl missing ↦ absurd (cc (h uid ji (rw (str_eq_refl uid) refl), missing))
    | inr (fields, parsed) ↦
        let (jobs', e, m', at) =
          nop_jobs_lem jobs m.1
            (λ k x there. h k x (ground (arith, m.0, there, str_eq_iff uid k))) in
        (
          (uid, with_fields ji) ∷ jobs',
          rw (pass_through-with_fields ji fields parsed, e) refl,
          (at uid ∙ ap (Option.map with_fields) m.0, m'),
          λ k. ground (arith, at k),
        )
  ]

  -- With a job of which the fields are not parsed the policy panics, and each job has then the numbers
  -- of its fields or the ones from before.
  pub nop_jobs-unparsed :
      (jobs : Dict (JobInfo Q NopFields)) (id : String) (ji : JobInfo Q NopFields)
      → lookup id jobs ≡ some ji
      → ji.custom_fields ≡ none
      → (jobs' : Dict (JobInfo Q NopFields)) × (nop_jobs jobs ≡ panicked jobs')
        × ((k : String)
            → (lookup k jobs' ≡ lookup k jobs)
              ⊎ (lookup k jobs' ≡ Option.map with_fields (lookup k jobs)))
  unfolding nop_jobs pass_through lookup
  nop_jobs-unparsed [] id ji there e = absurd cc
  nop_jobs-unparsed ((uid, x) ∷ jobs) id ji there e = elim (Option-cases x.custom_fields) [
    | inl missing ↦ ((uid, x) ∷ jobs, rw missing refl, λ k. inl refl)
    | inr (fields, parsed) ↦ elim (Bool-cases (str_eq uid id)) [
      | inl same ↦
          let is_ji : x ≡ ji = ground (arith, same, there) in
          let unparsed : x.custom_fields ≡ none = rw is_ji e in absurd (cc (parsed, unparsed))
      | inr other ↦
          let (jobs', e', at) = nop_jobs-unparsed jobs id ji (ground (arith, other, there)) e in
          (
            (uid, with_fields x) ∷ jobs',
            rw (pass_through-with_fields x fields parsed, e') refl,
            λ k. elim (Bool-cases (str_eq uid k)) [
              | inl same ↦ inr (rw same refl)
              | inr differ ↦ rw differ (at k)
            ],
          )
    ]
  ]

module _ {Q : Type 0} where
  abbrev pub OwnNames : Dict (Policy Q) → Type 1
  OwnNames policies = Each (λ k (p : Policy Q). p.name ≡ k) policies

  register_policy-OwnNames :
      (p : Policy Q) (policies : Dict (Policy Q))
      → OwnNames policies
      → OwnNames (register_policy p policies)
  unfolding register_policy
  register_policy-OwnNames p policies h = insert-Each _ p.name p policies h refl

  -- A policy stands in the map under its own name.
  pub init-OwnNames : {R : Type 0} (env : Env R) → OwnNames (init env)
  unfolding init lookup
  init-OwnNames env = register_policy-OwnNames _ _ (
      register_policy-OwnNames _ _
        (register_policy-OwnNames _ _ (register_policy-OwnNames _ _ (λ k p e. absurd cc))))
