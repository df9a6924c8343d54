-- ===== src/Scheduler/Equi/Kept.antt =====
-- The policy equi changes the replicas of the jobs and nothing else.
use mathlib.Core.Option
use pinta_scheduler.Prelude.{
  ℕ, zero, suc, String, ◌≡◌, refl, ap, subst, ◌∙◌, inl, inr, some, List, [], ◌∷◌, arith, str_eq,
  str_eq_iff, Bool-cases, Option-cases,
}
use pinta_scheduler.Prelude.Int.{wrap64, ℤ, pos, ◌+ℤ◌, ◌-ℤ◌, eqb_ℤ, wrap32}
use pinta_scheduler.Dict.{Dict, lookup}
use pinta_scheduler.Dict.Laws.{lookup-insert}
use pinta_scheduler.Dict.Sums.{sum_of}
use pinta_scheduler.Info.Job.{JobInfo}
use pinta_scheduler.Scheduler.Equi.{
  sum_replicas, is_balanced, reset, give_to, give, pass, rounds, execute,
}

module _ {Q F : Type 0} where
  -- A job without its replicas.
  abbrev pub plain : JobInfo Q F → JobInfo Q F
  plain ji = record ji { num_replicas = pos 0 }

  abbrev pub Kept : Dict (JobInfo Q F) → Dict (JobInfo Q F) → Type 0
  Kept jobs jobs' =
      (k : String) → Option.map plain (lookup k jobs') ≡ Option.map plain (lookup k jobs)

  reset-Kept : (jobs : Dict (JobInfo Q F)) → Kept jobs (reset jobs)
  unfolding reset lookup
  reset-Kept [] k = refl
  reset-Kept ((uid, ji) ∷ jobs) k = elim (Bool-cases (str_eq uid k)) [
    | inl same ↦ rw same refl
    | inr other ↦ rw other (reset-Kept jobs k)
  ]

  give-Kept : (uid : String) (jobs : Dict (JobInfo Q F)) → Kept jobs (give uid jobs)
  unfolding give give_to
  give-Kept uid jobs k = elim (Option-cases (lookup uid jobs)) [
    | inl missing ↦ rw missing refl
    | inr (ji, there) ↦
        let ji' = record ji { num_replicas = wrap32 (ji.num_replicas +ℤ pos 1) } in
        rw there (
          ap (Option.map plain) (lookup-insert k uid ji' jobs) ∙ elim (Bool-cases (str_eq uid k)) [
            | inl same ↦
                let at_k : lookup k jobs ≡ some ji =
                  ground (arith, same, str_eq_iff uid k, there) in
                rw (same, at_k) refl
            | inr other ↦ rw other refl
          ])
  ]

  pass-Kept : (o : List String) (jobs : Dict (JobInfo Q F)) (n : ℤ) → Kept jobs (pass o jobs n).0
  unfolding pass
  pass-Kept [] jobs n k = refl
  pass-Kept (uid ∷ o) jobs n k =
      let rest = pass-Kept o (give uid jobs) (wrap64 (n -ℤ pos 1)) k in
      elim (Bool-cases (eqb_ℤ (wrap64 (n -ℤ pos 1)) (pos 0))) [
        | inl last ↦ rw last (give-Kept uid jobs k)
        | inr more ↦ rw more (rest ∙ give-Kept uid jobs k)
      ]

  rounds-Kept :
      (fuel i : ℕ) (orders : ℕ → List String) (jobs jobs' : Dict (JobInfo Q F)) (n : ℤ)
      → rounds fuel orders i jobs n ≡ some jobs'
      → Kept jobs jobs'
  unfolding rounds
  rounds-Kept zero i orders jobs jobs' n e k = absurd cc
  rounds-Kept (suc fuel) i orders jobs jobs' n e k =
      let out = pass (orders i) jobs n in
      elim (Bool-cases out.2) [
        | inl last ↦
            subst (λ (js : Dict (JobInfo Q F)). Kept jobs js) {x = out.0} {y = jobs'}
              (ground (arith, last, e)) (pass-Kept (orders i) jobs n) k
        | inr more ↦
            rounds-Kept fuel (suc i) orders out.0 jobs' out.1 (ground (arith, more, e)) k
            ∙ pass-Kept (orders i) jobs n k
      ]

  pub execute-Kept :
      (fuel n : ℕ) (orders : ℕ → List String) (jobs jobs' : Dict (JobInfo Q F))
      → execute fuel orders jobs n ≡ some jobs'
      → Kept jobs jobs'
  unfolding execute
  execute-Kept fuel n orders [] jobs' e k =
      let same : [] ≡ jobs' = cc in
      subst (λ (js : Dict (JobInfo Q F)). Kept [] js) same (λ k. refl) k
  execute-Kept fuel n orders (j ∷ jobs) jobs' e k =
      elim (Bool-cases (is_balanced (j ∷ jobs) (pos n))) [
        | inl balanced ↦
            subst (λ (js : Dict (JobInfo Q F)). Kept (j ∷ jobs) js) {x = j ∷ jobs} {y = jobs'}
              (ground (arith, balanced, e)) (λ k. refl) k
        | inr other ↦
            rounds-Kept fuel 0 orders (reset (j ∷ jobs)) jobs' (pos n) (ground (arith, other, e)) k
            ∙ reset-Kept (j ∷ jobs) k
      ]

  pub sum_replicas-sum_of :
      (jobs : Dict (JobInfo Q F)) → sum_replicas jobs ≡ sum_of (λ ji. ji.num_replicas) jobs
  unfolding sum_replicas sum_of
  sum_replicas-sum_of [] = refl
  sum_replicas-sum_of ((uid, ji) ∷ jobs) = ap (λ n. ji.num_replicas +ℤ n) (sum_replicas-sum_of jobs)
