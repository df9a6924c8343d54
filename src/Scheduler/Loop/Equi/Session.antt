-- ===== src/Scheduler/Loop/Equi/Session.antt =====
-- What one run of the policy equi leaves, as a session sees it.
use mathlib.Core.Option
use pinta_scheduler.Prelude.{
  ℕ, ◌≤◌, ◌<◌, String, ◌≡◌, sym, ap, ◌∙◌, inl, inr, Option, some, List, [], ◌∷◌, Option-cases,
}
use pinta_scheduler.Prelude.Int.{ℤ, pos, two_31}
use pinta_scheduler.Dict.{Dict, lookup, IsMap}
use pinta_scheduler.Dict.Sums.{sum_of-same}
use pinta_scheduler.Info.Job.{JobInfo}
use pinta_scheduler.Scheduler.Equi.{execute, sum_replicas}
use pinta_scheduler.Scheduler.Equi.Pass.{IsOrder, IsFair}
use pinta_scheduler.Scheduler.Equi.Shares.{execute-IsFair}
use pinta_scheduler.Scheduler.Equi.Stable.{execute-IsMap}
use pinta_scheduler.Scheduler.Equi.Kept.{Kept, execute-Kept, sum_replicas-sum_of}

abbrev pub Info : Type 0 → Type 0
Info Q = JobInfo Q (Unit {0})

module _ {Q : Type 0} where
  abbrev pub replicas : Option (Info Q) → Option ℤ
  replicas o = Option.map (λ ji. ji.num_replicas) o

  -- Jobs that have the same replicas as others under the same keys share the nodes as those do.
  pub IsFair-same :
      (jobs jobs' : Dict (Info Q)) (a : ℤ)
      → ((k : String) → replicas (lookup k jobs) ≡ replicas (lookup k jobs'))
      → IsFair jobs' a
      → IsFair jobs a
  IsFair-same jobs jobs' a same fair k ji there = elim (Option-cases (lookup k jobs')) [
    | inl missing ↦ absurd (cc (ap replicas (sym there) ∙ same k ∙ ap replicas missing))
    | inr (x, found) ↦
        let equal : ji.num_replicas ≡ x.num_replicas =
          some_inj (ap replicas (sym there) ∙ same k ∙ ap replicas found) in
        elim (fair k x found) [ inl low ↦ inl (equal ∙ low) | inr high ↦ inr (equal ∙ high) ]
  ]
    where
      some_inj : {m n : ℤ} → some m ≡ some n → m ≡ n
      some_inj e = cc

  pub sum-same :
      (jobs jobs' : Dict (Info Q))
      → IsMap jobs
      → IsMap jobs'
      → ((k : String) → replicas (lookup k jobs) ≡ replicas (lookup k jobs'))
      → sum_replicas jobs ≡ sum_replicas jobs'
  sum-same jobs jobs' m m' same =
      sum_replicas-sum_of jobs
      ∙ sum_of-same (λ (ji : Info Q). ji.num_replicas) jobs jobs' m m' same
      ∙ sym (sum_replicas-sum_of jobs')

  -- What the policy leaves: a share for each job, and nothing else changed.
  pub record Shared (n : ℕ) (seen jobs : Dict (Info Q)) (a : ℤ) : Type 0 where
    pub is_map : IsMap jobs
    pub kept : Kept seen jobs
    pub total : sum_replicas jobs ≡ pos n
    pub fair : IsFair jobs a

  pub share :
      (fuel n : ℕ) (orders : ℕ → List String) (seen : Dict (Info Q)) (id : String) (ji : Info Q)
      → lookup id seen ≡ some ji
      → IsMap seen
      → ((i : ℕ) → IsOrder seen (orders i))
      → 0 < n
      → n < two_31
      → n ≤ fuel
      → (jobs : Dict (Info Q)) × (a : ℤ) × (execute fuel orders seen n ≡ some jobs)
        × Shared n seen jobs a
  unfolding lookup
  share fuel n orders [] id ji there m visit some_node small enough = absurd cc
  share fuel n orders ((uid, x) ∷ seen) id ji there m visit some_node small enough =
      let (jobs, a, e, total, fair, _) =
        execute-IsFair fuel n orders uid x seen visit some_node small enough in
      (
        jobs,
        a,
        e,
        record {
          is_map = execute-IsMap fuel n orders ((uid, x) ∷ seen) jobs m e;
          kept = execute-Kept fuel n orders ((uid, x) ∷ seen) jobs e;
          total = total;
          fair = fair;
        },
      )
