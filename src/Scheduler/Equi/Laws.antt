-- ===== src/Scheduler/Equi/Laws.antt =====
-- The rounds of the policy equi share the nodes equally.
use pinta_scheduler.Prelude.{
  ℕ, zero, suc, ◌+◌, ◌≤◌, ◌<◌, String, ◌≡◌, refl, sym, ap, ◌∙◌, inl, inr, Bool, true, false, Option,
  some, List, [], ◌∷◌, arith, if◌then◌else◌, is_some, Option-cases, length,
}
use pinta_scheduler.Prelude.Int.{ℤ, pos, ◌+ℤ◌, two_31, zero_+ℤ}
use pinta_scheduler.Dict.{Dict, lookup}
use mathlib.Core.Option
use pinta_scheduler.Info.Job.{JobInfo}
use pinta_scheduler.Scheduler.Equi.{sum_replicas, reset, pass, rounds}
use pinta_scheduler.Scheduler.Equi.Pass.{
  add_both, IsOrder, Level, IsFair, SameJobs, Passes, returns, goes_on, pass-Passes, returns,
  goes_on,
}

module _ {Q F : Type 0} where
  abbrev AllAt : Dict (JobInfo Q F) → ℕ → Type 0
  AllAt jobs i = (k : String) (ji : JobInfo Q F) → lookup k jobs ≡ some ji → ji.num_replicas ≡ pos i

  -- `o` holds jobs that share `n` nodes, each of which is given to one of them.
  pub record Shares (jobs : Dict (JobInfo Q F)) (n : ℕ) (o : Option (Dict (JobInfo Q F)))
      : Type 0 where
    pub shared : Dict (JobInfo Q F)
    pub is_left : o ≡ some shared
    pub total : sum_replicas shared ≡ sum_replicas jobs +ℤ pos n
    pub least : ℤ
    pub fair : IsFair shared least
    pub same_jobs : SameJobs jobs shared

  AllAt-Level :
      (jobs0 jobs : Dict (JobInfo Q F)) (o : List String) (i : ℕ)
      → IsOrder jobs0 o
      → SameJobs jobs0 jobs
      → AllAt jobs i
      → Level jobs o i
  unfolding Level
  AllAt-Level jobs0 jobs o i w same h k ji e = ground (arith, e, w.same_keys k, same k, h k ji e)

  visits_some :
      (jobs0 : Dict (JobInfo Q F)) (o : List String) (uid : String)
      → IsOrder jobs0 o
      → is_some (lookup uid jobs0) ≡ true
      → 1 ≤ length o
  visits_some jobs0 [] uid w there = ground (arith, w.same_keys uid)
  visits_some jobs0 (k ∷ o) uid w there = ground arith

  after_pass :
      (o : List String) (i r : ℕ) (jobs : Dict (JobInfo Q F)) (out : Dict (JobInfo Q F) × ℤ × Bool)
      (rest : Option (Dict (JobInfo Q F)))
      → Passes o i r jobs out
      → ((jobs' : Dict (JobInfo Q F)) (left : ℕ)
          → out ≡ (jobs', pos (suc left), false)
          → left + length o ≡ r
          → AllAt jobs' (suc i)
          → SameJobs jobs jobs'
          → Shares jobs' (suc left) rest)
      → Shares jobs (suc r) (if out.2 then some out.0 else rest)
  unfolding Level
  after_pass o i r jobs out rest (returns jobs' total fair same) next = record {
    shared = jobs';
    is_left = refl;
    total = total;
    least = pos i;
    fair = fair;
    same_jobs = same;
  }
  after_pass o i r jobs out rest (goes_on jobs' left used total level same) next =
      let s = next jobs' left refl used level same in
      record {
        shared = s.shared;
        is_left = s.is_left;
        total =
            add_both _ _ _ (suc left) (length o) s.total total
            ∙ ap (λ n. sum_replicas jobs +ℤ pos n) (ground (arith, used));
        least = s.least;
        fair = s.fair;
        same_jobs = λ k. s.same_jobs k ∙ same k;
      }

  module _ (jobs0 : Dict (JobInfo Q F)) (orders : ℕ → List String) (uid : String)
      (visit : (n : ℕ) → IsOrder jobs0 (orders n)) (there : is_some (lookup uid jobs0) ≡ true) where
    pub rounds-Shares :
        (fuel i r : ℕ) (jobs : Dict (JobInfo Q F))
        → r < fuel
        → suc i + r < two_31
        → SameJobs jobs0 jobs
        → AllAt jobs i
        → Shares jobs (suc r) (rounds fuel orders i jobs (pos (suc r)))
    unfolding rounds
    rounds-Shares zero i r jobs enough small same level = ground arith
    rounds-Shares (suc fuel) i r jobs enough small same level =
        let w = visit i in
        let some_visit = visits_some jobs0 (orders i) uid w there in
        after_pass (orders i) i r jobs (pass (orders i) jobs (pos (suc r))) _
          (pass-Passes (orders i) i r jobs (ground (arith, small)) (ground (arith, small)) w.unique
            (λ k e. same k ∙ sym (w.same_keys k) ∙ e)
            (AllAt-Level jobs0 jobs (orders i) i w same level))
          (λ jobs' left went used level' same'. rw went (
            rounds-Shares fuel (suc i) left jobs' (ground (arith, used, some_visit, enough))
              (ground (arith, used, some_visit, small)) (λ k. same' k ∙ same k) level'))

  lookup-reset :
      (k : String) (jobs : Dict (JobInfo Q F))
      → lookup k (reset jobs)
        ≡ Option.map (λ (ji : JobInfo Q F). record ji { num_replicas = pos 0 }) (lookup k jobs)
  unfolding lookup reset
  lookup-reset k [] = refl
  lookup-reset k ((uid, ji) ∷ jobs) = ground (arith, lookup-reset k jobs)

  pub sum_replicas-reset : (jobs : Dict (JobInfo Q F)) → sum_replicas (reset jobs) ≡ pos 0
  unfolding sum_replicas reset
  sum_replicas-reset [] = refl
  sum_replicas-reset ((uid, ji) ∷ jobs) = rw (sum_replicas-reset jobs) (zero_+ℤ (pos 0))

  pub AllAt-reset : (jobs : Dict (JobInfo Q F)) → AllAt (reset jobs) 0
  AllAt-reset jobs k ji e = elim (Option-cases (lookup k jobs)) [
    | inl missing ↦ ground (arith, e, missing, lookup-reset k jobs)
    | inr (x, found) ↦ ground (arith, e, found, lookup-reset k jobs)
  ]

  pub SameJobs-reset : (jobs : Dict (JobInfo Q F)) → SameJobs jobs (reset jobs)
  SameJobs-reset jobs k = ground (arith, lookup-reset k jobs)
