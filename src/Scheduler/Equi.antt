-- ===== src/Scheduler/Equi.antt =====
-- pkg/scheduler/policies/equi/equi.go: the policy that shares the nodes equally among the jobs.
pub mod Pass
pub mod Laws
pub mod Shares
pub mod Stable
pub mod Kept
use pinta_scheduler.Prelude.{
  ℕ, zero, suc, String, Option, none, some, List, [], ◌∷◌, Bool, true, false, ◌&&◌, ◌||◌, leb, ◌==◌,
  if◌then◌else◌, length,
}
use pinta_scheduler.Prelude.Int.{ℤ, pos, negsuc, ◌+ℤ◌, ◌-ℤ◌, eqb_ℤ, wrap32, wrap64}
use pinta_scheduler.Dict.{Dict, lookup, insert}
use pinta_scheduler.Info.Job.{JobInfo}

unfoldable pub put_key : ℤ → List ℤ → List ℤ
put_key n [] = n ∷ []
put_key n (m ∷ ms) = let rest = put_key n ms in if eqb_ℤ n m then m ∷ ms else m ∷ rest

-- The difference of the first two elements of `judgeArr` is 1 or -1.
abbrev pub differ_by_one : List ℤ → Bool
differ_by_one (a ∷ b ∷ _) = eqb_ℤ (a -ℤ b) (pos 1) || eqb_ℤ (a -ℤ b) (negsuc 0)
differ_by_one _ = false

module _ {Q F : Type 0} where
  -- The keys of `judge`: the different numbers of replicas.
  unfoldable pub judge : Dict (JobInfo Q F) → List ℤ
  unfolding put_key
  judge [] = []
  judge ((uid, ji) ∷ jobs) = put_key ji.num_replicas (judge jobs)

  unfoldable pub sum_replicas : Dict (JobInfo Q F) → ℤ
  sum_replicas [] = pos 0
  sum_replicas ((uid, ji) ∷ jobs) = ji.num_replicas +ℤ sum_replicas jobs

  -- The three tests that let `Execute` return before it changes a job.
  unfoldable pub is_balanced : Dict (JobInfo Q F) → ℤ → Bool
  is_balanced jobs num_nodes =
      let keys = judge jobs in
      leb (length keys) 2
      && eqb_ℤ num_nodes (sum_replicas jobs)
      && ((length keys == 1) || differ_by_one keys)

  unfoldable pub reset : Dict (JobInfo Q F) → Dict (JobInfo Q F)
  reset [] = []
  reset ((uid, ji) ∷ jobs) = (uid, record ji { num_replicas = pos 0 }) ∷ reset jobs

  unfoldable pub give_to : String → Option (JobInfo Q F) → Dict (JobInfo Q F) → Dict (JobInfo Q F)
  give_to uid none jobs = jobs
  give_to uid (some ji) jobs =
      insert uid (record ji { num_replicas = wrap32 (ji.num_replicas +ℤ pos 1) }) jobs

  -- `job.NumReplicas++`
  unfoldable pub give : String → Dict (JobInfo Q F) → Dict (JobInfo Q F)
  unfolding give_to
  give uid jobs = give_to uid (lookup uid jobs) jobs

  -- The inner loop over the jobs in the given order: the jobs, what is left of `numNodes`, and
  -- whether it returned.
  unfoldable pub pass : List String → Dict (JobInfo Q F) → ℤ → Dict (JobInfo Q F) × ℤ × Bool
  pass [] jobs num_nodes = (jobs, num_nodes, false)
  pass (uid ∷ uids) jobs num_nodes =
      let jobs' = give uid jobs in
      let left = wrap64 (num_nodes -ℤ pos 1) in
      let rest = pass uids jobs' left in if eqb_ℤ left (pos 0) then (jobs', left, true) else rest

  -- The outer loop on fuel. A loop over a map visits it in any order, so the i-th round has an order
  -- of its own.
  unfoldable pub rounds :
      ℕ → (ℕ → List String) → ℕ → Dict (JobInfo Q F) → ℤ → Option (Dict (JobInfo Q F))
  rounds zero orders i jobs num_nodes = none
  rounds (suc fuel) orders i jobs num_nodes =
      let (jobs', left, returned) = pass (orders i) jobs num_nodes in
      let rest = rounds fuel orders (suc i) jobs' left in if returned then some jobs' else rest

  -- The jobs that `Execute` leaves, or none where the fuel is used up.
  unfoldable pub execute :
      ℕ → (ℕ → List String) → Dict (JobInfo Q F) → ℕ → Option (Dict (JobInfo Q F))
  execute fuel orders [] num_nodes = some []
  execute fuel orders (j ∷ jobs) num_nodes =
      let shared = rounds fuel orders 0 (reset (j ∷ jobs)) (pos num_nodes) in
      if is_balanced (j ∷ jobs) (pos num_nodes) then some (j ∷ jobs) else shared
