-- ===== src/Scheduler/Loop/Equi.antt =====
-- The scheduler with the policy equi comes to rest with the nodes shared equally.
pub mod Session
pub mod Closed
use mathlib.Core.Option
use pinta_scheduler.Prelude.{
  ℕ, ◌≤◌, ◌<◌, String, ◌≡◌, refl, sym, ap, subst, ◌∙◌, ◌⊎◌, inl, inr, true, false, Option, none,
  some, List, [], ◌∷◌, map, arith, is_some, Bool-cases, Option-cases, length,
}
use pinta_scheduler.Prelude.Int.{ℤ, pos, ◌+ℤ◌, eqb_ℤ, eqb_ℤ→eq, two_31}
use pinta_scheduler.Dict.{Dict, lookup, IsMap}
use pinta_scheduler.Dict.Laws.{Each}
use pinta_scheduler.Dict.Sums.{sum_of, sum_of-same}
use pinta_scheduler.Api.{PintaJob, last_status}
use pinta_scheduler.Info.Resource.{QuantityApi}
use pinta_scheduler.Info.Node.{NodeInfo}
use pinta_scheduler.Info.Job.{JobInfo, new_job_info}
use pinta_scheduler.Controller.Result.{ok}
use pinta_scheduler.Scheduler.Cache.{
  PintaCache, snapshot_job, snapshot_jobs, snapshot, snapshot_nodes, get_job_id, is_skipped,
}
use pinta_scheduler.Scheduler.Cache.Laws.{JobEvent, handle_jobs}
use pinta_scheduler.Scheduler.Outcome.{done}
use pinta_scheduler.Scheduler.Session.{
  update_job as close_job, update_all, with_numbers, is_unchanged, open_session,
}
use pinta_scheduler.Scheduler.Equi.{execute, sum_replicas}
use pinta_scheduler.Scheduler.Equi.Pass.{IsOrder, IsFair}
use pinta_scheduler.Scheduler.Equi.Shares.{execute-IsFair}
use pinta_scheduler.Scheduler.Equi.Stable.{execute-IsMap, execute-fair}
use pinta_scheduler.Scheduler.Equi.Kept.{plain, Kept, execute-Kept, sum_replicas-sum_of}
use pinta_scheduler.Scheduler.Policies.{equi}
use pinta_scheduler.Scheduler.Loop.{run_policy}
use pinta_scheduler.Scheduler.Loop.Known.{
  IsKnown, handle_jobs-IsKnown, no_jobs-IsKnown, snapshot_jobs-IsMap, lookup-snapshot,
}
use pinta_scheduler.Scheduler.Loop.Quiet.{snapshot_job-keeps, snapshot-quiet}
use pinta_scheduler.Scheduler.Loop.Settle.{
  stored, after_close, request_of, IsDecided, lookup-closed, nodes-handle_jobs,
}
use pinta_scheduler.Scheduler.Loop.Equi.Session.{
  Info, replicas, IsFair-same, sum-same, Shared, share,
}
use pinta_scheduler.Scheduler.Loop.Equi.Closed.{closed, closed_replicas, next, next-rests}

module _ {Q : Type 0} where
  -- The snapshot has the jobs of the cache.
  seen-IsOrder :
      (unmarshal : String → Option (Unit {0})) (pc : PintaCache Q (Unit {0}))
      → IsKnown pc
      → (o : List String) → IsOrder pc.jobs o
      → IsOrder (snapshot_jobs unmarshal pc.jobs []) o
  seen-IsOrder unmarshal pc h o visit = record {
    unique = visit.unique;
    same_keys = λ k.
        visit.same_keys k
        ∙ sym (ap is_some (lookup-snapshot unmarshal pc k h) ∙ is_some-map (lookup k pc.jobs));
  }
    where
      is_some-map :
          (o : Option (Info Q))
          → is_some (Option.map (λ ji. snapshot_job unmarshal ji) o) ≡ is_some o
      is_some-map none = refl
      is_some-map (some x) = refl

  round :
      (q : QuantityApi Q) (unmarshal : String → Option (Unit {0})) (fuel now : ℕ)
      (orders : ℕ → List String) (pc : PintaCache Q (Unit {0})) (usable : Dict (NodeInfo Q))
      (jobs : Dict (Info Q))
      → snapshot_nodes q pc.nodes [] ≡ ok usable
      → execute fuel orders (snapshot_jobs unmarshal pc.jobs []) (length usable) ≡ some jobs
      → run_policy q now (equi unmarshal fuel orders) pc ≡ done (update_all now jobs) tt
  unfolding run_policy snapshot open_session
  round q unmarshal fuel now orders pc usable jobs shown e = rw (shown, e) refl

  -- From any cache that job events lead to, with at least one job and at least one and fewer than 2^31
  -- nodes that a snapshot shows, a round of the scheduler with the policy equi whose orders visit every
  -- job once returns with as much fuel as there are nodes. Once the API server has stored what it sends
  -- and the informer has told the cache, the replicas of the jobs add up to the number of those nodes,
  -- they differ by at most one from job to job, and the next round returns and sends nothing, whatever
  -- its fuel and its orders are.
  pub run_policy-equi :
      (q : QuantityApi Q) (unmarshal : String → Option (Unit {0})) (fuel fuel' now later : ℕ)
      (orders orders' : ℕ → List String) (es : List (JobEvent Q)) (nodes usable : Dict (NodeInfo Q))
      (id : String) (ji : Info Q)
      → let pc = handle_jobs es (record { nodes = nodes; jobs = [] }) in
        snapshot_nodes q nodes [] ≡ ok usable
        → lookup id pc.jobs ≡ some ji
        → ((i : ℕ) → IsOrder pc.jobs (orders i))
        → 0 < length usable
        → length usable < two_31
        → length usable ≤ fuel
        → (rs : List (String × PintaJob Q)) × (a : ℤ) × (run_policy q now
              (equi unmarshal fuel orders)
              pc
            ≡ done rs tt)
          × (run_policy q later (equi unmarshal fuel' orders') (handle_jobs (map stored rs) pc)
              ≡ done [] tt)
          × (sum_replicas (handle_jobs (map stored rs) pc).jobs ≡ pos (length usable))
          × IsFair (handle_jobs (map stored rs) pc).jobs a
  run_policy-equi q unmarshal fuel fuel' now later orders orders' es nodes usable id ji shown there
        visit some_node small enough =
      let empty : PintaCache Q (Unit {0}) = record { nodes = nodes; jobs = [] } in
      let pc = handle_jobs es empty in
      let h = handle_jobs-IsKnown es empty (no_jobs-IsKnown nodes) in
      let n = length usable in
      let seen = snapshot_jobs unmarshal pc.jobs [] in
      let (jobs, a, e, s) =
        share fuel n orders seen id (snapshot_job unmarshal ji)
          (lookup-snapshot unmarshal pc id h
            ∙ ap (Option.map (λ ji. snapshot_job unmarshal ji)) there)
          (snapshot_jobs-IsMap unmarshal pc.jobs [] tt)
          (λ i. seen-IsOrder unmarshal pc h (orders i) (visit i)) some_node small enough in
      let after = closed unmarshal now n pc h jobs a s in
      let after_known = handle_jobs-IsKnown _ pc h in
      let same = closed_replicas unmarshal now n pc h jobs a s in
      (
        update_all now jobs,
        a,
        round q unmarshal fuel now orders pc usable jobs
            (ap (λ ns. snapshot_nodes q ns []) (nodes-handle_jobs es empty) ∙ shown) e,
        round q unmarshal fuel' later orders' after usable (next unmarshal now n pc h jobs a s)
              (ap (λ ns. snapshot_nodes q ns [])
                  (nodes-handle_jobs _ pc ∙ nodes-handle_jobs es empty)
                ∙ shown)
              (next-rests unmarshal now n pc h jobs a s fuel' orders')
            ∙ ap (λ rs. done rs tt) (snapshot-quiet unmarshal later after after_known),
        sum-same after.jobs jobs after_known.is_map s.is_map same ∙ s.total,
        IsFair-same after.jobs jobs a same s.fair,
      )
