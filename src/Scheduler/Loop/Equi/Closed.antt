-- ===== src/Scheduler/Loop/Equi/Closed.antt =====
-- The cache once the server has stored what a round of the policy equi sends.
use mathlib.Core.Option
use pinta_scheduler.Prelude.{
  ℕ, String, ◌≡◌, refl, sym, ap, ◌∙◌, inl, inr, Option, none, some, List, [], map, arith,
  Bool-cases, Option-cases,
}
use pinta_scheduler.Prelude.Int.{ℤ, pos, eqb_ℤ→eq}
use pinta_scheduler.Dict.{Dict, lookup}
use pinta_scheduler.Dict.Laws.{Each}
use pinta_scheduler.Api.{PintaJob, last_status}
use pinta_scheduler.Info.Job.{new_job_info}
use pinta_scheduler.Scheduler.Cache.{
  PintaCache, snapshot_job, snapshot_jobs, get_job_id, is_skipped,
}
use pinta_scheduler.Scheduler.Cache.Laws.{handle_jobs}
use pinta_scheduler.Scheduler.Session.{update_job as close_job, update_all, is_unchanged}
use pinta_scheduler.Scheduler.Equi.{execute, sum_replicas}
use pinta_scheduler.Scheduler.Equi.Pass.{IsFair}
use pinta_scheduler.Scheduler.Equi.Stable.{execute-fair}
use pinta_scheduler.Scheduler.Equi.Kept.{plain}
use pinta_scheduler.Scheduler.Loop.Known.{
  IsKnown, handle_jobs-IsKnown, snapshot_jobs-IsMap, lookup-snapshot,
}
use pinta_scheduler.Scheduler.Loop.Quiet.{snapshot_job-keeps}
use pinta_scheduler.Scheduler.Loop.Settle.{
  stored, after_close, request_of, IsDecided, lookup-closed,
}
use pinta_scheduler.Scheduler.Loop.Equi.Session.{Info, replicas, IsFair-same, sum-same, Shared}

module _ {Q : Type 0} where
  module _ (unmarshal : String → Option (Unit {0})) (now n : ℕ) (pc : PintaCache Q (Unit {0}))
      (h : IsKnown pc) (jobs : Dict (Info Q)) (a : ℤ)
      (s : Shared n (snapshot_jobs unmarshal pc.jobs []) jobs a) where
    -- A job of the session is that of the cache but for its replicas.
    decided :
        (k : String) (y : Info Q)
        → lookup k pc.jobs ≡ some y
        → (x : Info Q) × (lookup k jobs ≡ some x) × (x.job ≡ y.job)
    decided k y found =
        let (x, there, same) = some_of_plain (lookup k jobs) (snapshot_job unmarshal y) (
          s.kept k
          ∙ ap (Option.map plain) (
              lookup-snapshot unmarshal pc k h
              ∙ ap (Option.map (λ ji. snapshot_job unmarshal ji)) found)) in
        (x, there, ap (λ (x : Info Q). x.job) same ∙ (snapshot_job-keeps unmarshal y).2)
      where
        some_of_plain :
            (o : Option (Info Q)) (z : Info Q)
            → Option.map plain o ≡ some (plain z)
            → (x : Info Q) × (o ≡ some x) × (plain x ≡ plain z)
        some_of_plain none z e = absurd cc
        some_of_plain (some x) z e = (x, refl, cc)

    missing_too : (k : String) → lookup k pc.jobs ≡ none → lookup k jobs ≡ none
    missing_too k missing = none_of_plain (lookup k jobs) (
        s.kept k
        ∙ ap (Option.map plain) (
            lookup-snapshot unmarshal pc k h
            ∙ ap (Option.map (λ ji. snapshot_job unmarshal ji)) missing))
      where
        none_of_plain : (o : Option (Info Q)) → Option.map plain o ≡ none → o ≡ none
        none_of_plain none e = refl
        none_of_plain (some x) e = absurd cc

    shared-IsDecided : Each IsDecided jobs
    shared-IsDecided k x there = elim (Option-cases (lookup k pc.jobs)) [
      | inl missing ↦ absurd (cc (there, missing_too k missing))
      | inr (y, found) ↦
          let (x', there', same') = decided k y found in
          let is_x : x ≡ x' = ground (arith, there, there') in
          let same_job : x.job ≡ y.job = ap (λ (x : Info Q). x.job) is_x ∙ same' in
          let known = h.known k y found in
          record {
            own_id = ap get_job_id same_job ∙ known.own_id;
            active = ap (λ j. is_skipped (last_status j.status).state) same_job ∙ known.active;
          }
    ]

    abbrev pub closed : PintaCache Q (Unit {0})
    closed = handle_jobs (map stored (update_all now jobs)) pc

    -- The cache has the replicas that the policy gave.
    pub closed_replicas : (k : String) → replicas (lookup k closed.jobs) ≡ replicas (lookup k jobs)
    unfolding request_of close_job new_job_info
    closed_replicas k =
        let seen = lookup-closed now k jobs pc s.is_map shared-IsDecided in
        elim (Option-cases (lookup k pc.jobs)) [
          | inl missing ↦
              let gone = missing_too k missing in
              ap replicas (
                seen ∙ ap (λ o. after_close k (request_of now o) (lookup k pc.jobs)) gone ∙ missing)
              ∙ ap replicas (sym gone)
          | inr (y, found) ↦
              let (x, there, same_job) = decided k y found in
              let at_k =
                seen ∙ ap (λ o. after_close k (request_of now o) (lookup k pc.jobs)) there in
              ap replicas at_k
              ∙ elim (Bool-cases (is_unchanged x (last_status x.job.status))) [
                | inl same ↦
                    let e =
                      eqb_ℤ→eq x.num_replicas (last_status x.job.status).num_replicas
                        (ground (arith, same)) in
                    let known = ap (λ (x : Info Q). x.num_replicas) (h.known k y found).made in
                    let status =
                      ap (λ (j : PintaJob Q). (last_status j.status).num_replicas) same_job in
                    rw (same, found) (ap some (known ∙ sym status ∙ sym e))
                | inr sent ↦ rw sent refl
              ]
              ∙ ap replicas (sym there)
        ]

    -- What the next session sees.
    abbrev pub next : Dict (Info Q)
    next = snapshot_jobs unmarshal closed.jobs []

    next_replicas : (k : String) → replicas (lookup k next) ≡ replicas (lookup k jobs)
    next_replicas k =
        ap replicas (lookup-snapshot unmarshal closed k (handle_jobs-IsKnown _ pc h))
        ∙ snapshot_replicas (lookup k closed.jobs)
        ∙ closed_replicas k
      where
        snapshot_replicas :
            (o : Option (Info Q))
            → replicas (Option.map (λ ji. snapshot_job unmarshal ji) o) ≡ replicas o
        snapshot_replicas none = refl
        snapshot_replicas (some x) = ap some ((snapshot_job-keeps unmarshal x).1)

    next-IsFair : IsFair next a
    next-IsFair = IsFair-same next jobs a next_replicas s.fair

    next-total : sum_replicas next ≡ pos n
    next-total =
        sum-same next jobs (snapshot_jobs-IsMap unmarshal closed.jobs [] tt) s.is_map next_replicas
        ∙ s.total

    pub next-rests : (fuel : ℕ) (orders : ℕ → List String) → execute fuel orders next n ≡ some next
    next-rests fuel orders =
        execute-fair fuel n orders next a next-total next-IsFair
          (snapshot_jobs-IsMap unmarshal closed.jobs [] tt)
