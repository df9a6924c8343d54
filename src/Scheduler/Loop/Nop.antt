-- ===== src/Scheduler/Loop/Nop.antt =====
-- The scheduler with the policy nop comes to rest at the numbers of the annotations.
pub mod Session
use pinta_scheduler.Prelude.{
  ℕ, String, ◌≡◌, refl, sym, ap, subst, ◌∙◌, inl, inr, true, Option, none, some, List, [], map,
  arith, or_else, is_some, Bool-cases, Option-cases,
}
use pinta_scheduler.Prelude.Int.{ℤ, eqb_ℤ→eq, eqb_ℤ_refl}
use pinta_scheduler.Scheduler.Outcome.{done, panicked}
use pinta_scheduler.Dict.{Dict, lookup, IsMap}
use pinta_scheduler.Dict.Laws.{Each}
use mathlib.Core.Option
use pinta_scheduler.Api.{PintaJob, last_status}
use pinta_scheduler.Info.Resource.{QuantityApi}
use pinta_scheduler.Info.Node.{NodeInfo}
use pinta_scheduler.Info.Job.{JobInfo, new_job_info, parse_custom_fields, clone}
use pinta_scheduler.Controller.Result.{ok}
use pinta_scheduler.Scheduler.Cache.{
  PintaCache, snapshot_job, snapshot_jobs, snapshot, snapshot_nodes,
}
use pinta_scheduler.Scheduler.Cache.Laws.{JobEvent, handle_jobs}
use pinta_scheduler.Scheduler.Session.{
  update_job as close_job, update_all, with_numbers, is_unchanged, open_session,
}
use pinta_scheduler.Scheduler.Policies.{NopFields, nop}
use pinta_scheduler.Scheduler.Policies.Laws.{with_fields, nop_jobs_lem}
use pinta_scheduler.Scheduler.Loop.{run_policy}
use pinta_scheduler.Scheduler.Loop.Known.{
  IsKnown, handle_jobs-IsKnown, no_jobs-IsKnown, snapshot_jobs-IsMap, lookup-snapshot,
  update_all-nothing,
}
use pinta_scheduler.Scheduler.Loop.Settle.{
  stored, after_close, request_of, IsDecided, lookup-closed, nodes-handle_jobs,
}
use pinta_scheduler.Scheduler.Loop.Nop.Session.{
  decoded_fields, custom_fields_of, AllDecoded, numbers, wanted, decide, given, decide_lem,
  unchanged_numbers, sends_nothing, Round, round,
}

module _ {Q : Type 0} (unmarshal : String → Option NopFields) where
  module _ (q : QuantityApi Q) (now : ℕ) (pc : PintaCache Q NopFields) (h : IsKnown pc)
      (decoded : AllDecoded unmarshal pc) (r : Round unmarshal q now pc) where
    -- A job of the round, and the job info of the cache that it comes from.
    from_cache :
        (k : String) (x : JobInfo Q NopFields)
        → lookup k r.jobs ≡ some x
        → (y : JobInfo Q NopFields) × (f : NopFields) × (lookup k pc.jobs ≡ some y)
          × (custom_fields_of unmarshal y.job ≡ some f)
          × (x ≡ given y f)
    from_cache k x there = elim (Option-cases (lookup k pc.jobs)) [
      | inl missing ↦ absurd (cc (there, missing, r.at k))
      | inr (y, found) ↦
          let (f, e) = decoded_fields (custom_fields_of unmarshal y.job) (decoded k y found) in
          let is_decided : x ≡ decide unmarshal y = ground (arith, there, found, r.at k) in
          (y, f, found, e, is_decided ∙ decide_lem unmarshal y f e)
    ]

    Round-IsDecided : Each IsDecided r.jobs
    Round-IsDecided k x there =
        let (y, f, found, e, is_given) = from_cache k x there in
        let known = h.known k y found in
        rw is_given (record { own_id = known.own_id; active = known.active })

    abbrev closed : PintaCache Q NopFields
    closed = handle_jobs (map stored (update_all now r.jobs)) pc

    closed_missing : (k : String) → lookup k pc.jobs ≡ none → lookup k closed.jobs ≡ none
    unfolding request_of
    closed_missing k missing =
        lookup-closed now k r.jobs pc r.is_map Round-IsDecided
        ∙ ap (λ o. after_close k (request_of now o) (lookup k pc.jobs))
            (r.at k ∙ ap (Option.map (λ ji. decide unmarshal ji)) missing)
        ∙ missing

    closed_entry :
        (k : String) (y : JobInfo Q NopFields) (f : NopFields)
        → lookup k pc.jobs ≡ some y
        → custom_fields_of unmarshal y.job ≡ some f
        → (w : JobInfo Q NopFields) × (lookup k closed.jobs ≡ some w)
          × (custom_fields_of unmarshal w.job ≡ some f)
          × (is_unchanged (given w f) (last_status w.job.status) ≡ true)
    unfolding request_of close_job new_job_info
    closed_entry k y f found e =
        let at_k : lookup k r.jobs ≡ some (given y f) =
          r.at k
          ∙ ap (Option.map (λ ji. decide unmarshal ji)) found
          ∙ ap some (decide_lem unmarshal y f e) in
        let seen =
          lookup-closed now k r.jobs pc r.is_map Round-IsDecided
          ∙ ap (λ o. after_close k (request_of now o) (lookup k pc.jobs)) at_k in
        elim (Bool-cases (is_unchanged (given y f) (last_status y.job.status))) [
          | inl same ↦ (y, seen ∙ rw same found, e, same)
          | inr sent ↦ (
            new_job_info k (with_numbers now (given y f)),
            seen ∙ rw sent refl,
            e,
            ground (arith, eqb_ℤ_refl f.num_masters, eqb_ℤ_refl f.num_replicas),
          )
        ]

    closed-AllDecoded : AllDecoded unmarshal closed
    closed-AllDecoded k x there = elim (Option-cases (lookup k pc.jobs)) [
      | inl missing ↦ absurd (cc (there, closed_missing k missing))
      | inr (y, found) ↦
          let (f, e) = decoded_fields (custom_fields_of unmarshal y.job) (decoded k y found) in
          let (w, at_k, e', same) = closed_entry k y f found e in
          let is_w : w ≡ x = ground (arith, at_k, there) in
          subst (λ (x : JobInfo Q NopFields). is_some (custom_fields_of unmarshal x.job) ≡ true)
            is_w (rw e' refl)
    ]

    closed_numbers :
        (k : String)
        → Option.map numbers (lookup k closed.jobs)
          ≡ Option.map (wanted unmarshal) (lookup k pc.jobs)
    closed_numbers k = elim (Option-cases (lookup k pc.jobs)) [
      | inl missing ↦ rw (missing, closed_missing k missing) refl
      | inr (y, found) ↦
          let (f, e) = decoded_fields (custom_fields_of unmarshal y.job) (decoded k y found) in
          let (w, at_k, e', same) = closed_entry k y f found e in
          ap (Option.map numbers) at_k
          ∙ ap some (
              unchanged_numbers w f same
              ∙ sym (ap (Option.map (λ (f : NopFields). (f.num_masters, f.num_replicas))) e))
          ∙ ap (Option.map (wanted unmarshal)) (sym found)
    ]

    -- The next round sends nothing.
    next-Round : (later : ℕ) (r' : Round unmarshal q later closed) → update_all later r'.jobs ≡ []
    next-Round later r' = update_all-nothing later r'.jobs r'.is_map (λ k x there.
        elim (Option-cases (lookup k pc.jobs)) [
          | inl missing ↦ absurd (cc (there, r'.at k, closed_missing k missing))
          | inr (y, found) ↦
              let (f, e) = decoded_fields (custom_fields_of unmarshal y.job) (decoded k y found) in
              let (w, at_k, e', same) = closed_entry k y f found e in
              let is_w : x ≡ decide unmarshal w = ground (arith, there, at_k, r'.at k) in
              sends_nothing later w x f (is_w ∙ decide_lem unmarshal w f e') same
        ])

  -- From any cache that job events lead to, with annotations that decode and nodes that a snapshot can
  -- show, a round of the scheduler with the policy nop returns. Once the API server has stored what it
  -- sends and the informer has told the cache, the last status of each job has the numbers of its
  -- annotation, no job has come or gone, and the next round returns and sends nothing.
  pub run_policy-settles :
      (q : QuantityApi Q) (now later : ℕ) (es : List (JobEvent Q))
      (nodes usable : Dict (NodeInfo Q))
      → let pc = handle_jobs es (record { nodes = nodes; jobs = [] }) in
        snapshot_nodes q nodes [] ≡ ok usable
        → AllDecoded unmarshal pc
        → (rs : List (String × PintaJob Q)) × (run_policy q now (nop unmarshal) pc ≡ done rs tt)
          × (run_policy q later (nop unmarshal) (handle_jobs (map stored rs) pc) ≡ done [] tt)
          × ((k : String)
              → Option.map numbers (lookup k (handle_jobs (map stored rs) pc).jobs)
                ≡ Option.map (wanted unmarshal) (lookup k pc.jobs))
  run_policy-settles q now later es nodes usable shown decoded =
      let pc : PintaCache Q NopFields = handle_jobs es (record { nodes = nodes; jobs = [] }) in
      let h =
        handle_jobs-IsKnown es (record { nodes = nodes; jobs = [] }) (no_jobs-IsKnown nodes) in
      let r =
        round unmarshal q now pc usable h decoded
          (ap (λ ns. snapshot_nodes q ns []) (nodes-handle_jobs es _) ∙ shown) in
      let pc' = closed q now pc h decoded r in
      let r' =
        round unmarshal q later pc' usable (handle_jobs-IsKnown _ pc h)
          (closed-AllDecoded q now pc h decoded r)
          (ap (λ ns. snapshot_nodes q ns []) (nodes-handle_jobs _ pc ∙ nodes-handle_jobs es _)
            ∙ shown) in
      (
        update_all now r.jobs,
        r.ends,
        r'.ends ∙ ap (λ rs. done rs tt) (next-Round q now pc h decoded r later r'),
        closed_numbers q now pc h decoded r,
      )
