-- ===== src/Scheduler/Loop/Release.antt =====
-- A round of the scheduler with the policy hell and an annotation that does not decode.
use mathlib.Core.Option
use pinta_scheduler.Prelude.{
  ℕ, String, ◌≡◌, refl, sym, ap, ◌∙◌, ◌⊎◌, inl, inr, Option, none, some, List, [], ◌∷◌, map, arith,
  or_else, str_eq, Bool-cases, Option-cases, length,
}
use pinta_scheduler.Prelude.Int.{ℤ, pos, eqb_ℤ→eq}
use pinta_scheduler.Dict.{Dict, lookup, IsMap}
use pinta_scheduler.Dict.Laws.{Each}
use pinta_scheduler.Api.{PintaJob, last_status}
use pinta_scheduler.Info.Resource.{QuantityApi}
use pinta_scheduler.Info.Node.{NodeInfo}
use pinta_scheduler.Info.Job.{new_job_info, parse_custom_fields, clone}
use pinta_scheduler.Controller.Result.{ok}
use pinta_scheduler.Scheduler.Cache.{
  PintaCache, snapshot_job, snapshot_jobs, snapshot, snapshot_nodes, get_job_id, is_skipped,
}
use pinta_scheduler.Scheduler.Cache.Laws.{JobEvent, handle_jobs}
use pinta_scheduler.Scheduler.Outcome.{panicked}
use pinta_scheduler.Scheduler.Session.{
  update_job as close_job, update_all, is_unchanged, open_session,
}
use pinta_scheduler.Scheduler.Hell.Ratios.{FloatApi, HellFields, Job, Pods, clear}
use pinta_scheduler.Scheduler.Hell.Laws.{execute-unparsed}
use pinta_scheduler.Scheduler.Policies.{hell}
use pinta_scheduler.Scheduler.Loop.{run_policy}
use pinta_scheduler.Scheduler.Loop.Known.{
  Known, IsKnown, handle_jobs-IsKnown, no_jobs-IsKnown, snapshot_jobs-IsMap, lookup-snapshot,
}
use pinta_scheduler.Scheduler.Loop.Quiet.{snapshot_job-keeps, snapshot-quiet}
use pinta_scheduler.Scheduler.Loop.Settle.{
  stored, after_close, request_of, IsDecided, lookup-closed, nodes-handle_jobs,
}

module _ {Q R : Type 0} where
  -- The numbers of the last status of a job.
  abbrev pub last_numbers : Job Q R → ℤ × ℤ
  last_numbers ji =
      ((last_status ji.job.status).num_masters, (last_status ji.job.status).num_replicas)

  abbrev zeroed : Job Q R → Job Q R
  zeroed ji = record ji { num_masters = pos 0; num_replicas = pos 0 }

  lookup-clear :
      (k : String) (jobs : Dict (Job Q R))
      → lookup k (clear jobs) ≡ Option.map zeroed (lookup k jobs)
  unfolding lookup clear
  lookup-clear k [] = refl
  lookup-clear k ((id, ji) ∷ jobs) = elim (Bool-cases (str_eq id k)) [
    | inl same ↦ rw same refl
    | inr other ↦ rw other (lookup-clear k jobs)
  ]

  clear-IsMap : (jobs : Dict (Job Q R)) → IsMap jobs → IsMap (clear jobs)
  unfolding clear
  clear-IsMap [] m = tt
  clear-IsMap ((id, ji) ∷ jobs) m =
      (lookup-clear id jobs ∙ ap (Option.map zeroed) m.0, clear-IsMap jobs m.1)

  module _ (unmarshal : String → Option (HellFields R)) (pc : PintaCache Q (HellFields R))
      (h : IsKnown pc) where
    abbrev cleared : Dict (Job Q R)
    cleared = clear (snapshot_jobs unmarshal pc.jobs [])

    lookup-cleared :
        (k : String)
        → lookup k cleared
          ≡ Option.map zeroed (Option.map (λ ji. snapshot_job unmarshal ji) (lookup k pc.jobs))
    lookup-cleared k =
        lookup-clear k (snapshot_jobs unmarshal pc.jobs [])
        ∙ ap (Option.map zeroed) (lookup-snapshot unmarshal pc k h)

    cleared-IsDecided : Each IsDecided cleared
    cleared-IsDecided k x there = elim (Option-cases (lookup k pc.jobs)) [
      | inl missing ↦ absurd (cc (there, missing, lookup-cleared k))
      | inr (y, found) ↦
          let is_zeroed : x ≡ zeroed (snapshot_job unmarshal y) =
            ground (arith, there, found, lookup-cleared k) in
          let known = h.known k y found in
          let same_job : x.job ≡ y.job =
            ap (λ (x : Job Q R). x.job) is_zeroed ∙ (snapshot_job-keeps unmarshal y).2 in
          record {
            own_id = ap get_job_id same_job ∙ known.own_id;
            active = ap (λ j. is_skipped (last_status j.status).state) same_job ∙ known.active;
          }
    ]

    -- The cache once the API server has stored what is sent for the cleared jobs and the informer has
    -- told it.
    abbrev released : ℕ → PintaCache Q (HellFields R)
    released now = handle_jobs (map stored (update_all now cleared)) pc

    lookup-released :
        (now : ℕ) (k : String)
        → lookup k (released now).jobs
          ≡ after_close k (request_of now (lookup k cleared)) (lookup k pc.jobs)
    lookup-released now k =
        lookup-closed now k cleared pc (clear-IsMap _ (snapshot_jobs-IsMap unmarshal pc.jobs [] tt))
          cleared-IsDecided

    after_release :
        (now : ℕ) (k : String) (y : Job Q R)
        → Option.map last_numbers
            (after_close k (close_job now (zeroed (snapshot_job unmarshal y))) (some y))
          ≡ some (pos 0, pos 0)
    unfolding close_job new_job_info
    after_release now k y =
        let z = zeroed (snapshot_job unmarshal y) in
        let same_job : z.job ≡ y.job = (snapshot_job-keeps unmarshal y).2 in
        elim (Bool-cases (is_unchanged z (last_status z.job.status))) [
          | inl same ↦
              let masters =
                eqb_ℤ→eq (pos 0) (last_status z.job.status).num_masters (ground (arith, same)) in
              let replicas =
                eqb_ℤ→eq (pos 0) (last_status z.job.status).num_replicas (ground (arith, same)) in
              rw same (
                ap
                  (λ (j : PintaJob Q).
                    some ((last_status j.status).num_masters, (last_status j.status).num_replicas))
                  (sym same_job)
                ∙ rw (sym masters, sym replicas) refl)
          | inr sent ↦ rw sent refl
        ]

    released_numbers :
        (now : ℕ) (k : String)
        → Option.map last_numbers (lookup k (released now).jobs)
          ≡ Option.map (λ ji. (pos 0, pos 0)) (lookup k pc.jobs)
    unfolding request_of
    released_numbers now k = elim (Option-cases (lookup k pc.jobs)) [
      | inl missing ↦
          ap (Option.map last_numbers) (
            lookup-released now k
            ∙ ap (λ o. after_close k (request_of now o) (lookup k pc.jobs))
                (lookup-cleared k
                  ∙ ap (λ o. Option.map zeroed (Option.map (λ ji. snapshot_job unmarshal ji) o))
                      missing)
            ∙ missing)
          ∙ rw missing refl
      | inr (y, found) ↦
          ap (Option.map last_numbers) (
            lookup-released now k
            ∙ ap (λ o. after_close k (request_of now o) (lookup k pc.jobs))
                (lookup-cleared k
                  ∙ ap (λ o. Option.map zeroed (Option.map (λ ji. snapshot_job unmarshal ji) o))
                      found)
            ∙ ap (after_close k (close_job now (zeroed (snapshot_job unmarshal y)))) found)
          ∙ after_release now k y
          ∙ rw found refl
    ]

  snapshot_job-undecoded :
      (unmarshal : String → Option (HellFields R)) (id : String) (ji : Job Q R)
      → Known id ji
      → unmarshal (or_else (lookup "pinta.qed.usc.edu/custom-fields" ji.job.meta.annotations) "")
        ≡ none
      → (snapshot_job unmarshal ji).custom_fields ≡ none
  unfolding snapshot_job parse_custom_fields clone new_job_info
  snapshot_job-undecoded unmarshal id ji known bad =
      let unset : ji.custom_fields ≡ none = ap (λ (x : Job Q R). x.custom_fields) known.made in
      ground (arith, bad, unset)

  -- From any cache that job events lead to, with nodes that a snapshot can show and a job whose
  -- annotation does not decode, a round of the scheduler with the policy hell panics. The session that
  -- is closed all the same sends nothing, or takes everything from all jobs: once the API server has
  -- stored what it sends and the informer has told the cache, the last status of each job has 0 masters
  -- and 0 replicas, and no job has come or gone.
  pub run_policy-unparsed :
      (q : QuantityApi Q) (unmarshal : String → Option (HellFields R)) (fl : FloatApi R)
      (pods : Pods) (fuel now : ℕ) (orders fill_orders : ℕ → List String) (es : List (JobEvent Q))
      (nodes usable : Dict (NodeInfo Q)) (id : String) (ji : Job Q R)
      → let pc = handle_jobs es (record { nodes = nodes; jobs = [] }) in
        snapshot_nodes q nodes [] ≡ ok usable
        → lookup id pc.jobs ≡ some ji
        → unmarshal (or_else (lookup "pinta.qed.usc.edu/custom-fields" ji.job.meta.annotations) "")
          ≡ none
        → (rs : List (String × PintaJob Q)) × (run_policy q now
              (hell unmarshal fl pods fuel orders fill_orders)
              pc
            ≡ panicked rs)
          × ((rs ≡ [])
              ⊎ ((k : String)
                  → Option.map last_numbers (lookup k (handle_jobs (map stored rs) pc).jobs)
                    ≡ Option.map (λ ji. (pos 0, pos 0)) (lookup k pc.jobs)))
  unfolding run_policy snapshot open_session
  run_policy-unparsed q unmarshal fl pods fuel now orders fill_orders es nodes usable id ji shown
        there bad =
      let pc : PintaCache Q (HellFields R) = handle_jobs es (record { nodes = nodes; jobs = [] }) in
      let h =
        handle_jobs-IsKnown es (record { nodes = nodes; jobs = [] }) (no_jobs-IsKnown nodes) in
      let seen = snapshot_jobs unmarshal pc.jobs [] in
      let at_id : lookup id seen ≡ some (snapshot_job unmarshal ji) =
        lookup-snapshot unmarshal pc id h
        ∙ ap (Option.map (λ ji. snapshot_job unmarshal ji)) there in
      let not_parsed : (snapshot_job unmarshal ji).custom_fields ≡ none =
        snapshot_job-undecoded unmarshal id ji (h.known id ji there) bad in
      let (jobs', e, sent) =
        execute-unparsed fl pods fuel (length usable) orders fill_orders seen id
          (snapshot_job unmarshal ji) at_id not_parsed in
      (
        update_all now jobs',
        rw (nodes-handle_jobs es (record { nodes = nodes; jobs = [] }), shown, e) refl,
        elim sent [
          | inl same ↦ inl (same now ∙ snapshot-quiet unmarshal now pc h)
          | inr all_cleared ↦ inr (λ k.
              ap (λ rs. Option.map last_numbers (lookup k (handle_jobs (map stored rs) pc).jobs))
                (all_cleared now)
              ∙ released_numbers unmarshal pc h now k)
        ],
      )
