-- ===== src/Scheduler/Loop/Quiet.antt =====
-- A session that changes no numbers sends nothing when it is closed.
use pinta_scheduler.Scheduler.Session.{update_all}
use pinta_scheduler.Prelude.{
  ℕ, String, ◌≡◌, sym, ap, subst, ◌∙◌, inl, inr, Option, none, [], arith, Option-cases,
}
use pinta_scheduler.Prelude.Int.{eqb_ℤ, eqb_ℤ_refl}
use pinta_scheduler.Dict.{lookup}
use pinta_scheduler.Api.{PintaJob, last_status}
use pinta_scheduler.Info.Job.{JobInfo, new_job_info, parse_custom_fields, clone}
use pinta_scheduler.Scheduler.Cache.{PintaCache, snapshot_job, snapshot_jobs}
use pinta_scheduler.Scheduler.Session.{update_job as close_job}
use pinta_scheduler.Scheduler.Loop.Known.{
  IsKnown, Known, snapshot_jobs-IsMap, lookup-snapshot, update_all-nothing,
}

module _ {Q F : Type 0} where
  pub snapshot_job-keeps :
      (unmarshal : String → Option F) (ji : JobInfo Q F)
      → let x = snapshot_job unmarshal ji in
        (x.num_masters ≡ ji.num_masters) × (x.num_replicas ≡ ji.num_replicas) × (x.job ≡ ji.job)
  unfolding snapshot_job parse_custom_fields clone
  snapshot_job-keeps unmarshal ji = ground arith

  quiet :
      (now : ℕ) (x : JobInfo Q F)
      → x.num_masters ≡ (last_status x.job.status).num_masters
      → x.num_replicas ≡ (last_status x.job.status).num_replicas
      → close_job now x ≡ none
  unfolding close_job
  quiet now x masters replicas = ground (
    arith,
    ap (λ n. eqb_ℤ n (last_status x.job.status).num_masters) masters,
    ap (λ n. eqb_ℤ n (last_status x.job.status).num_replicas) replicas,
    eqb_ℤ_refl (last_status x.job.status).num_masters,
    eqb_ℤ_refl (last_status x.job.status).num_replicas,
  )

  Known-unchanged :
      (unmarshal : String → Option F) (k : String) (ji : JobInfo Q F) (now : ℕ)
      → Known k ji
      → close_job now (snapshot_job unmarshal ji) ≡ none
  unfolding new_job_info
  Known-unchanged unmarshal k ji now h =
      let (masters, replicas, job) = snapshot_job-keeps unmarshal ji in
      quiet now (snapshot_job unmarshal ji)
        (masters
          ∙ ap (λ (x : JobInfo Q F). x.num_masters) h.made
          ∙ ap (λ (j : PintaJob Q). (last_status j.status).num_masters) (sym job))
        (replicas
          ∙ ap (λ (x : JobInfo Q F). x.num_replicas) h.made
          ∙ ap (λ (j : PintaJob Q). (last_status j.status).num_replicas) (sym job))

  -- The jobs of a snapshot have the numbers of their last statuses.
  pub snapshot-quiet :
      (unmarshal : String → Option F) (now : ℕ) (pc : PintaCache Q F)
      → IsKnown pc
      → update_all now (snapshot_jobs unmarshal pc.jobs []) ≡ []
  snapshot-quiet unmarshal now pc h =
      let seen = snapshot_jobs unmarshal pc.jobs [] in
      update_all-nothing now seen (snapshot_jobs-IsMap unmarshal pc.jobs [] tt) (λ k ji there.
        elim (Option-cases (lookup k pc.jobs)) [
          | inl missing ↦ absurd (cc (there, missing, lookup-snapshot unmarshal pc k h))
          | inr (x, found) ↦
              subst (λ (y : JobInfo Q F). close_job now y ≡ none) {x = snapshot_job unmarshal x}
                {y = ji} (ground (arith, there, found, lookup-snapshot unmarshal pc k h))
                (Known-unchanged unmarshal k x now (h.known k x found))
        ])
