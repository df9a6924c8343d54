-- ===== src/Scheduler/Loop/Known.antt =====
-- What the scheduler's cache knows of a job, and what a snapshot and the policies make of it.
use pinta_scheduler.Prelude.{
  ℕ, String, ◌≡◌, refl, ap, ◌∙◌, inl, inr, false, Option, none, List, [], ◌∷◌, arith, str_eq_iff,
  str_eq_refl, Bool-cases,
}
use pinta_scheduler.Dict.{Dict, lookup, IsMap}
use pinta_scheduler.Dict.Laws.{lookup-nil, insert-IsMap, erase-IsMap, Each, insert-Each, erase-Each}
use mathlib.Core.Option
use pinta_scheduler.Api.{PintaJob, last_status}
use pinta_scheduler.Info.Node.{NodeInfo}
use pinta_scheduler.Info.Job.{JobInfo, new_job_info}
use pinta_scheduler.Scheduler.Cache.{
  PintaCache, is_skipped, get_job_id, with_owners, add_job, delete_job, update_job, snapshot_job,
  snapshot_jobs,
}
use pinta_scheduler.Scheduler.Cache.Laws.{
  JobEvent, put, change, remove, handle_job, handle_jobs, lookup-snapshot_jobs,
}
use pinta_scheduler.Scheduler.Session.{update_job as close_job, update_all}

module _ {Q F : Type 0} where
  -- A job info of the cache is made from a job of its id that is not skipped.
  pub record Known (k : String) (ji : JobInfo Q F) : Type 0 where
    pub made : ji ≡ new_job_info k ji.job
    pub own_id : get_job_id ji.job ≡ k
    pub active : is_skipped (last_status ji.job.status).state ≡ false

  pub record IsKnown (pc : PintaCache Q F) : Type 0 where
    pub is_map : IsMap pc.jobs
    pub known : Each Known pc.jobs

  new_job_info-Known :
      (job : PintaJob Q)
      → is_skipped (last_status job.status).state ≡ false
      → Known (get_job_id job) (new_job_info {F = F} (get_job_id job) job)
  unfolding new_job_info
  new_job_info-Known job active = record { made = refl; own_id = refl; active = active }

  delete_job-IsKnown :
      (job : PintaJob Q) (pc : PintaCache Q F) → IsKnown pc → IsKnown (delete_job job pc)
  unfolding delete_job
  delete_job-IsKnown job pc h = record {
    is_map = erase-IsMap (get_job_id job) pc.jobs h.is_map;
    known = erase-Each Known (get_job_id job) pc.jobs h.known;
  }

  add_job-IsKnown : (job : PintaJob Q) (pc : PintaCache Q F) → IsKnown pc → IsKnown (add_job job pc)
  unfolding add_job
  add_job-IsKnown job pc h = elim (Bool-cases (is_skipped (last_status job.status).state)) [
    | inl skipped ↦ rw skipped h
    | inr used ↦ rw used (record {
      is_map = insert-IsMap (get_job_id job) _ pc.jobs h.is_map;
      known = insert-Each Known (get_job_id job) _ pc.jobs h.known (new_job_info-Known job used);
    })
  ]

  pub handle_jobs-IsKnown :
      (es : List (JobEvent Q)) (pc : PintaCache Q F) → IsKnown pc → IsKnown (handle_jobs es pc)
  unfolding handle_jobs handle_job update_job
  handle_jobs-IsKnown [] pc h = h
  handle_jobs-IsKnown (put job ∷ es) pc h = handle_jobs-IsKnown es _ (add_job-IsKnown job pc h)
  handle_jobs-IsKnown (change old new ∷ es) pc h =
      handle_jobs-IsKnown es _
        (add_job-IsKnown (with_owners old new) _ (delete_job-IsKnown old pc h))
  handle_jobs-IsKnown (remove job ∷ es) pc h =
      handle_jobs-IsKnown es _ (delete_job-IsKnown job pc h)

  pub no_jobs-IsKnown :
      (nodes : Dict (NodeInfo Q))
      → let pc : PintaCache Q F = record { nodes = nodes; jobs = [] } in IsKnown pc
  unfolding lookup
  no_jobs-IsKnown nodes = record { is_map = tt; known = λ k ji e. absurd cc }

  pub snapshot_jobs-IsMap :
      (unmarshal : String → Option F) (jobs out : Dict (JobInfo Q F))
      → IsMap out
      → IsMap (snapshot_jobs unmarshal jobs out)
  unfolding snapshot_jobs
  snapshot_jobs-IsMap unmarshal [] out m = m
  snapshot_jobs-IsMap unmarshal ((uid, ji) ∷ jobs) out m =
      snapshot_jobs-IsMap unmarshal jobs _ (insert-IsMap ji.uid _ out m)

  -- What a snapshot has under an id.
  pub lookup-snapshot :
      (unmarshal : String → Option F) (pc : PintaCache Q F) (k : String)
      → IsKnown pc
      → lookup k (snapshot_jobs unmarshal pc.jobs [])
        ≡ Option.map (λ ji. snapshot_job unmarshal ji) (lookup k pc.jobs)
  unfolding new_job_info
  lookup-snapshot unmarshal pc k h =
      lookup-snapshot_jobs unmarshal k pc.jobs [] h.is_map
        (λ j ji e. ap (λ (x : JobInfo Q F). x.uid) ((h.known j ji e).made))
      ∙ ground (arith, lookup-nil {V = JobInfo Q F} k)

  -- Closing a session sends nothing where every job has the numbers of its last status.
  pub update_all-nothing :
      (now : ℕ) (jobs : Dict (JobInfo Q F))
      → IsMap jobs
      → Each (λ k ji. close_job now ji ≡ none) jobs
      → update_all now jobs ≡ []
  unfolding update_all lookup
  update_all-nothing now [] m h = refl
  update_all-nothing now ((uid, ji) ∷ jobs) m h =
      rw (h uid ji (rw (str_eq_refl uid) refl)) (
        update_all-nothing now jobs m.1 (λ k x e. h k x (ground (arith, m.0, e, str_eq_iff uid k))))
