-- ===== src/Controller/JobCache/Cleanup.antt =====
-- The pointers stay sound under every event, and what the cleanup worker takes out of the map.
use pinta_scheduler.Prelude.{
  String, ◌≡◌, refl, inl, inr, true, ◌&&◌, Option, none, some, [], ◌∷◌, ◌++◌, arith, str_eq,
  if◌then◌else◌, Bool-cases, Option-cases, get_elem?,
}
use pinta_scheduler.Dict.{erase}
use pinta_scheduler.Dict.Laws.{lookup-erase}
use pinta_scheduler.Controller.JobCache.{
  done, forget, Pointer, JobInfo, JobCache, QueueCall, add_rate_limited, find, queue_call, key_fn,
  job_key, vc_job_key, new_job_info, set_job, job_terminated, add_found, update_found, delete_found,
  put_vc_job, drop_vc_job, process_cleanup_job, cleanup,
}
use pinta_scheduler.Controller.JobCache.Pointers.{IsValid, view, assign-IsValid, allocate-IsValid}
use mathlib.Core.List.{append_assoc}
use pinta_scheduler.Controller.JobCache.View.{
  JobEvent, add_job, update_job, delete_job, put_vc, drop_vc, handle_job,
}

module _ {Q : Type 0} where
  queue_call-IsValid :
      (call : QueueCall) (jc : JobCache Q) → IsValid jc → IsValid (queue_call call jc)
  queue_call-IsValid call jc v = record { in_heap = v.in_heap; no_alias = v.no_alias }

  -- Each event keeps each pointer of the cache in its heap and no two keys on one pointer, where
  -- that held before.
  pub handle_job-IsValid :
      (e : JobEvent Q) (jc : JobCache Q) → IsValid jc → IsValid (handle_job e jc).1
  unfolding handle_job add_found update_found delete_found put_vc_job drop_vc_job
  handle_job-IsValid (add_job job) jc v = elim (Option-cases (find (job_key job) jc)) [
    | inl missing ↦ rw missing (allocate-IsValid jc v (job_key job) (new_job_info job))
    | inr ((p, ji), found) ↦ rw found (elim (Bool-cases (job_terminated ji)) [
      | inl gone ↦ rw gone (assign-IsValid jc v p (set_job job ji))
      | inr there ↦ rw there v
    ])
  ]
  handle_job-IsValid (update_job job) jc v = elim (Option-cases (find (job_key job) jc)) [
    | inl missing ↦ rw missing v
    | inr ((p, ji), found) ↦ rw found (assign-IsValid jc v p (record ji { job = some job }))
  ]
  handle_job-IsValid (delete_job job) jc v = elim (Option-cases (find (job_key job) jc)) [
    | inl missing ↦ rw missing v
    | inr ((p, ji), found) ↦ rw found (
        queue_call-IsValid (add_rate_limited p) _
          (assign-IsValid jc v p (record ji { job = none })))
  ]
  handle_job-IsValid (put_vc vc) jc v = elim (Option-cases (find (vc_job_key vc) jc)) [
    | inl missing ↦ rw missing (allocate-IsValid jc v (vc_job_key vc) _)
    | inr ((p, ji), found) ↦ rw found (assign-IsValid jc v p (record ji { vc_job = some vc }))
  ]
  handle_job-IsValid (drop_vc vc) jc v = elim (Option-cases (find (vc_job_key vc) jc)) [
    | inl missing ↦ rw missing v
    | inr ((p, ji), found) ↦ rw found (assign-IsValid jc v p (record ji { vc_job = none }))
  ]

  erase-IsValid :
      (k : String) (jc : JobCache Q) → IsValid jc → IsValid (record jc { jobs = erase k jc.jobs })
  erase-IsValid k jc v = record {
    in_heap = λ j p e. ground (arith, e, lookup-erase j k jc.jobs, v.in_heap j p);
    no_alias = λ i j p e f.
        ground (arith, e, f, lookup-erase i k jc.jobs, lookup-erase j k jc.jobs, v.no_alias i j p);
  }

  view-erase :
      (j k : String) (jc : JobCache Q)
      → view j (record jc { jobs = erase k jc.jobs }) ≡ (if str_eq k j then none else view j jc)
  unfolding view find
  view-erase j k jc = ground (arith, lookup-erase j k jc.jobs)

  -- The cleanup of a pointer whose job info has no job takes out of the map whatever stands under the
  -- name of that job info, and records that the queue forgets the pointer; that of one with a job
  -- asks the queue for a retry and leaves the map as it was.
  pub process_cleanup_job_lem :
      (p : Pointer) (ji : JobInfo Q) (jc : JobCache Q) (j : String)
      → get_elem? jc.heap p ≡ some ji
      → let (goes_on, jc') = process_cleanup_job (some p) jc in
        (goes_on ≡ true)
        × (view j jc' ≡ (
            if job_terminated ji && str_eq (key_fn ji.namespace ji.name) j
            then none
            else view j jc))
        × (jc'.deleted_jobs
            ≡ jc.deleted_jobs
              ++ (if job_terminated ji then forget p else add_rate_limited p) ∷ done p ∷ [])
  unfolding process_cleanup_job cleanup view find
  process_cleanup_job_lem p ji jc j e =
      let key = key_fn ji.namespace ji.name in
      (
        refl,
        ground (arith, e, lookup-erase j key jc.jobs),
        ground (
          arith,
          e,
          append_assoc jc.deleted_jobs (forget p ∷ []) (done p ∷ []),
          append_assoc jc.deleted_jobs (add_rate_limited p ∷ []) (done p ∷ []),
        ),
      )

  -- A round of the cleanup worker keeps each pointer of the cache in its heap and no two keys on
  -- one pointer, where that held before.
  pub process_cleanup_job-IsValid :
      (o : Option Pointer) (jc : JobCache Q) → IsValid jc → IsValid (process_cleanup_job o jc).1
  unfolding process_cleanup_job cleanup
  process_cleanup_job-IsValid none jc v = v
  process_cleanup_job-IsValid (some p) jc v =
      queue_call-IsValid (done p) _ (elim (Option-cases (get_elem? jc.heap p)) [
        | inl dangling ↦ rw dangling v
        | inr (ji, there) ↦ rw there (elim (Bool-cases (job_terminated ji)) [
          | inl gone ↦ rw gone (record {
            in_heap = (erase-IsValid (key_fn ji.namespace ji.name) jc v).in_heap;
            no_alias = (erase-IsValid (key_fn ji.namespace ji.name) jc v).no_alias;
          })
          | inr kept ↦ rw kept (queue_call-IsValid (add_rate_limited p) jc v)
        ])
      ])
