-- ===== src/Controller/JobCache/View.antt =====
-- The map from keys to job infos that the job cache implements, one step for each event.
use pinta_scheduler.Prelude.{
  String, ◌≡◌, refl, inl, inr, Option, none, some, arith, str_eq, str_eq_iff, if◌then◌else◌,
  Option-cases,
}
use mathlib.Core.Option
use pinta_scheduler.Api.{PintaJob, VcJob}
use pinta_scheduler.Controller.Result.{Result, ok, err, Exec, job_not_found, duplicated_job}
use pinta_scheduler.Controller.JobCache.{
  Pointer, JobInfo, JobCache, QueueCall, add_rate_limited, find, assign, queue_call, job_key,
  vc_job_key, new_job_info, set_job, job_terminated, add, add_found, update, update_found, delete,
  delete_found, get, found_job, clone_info, add_or_update_vc_job, put_vc_job, delete_vc_job,
  drop_vc_job,
}
use pinta_scheduler.Controller.JobCache.Pointers.{IsValid, view, view-assign, view-allocate}

pub data JobEvent (Q : Type 0) : Type 0 where
  add_job update_job delete_job : PintaJob Q → JobEvent Q
  put_vc drop_vc : VcJob Q → JobEvent Q

module _ {Q : Type 0} where
  -- The method of the cache that an event calls.
  unfoldable pub handle_job : JobEvent Q → Exec (JobCache Q) (Unit {0})
  unfolding add update delete add_or_update_vc_job delete_vc_job
  handle_job (add_job job) = add job
  handle_job (update_job job) = update job
  handle_job (delete_job job) = delete job
  handle_job (put_vc vc) = add_or_update_vc_job vc
  handle_job (drop_vc vc) = delete_vc_job vc

  abbrev pub event_key : JobEvent Q → String
  event_key (add_job job) = job_key job
  event_key (update_job job) = job_key job
  event_key (delete_job job) = job_key job
  event_key (put_vc vc) = vc_job_key vc
  event_key (drop_vc vc) = vc_job_key vc

  -- What an event does to the entry of its key, and what its caller gets.
  abbrev pub entry_after : JobEvent Q → Option (JobInfo Q) → Option (JobInfo Q)
  entry_after (add_job job) none = some (new_job_info job)
  entry_after (add_job job) (some ji) = if job_terminated ji then some (set_job job ji) else some ji
  entry_after (update_job job) none = none
  entry_after (update_job job) (some ji) = some (record ji { job = some job })
  entry_after (delete_job job) none = none
  entry_after (delete_job job) (some ji) = some (record ji { job = none })
  entry_after (put_vc vc) none =
      some (record { namespace = ""; name = ""; job = none; vc_job = some vc })
  entry_after (put_vc vc) (some ji) = some (record ji { vc_job = some vc })
  entry_after (drop_vc vc) none = none
  entry_after (drop_vc vc) (some ji) = some (record ji { vc_job = none })

  abbrev pub reply : JobEvent Q → Option (JobInfo Q) → Result (Unit {0})
  reply (add_job job) (some ji) =
      if job_terminated ji then ok tt else err (duplicated_job (job_key job))
  reply (update_job job) none = err (job_not_found (job_key job))
  reply (delete_job job) none = err (job_not_found (job_key job))
  reply _ _ = ok tt

  abbrev Refines : JobEvent Q → JobCache Q → Option (Pointer × JobInfo Q) → Type 0
  Refines e jc o =
      (j : String)
      → ((handle_job e jc).0 ≡ reply e (Option.map (λ f. f.1) o))
        × (view j (handle_job e jc).1 ≡ (
            if str_eq (event_key e) j then entry_after e (Option.map (λ f. f.1) o) else view j jc))

  pub find-queue_call :
      (j : String) (call : QueueCall) (jc : JobCache Q) → find j (queue_call call jc) ≡ find j jc
  unfolding find
  find-queue_call j call jc = refl

  module _ (jc : JobCache Q) (v : IsValid jc) where
    handle_job-missing : (e : JobEvent Q) → find (event_key e) jc ≡ none → Refines e jc none
    unfolding handle_job add_found update_found delete_found put_vc_job drop_vc_job view
    handle_job-missing (add_job job) h j =
        ground (arith, h, view-allocate jc v j (job_key job) (new_job_info job))
    handle_job-missing (update_job job) h j = ground (arith, h, str_eq_iff (job_key job) j)
    handle_job-missing (delete_job job) h j = ground (arith, h, str_eq_iff (job_key job) j)
    handle_job-missing (put_vc vc) h j = ground (
      arith,
      h,
      view-allocate jc v j (vc_job_key vc)
          (record { namespace = ""; name = ""; job = none; vc_job = some vc }),
    )
    handle_job-missing (drop_vc vc) h j = ground (arith, h, str_eq_iff (vc_job_key vc) j)

    handle_job-found :
        (e : JobEvent Q) (p : Pointer) (ji : JobInfo Q)
        → find (event_key e) jc ≡ some (p, ji)
        → Refines e jc (some (p, ji))
    unfolding handle_job add_found update_found delete_found put_vc_job drop_vc_job view
    handle_job-found (add_job job) p ji h j = ground (
      arith,
      h,
      view-assign jc v j (job_key job) p ji (set_job job ji) h,
      str_eq_iff (job_key job) j,
    )
    handle_job-found (update_job job) p ji h j =
        ground (arith, h, view-assign jc v j (job_key job) p ji (record ji { job = some job }) h)
    handle_job-found (delete_job job) p ji h j = ground (
      arith,
      h,
      view-assign jc v j (job_key job) p ji (record ji { job = none }) h,
      find-queue_call j (add_rate_limited p) (assign p (record ji { job = none }) jc),
    )
    handle_job-found (put_vc vc) p ji h j =
        ground
          (arith, h, view-assign jc v j (vc_job_key vc) p ji (record ji { vc_job = some vc }) h)
    handle_job-found (drop_vc vc) p ji h j =
        ground (arith, h, view-assign jc v j (vc_job_key vc) p ji (record ji { vc_job = none }) h)

  -- In a cache where no two keys share a pointer and each pointer is in the heap, each event of
  -- jobs and of Volcano jobs does to the entry of its key what the map of job infos says, gives its
  -- caller the reply that the map says, and leaves every other entry as it was.
  pub handle_job_lem :
      (e : JobEvent Q) (jc : JobCache Q) (j : String)
      → IsValid jc
      → let entry = view (event_key e) jc in
        ((handle_job e jc).0 ≡ reply e entry)
        × (view j (handle_job e jc).1
            ≡ (if str_eq (event_key e) j then entry_after e entry else view j jc))
  unfolding view
  handle_job_lem e jc j v = elim (Option-cases (find (event_key e) jc)) [
    | inl missing ↦ rw missing (handle_job-missing jc v e missing j)
    | inr ((p, ji), found) ↦ rw found (handle_job-found jc v e p ji found j)
  ]

  pub get-view :
      (k : String) (jc : JobCache Q) (ji : JobInfo Q) (job : PintaJob Q)
      → view k jc ≡ some ji
      → ji.job ≡ some job
      → get k jc ≡ ok ji
  unfolding get view found_job clone_info
  get-view k jc ji job there has = elim (Option-cases (find k jc)) [
    | inl missing ↦ absurd (ground (arith, missing, there))
    | inr ((p, x), found) ↦
        let is_ji : x ≡ ji = ground (arith, found, there) in rw (found, is_ji, has) refl
  ]
