-- ===== src/Scheduler/Cache/Laws.antt =====
-- Which jobs and nodes a snapshot shows.
use pinta_scheduler.Prelude.{
  String, ◌≡◌, refl, ◌∙◌, inl, inr, false, Option, none, some, List, [], ◌∷◌, arith, str_eq,
  str_eq_iff, str_eq_refl, if◌then◌else◌, Bool-cases,
}
use pinta_scheduler.Dict.{Dict, lookup, insert, IsMap, or_some}
use pinta_scheduler.Dict.Laws.{lookup-nil, lookup-insert, lookup-erase, insert-IsMap, erase-IsMap}
use mathlib.Core.Option
use pinta_scheduler.Api.{PintaJob, last_status}
use pinta_scheduler.Info.Job.{JobInfo, new_job_info}
use pinta_scheduler.Scheduler.Cache.{
  PintaCache, is_skipped, get_job_id, add_job, delete_job, update_job, with_owners, snapshot_job,
  snapshot_jobs,
}

-- Job events of the informer: an update carries the old and the new job.
pub data JobEvent (Q : Type 0) : Type 0 where
  put : PintaJob Q → JobEvent Q
  change : PintaJob Q → PintaJob Q → JobEvent Q
  remove : PintaJob Q → JobEvent Q

module _ {V : Type 0} where
  lookup-cons :
      (uid k : String) (x : V) (m : Dict V)
      → lookup k ((uid, x) ∷ m) ≡ (if str_eq uid k then some x else lookup k m)
  unfolding lookup
  lookup-cons uid k x m = refl

  not_first :
      (uid j : String) (x y : V) (m : Dict V)
      → lookup uid m ≡ none
      → lookup j m ≡ some y
      → lookup j ((uid, x) ∷ m) ≡ some y
  unfolding lookup
  not_first uid j x y m free e = ground (arith, free, e, str_eq_iff uid j)

module _ {Q F : Type 0} where
  unfoldable pub handle_job : JobEvent Q → PintaCache Q F → PintaCache Q F
  unfolding add_job update_job delete_job
  handle_job (put job) pc = add_job job pc
  handle_job (change old new) pc = update_job old new pc
  handle_job (remove job) pc = delete_job job pc

  -- Each job info stands under its own id, and is that of a job that waits for nodes or has some.
  record IsValid (pc : PintaCache Q F) : Type 0 where
    is_map : IsMap pc.jobs
    own_id : (k : String) (ji : JobInfo Q F) → lookup k pc.jobs ≡ some ji → ji.uid ≡ k
    active :
        (k : String) (ji : JobInfo Q F)
        → lookup k pc.jobs ≡ some ji
        → is_skipped (last_status ji.job.status).state ≡ false

  delete_job-IsValid :
      (job : PintaJob Q) (pc : PintaCache Q F) → IsValid pc → IsValid (delete_job job pc)
  unfolding delete_job
  delete_job-IsValid job pc v = record {
    is_map = erase-IsMap (get_job_id job) pc.jobs v.is_map;
    own_id = λ k ji e. ground (arith, e, lookup-erase k (get_job_id job) pc.jobs, v.own_id k ji);
    active = λ k ji e. ground (arith, e, lookup-erase k (get_job_id job) pc.jobs, v.active k ji);
  }

  -- The last step of `addJob`.
  put_job-IsValid :
      (job : PintaJob Q) (pc : PintaCache Q F)
      → is_skipped (last_status job.status).state ≡ false
      → IsValid pc
      → IsValid
          (record pc { jobs = insert (get_job_id job) (new_job_info (get_job_id job) job) pc.jobs })
  unfolding new_job_info
  put_job-IsValid job pc used v =
      let id = get_job_id job in
      record {
        is_map = insert-IsMap id (new_job_info id job) pc.jobs v.is_map;
        own_id = λ k ji e. elim (Bool-cases (str_eq id k)) [
          | inl same ↦
              ground
                (arith, same, e, str_eq_iff id k, lookup-insert k id (new_job_info id job) pc.jobs)
          | inr other ↦
              ground
                (arith, other, e, lookup-insert k id (new_job_info id job) pc.jobs, v.own_id k ji)
        ];
        active = λ k ji e. elim (Bool-cases (str_eq id k)) [
          | inl same ↦
              ground (arith, same, e, used, lookup-insert k id (new_job_info id job) pc.jobs)
          | inr other ↦
              ground
                (arith, other, e, lookup-insert k id (new_job_info id job) pc.jobs, v.active k ji)
        ];
      }

  add_job-IsValid : (job : PintaJob Q) (pc : PintaCache Q F) → IsValid pc → IsValid (add_job job pc)
  unfolding add_job
  add_job-IsValid job pc v = elim (Bool-cases (is_skipped (last_status job.status).state)) [
    | inl skipped ↦ rw skipped v
    | inr used ↦ rw used (put_job-IsValid job pc used v)
  ]

  handle_job-IsValid :
      (e : JobEvent Q) (pc : PintaCache Q F) → IsValid pc → IsValid (handle_job e pc)
  unfolding handle_job update_job
  handle_job-IsValid (put job) pc v = add_job-IsValid job pc v
  handle_job-IsValid (change old new) pc v =
      add_job-IsValid (with_owners old new) (delete_job old pc) (delete_job-IsValid old pc v)
  handle_job-IsValid (remove job) pc v = delete_job-IsValid job pc v

  unfoldable pub handle_jobs : List (JobEvent Q) → PintaCache Q F → PintaCache Q F
  handle_jobs [] pc = pc
  handle_jobs (e ∷ es) pc = handle_jobs es (handle_job e pc)

  handle_jobs-IsValid :
      (es : List (JobEvent Q)) (pc : PintaCache Q F) → IsValid pc → IsValid (handle_jobs es pc)
  unfolding handle_jobs
  handle_jobs-IsValid [] pc v = v
  handle_jobs-IsValid (e ∷ es) pc v =
      handle_jobs-IsValid es (handle_job e pc) (handle_job-IsValid e pc v)

  pub lookup-snapshot_jobs :
      (unmarshal : String → Option F) (k : String) (jobs out : Dict (JobInfo Q F))
      → IsMap jobs
      → ((j : String) (ji : JobInfo Q F) → lookup j jobs ≡ some ji → ji.uid ≡ j)
      → lookup k (snapshot_jobs unmarshal jobs out)
        ≡ or_some (Option.map (λ ji. snapshot_job unmarshal ji) (lookup k jobs)) (lookup k out)
  unfolding snapshot_jobs
  lookup-snapshot_jobs unmarshal k [] out m own = ground (arith, lookup-nil {V = JobInfo Q F} k)
  lookup-snapshot_jobs unmarshal k ((uid, ji) ∷ jobs) out m own =
      let own_uid : ji.uid ≡ uid = own uid ji (unfold lookup in ground (arith, str_eq_refl uid)) in
      let rest =
        lookup-snapshot_jobs unmarshal k jobs (insert ji.uid (snapshot_job unmarshal ji) out) m.1
          (λ j x e. own j x (not_first uid j ji x jobs m.0 e)) in
      rest
      ∙ ground (
        arith,
        own_uid,
        m.0,
        lookup-cons uid k ji jobs,
        str_eq_iff uid k,
        lookup-insert k ji.uid (snapshot_job unmarshal ji) out,
      )

  empty_cache-IsValid : IsValid (record { nodes = []; jobs = [] })
  empty_cache-IsValid = record {
    is_map = tt;
    own_id = λ k ji e. cc (lookup-nil {V = JobInfo Q F} k);
    active = λ k ji e. cc (lookup-nil {V = JobInfo Q F} k);
  }

  -- After any job events a snapshot has, under each id, the copy with decoded fields of the job info
  -- that the cache has under that id, and nothing under an id that the cache lacks.
  pub snapshot_jobs_lem :
      (es : List (JobEvent Q)) (unmarshal : String → Option F) (k : String)
      → let pc = handle_jobs es (record { nodes = []; jobs = [] }) in
        lookup k (snapshot_jobs unmarshal pc.jobs [])
        ≡ Option.map (λ ji. snapshot_job unmarshal ji) (lookup k pc.jobs)
  snapshot_jobs_lem es unmarshal k =
      let pc = handle_jobs es (record { nodes = []; jobs = [] }) in
      let v = handle_jobs-IsValid es (record { nodes = []; jobs = [] }) empty_cache-IsValid in
      lookup-snapshot_jobs unmarshal k pc.jobs [] v.is_map v.own_id
      ∙ ground (arith, lookup-nil {V = JobInfo Q F} k)

  -- After any job events a job info that the cache has stands under its own id, and is of a job whose
  -- last state is neither empty nor Completed.
  pub handle_jobs-active :
      (es : List (JobEvent Q)) (k : String) (ji : JobInfo Q F)
      → lookup k (handle_jobs es (record { nodes = []; jobs = [] })).jobs ≡ some ji
      → (ji.uid ≡ k) × (is_skipped (last_status ji.job.status).state ≡ false)
  handle_jobs-active es k ji e =
      let v = handle_jobs-IsValid es (record { nodes = []; jobs = [] }) empty_cache-IsValid in
      (v.own_id k ji e, v.active k ji e)
