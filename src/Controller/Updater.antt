-- ===== src/Controller/Updater.antt =====
-- pkg/controller/pintajob/updater: one attempt to bring a PintaJob forward. The answers of the API
-- server come from `ClusterApi`, by what was sent before, and every request is recorded in order.
pub mod Laws
use pinta_scheduler.Prelude.{ℕ, String, Option, none, some, List, [], ◌∷◌, ◌++◌, Bool, true, false}
use pinta_scheduler.Dict.{Dict}
use pinta_scheduler.Api.{PintaJob, PintaJobState, PintaJobStatus, VcJob, JobPhase, last_status}
use pinta_scheduler.Info.Resource.{QuantityApi}
use pinta_scheduler.Controller.Result.{Result, ok, err, panic, Exec, continue, request_failed}
use pinta_scheduler.Controller.JobType.{build_vc_job, reconcile_vc_job}
use pinta_scheduler.Controller.JobCache.{JobInfo, JobCache, update, add_or_update_vc_job}
use pinta_scheduler.Controller.JobCache.Nodes.{translate_resources}

-- A request to the API server, with its namespace.
pub data Call (Q : Type 0) : Type 0 where
  create_vc_job update_vc_job : String → VcJob Q → Call Q
  update_status : String → PintaJob Q → Call Q

-- The server's answer to a request after others: the object that it stored, or an error.
pub record ClusterApi (Q : Type 0) : Type 0 where
  pub create_answer : List (Call Q) → String → VcJob Q → Option (VcJob Q)
  pub update_answer : List (Call Q) → String → VcJob Q → Option (VcJob Q)
  pub status_answer : List (Call Q) → String → PintaJob Q → Option (PintaJob Q)

pub record World (Q : Type 0) : Type 0 where
  pub cache : JobCache Q
  pub calls : List (Call Q)

module _ {Q : Type 0} where
  abbrev pub in_cache : Exec (JobCache Q) (Unit {0}) → Exec (World Q) (Unit {0})
  in_cache m w = let (r, cache) = m w.cache in (r, record w { cache = cache })

  unfoldable pub get_vc_job_status : JobInfo Q → Result JobPhase
  get_vc_job_status info = elim info.vc_job [ none ↦ panic | some vc ↦ ok vc.phase ]

  unfoldable pub get_last_pinta_job_status : JobInfo Q → Result PintaJobStatus
  get_last_pinta_job_status info = elim info.job [
    | none ↦ panic
    | some job ↦ ok (last_status job.status)
  ]

  -- The job with a new status at the head of its history, which keeps the counts of the last one.
  abbrev pub with_state : ℕ → PintaJobState → PintaJob Q → PintaJob Q
  with_state now state job =
      let last = last_status job.status in
      record job {
        status =
            record {
              state = state;
              last_transition_time = now;
              num_masters = last.num_masters;
              num_replicas = last.num_replicas;
            }
            ∷ job.status;
      }

module _ {Q : Type 0} (q : QuantityApi Q) (api : ClusterApi Q) (now : ℕ) where
  unfoldable pub store_status : Option (PintaJob Q) → Exec (World Q) (Unit {0})
  store_status none w = (err request_failed, w)
  store_status (some job) w = in_cache (update job) w

  unfoldable pub send_status : String → PintaJob Q → Exec (World Q) (Unit {0})
  send_status namespace job w =
      store_status (api.status_answer w.calls namespace job)
        (record w { calls = w.calls ++ update_status namespace job ∷ [] })

  unfoldable pub update_status_of :
      JobInfo Q → Option (PintaJob Q) → PintaJobState → Exec (World Q) (Unit {0})
  update_status_of info none state w = (panic, w)
  update_status_of info (some job) state w = send_status info.namespace (with_state now state job) w

  unfoldable pub update_pinta_job_status_state :
      JobInfo Q → PintaJobState → Exec (World Q) (Unit {0})
  unfolding update_status_of send_status store_status
  update_pinta_job_status_state info state = update_status_of info info.job state

  unfoldable pub store_vc_job : Option (VcJob Q) → Exec (World Q) (Unit {0})
  store_vc_job none w = (err request_failed, w)
  store_vc_job (some vc) w = in_cache (add_or_update_vc_job vc) w

  unfoldable pub send_create : String → VcJob Q → Exec (World Q) (Unit {0})
  send_create namespace vc w =
      store_vc_job (api.create_answer w.calls namespace vc)
        (record w { calls = w.calls ++ create_vc_job namespace vc ∷ [] })

  unfoldable pub send_update : String → VcJob Q → Exec (World Q) (Unit {0})
  send_update namespace vc w =
      store_vc_job (api.update_answer w.calls namespace vc)
        (record w { calls = w.calls ++ update_vc_job namespace vc ∷ [] })

  -- `ReconcileVCJob` gives no change with each of its errors, and on no change `Reconcile` returns
  -- nil before it looks at the error.
  unfoldable pub update_changed : String → Result (VcJob Q × Bool) → Exec (World Q) (Unit {0})
  update_changed namespace (ok (vc, true)) w = send_update namespace vc w
  update_changed namespace (ok (vc, false)) w = (ok tt, w)
  update_changed namespace (err e) w = (ok tt, w)
  update_changed namespace panic w = (panic, w)

  unfoldable pub reconcile_with : String → PintaJob Q → Option (VcJob Q) → Exec (World Q) (Unit {0})
  reconcile_with namespace job none w =
      continue (build_vc_job (λ rl node_type. translate_resources q rl node_type w.cache) job)
        (send_create namespace) w
  reconcile_with namespace job (some vc) w = update_changed namespace (reconcile_vc_job job vc) w

  unfoldable pub reconcile_live : JobInfo Q → PintaJob Q → Option ℕ → Exec (World Q) (Unit {0})
  reconcile_live info job (some t) w = (ok tt, w)
  reconcile_live info job none w = reconcile_with info.namespace job info.vc_job w

  unfoldable pub reconcile_job : JobInfo Q → Option (PintaJob Q) → Exec (World Q) (Unit {0})
  reconcile_job info none w = (panic, w)
  reconcile_job info (some job) w = reconcile_live info job job.deletion_timestamp w

  unfoldable pub reconcile : JobInfo Q → Exec (World Q) (Unit {0})
  unfolding reconcile_job reconcile_live reconcile_with update_changed send_create send_update
      store_vc_job
  reconcile info = reconcile_job info info.job
