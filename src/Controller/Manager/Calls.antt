-- ===== src/Controller/Manager/Calls.antt =====
-- The calls on the queues, over any handlers and rounds of the workers.
use pinta_scheduler.Prelude.{
  ℕ, ◌%◌, String, inl, inr, Option, none, some, List, [], ◌∷◌, ◌++◌, ◌<◌, arith, str_eq, ltb,
  is_some, Bool-cases,
}
use pinta_scheduler.Api.{PintaJob, VcJob}
use pinta_scheduler.Info.Resource.{QuantityApi}
use pinta_scheduler.Controller.Result.{Result, ok, err, panic}
use pinta_scheduler.Controller.JobCache.{JobInfo, get}
use pinta_scheduler.Controller.Updater.{ClusterApi, World}
use pinta_scheduler.Controller.State.{execute}
use pinta_scheduler.Controller.Manager.{
  Request, WorkCall, add_request, requeue, forget_request, finish, max_retries, Manager,
  get_job_key_by_req, is_controlled_by, belongs_to_this_routine, add_job, update_job, delete_job,
  drop_vc_job, add_vc_job, update_vc_job, executed, execute_found, handle_request, process_next_req,
}

-- The handlers, and a round of a worker for what its queue gives.
pub data ManagerEvent (Q : Type 0) : Type 0 where
  job_added job_deleted : PintaJob Q → ManagerEvent Q
  job_updated : PintaJob Q → PintaJob Q → ManagerEvent Q
  vc_added vc_deleted : VcJob Q → ManagerEvent Q
  vc_updated : VcJob Q → VcJob Q → ManagerEvent Q
  round : ℕ → Option Request → ManagerEvent Q

module _ {Q : Type 0} (hash : String → ℕ) (workers : ℕ) (q : QuantityApi Q) (api : ClusterApi Q)
    (now : ℕ) (num_requeues : List WorkCall → ℕ → Request → ℕ) where
  unfoldable pub handle_event : ManagerEvent Q → Manager Q → Manager Q
  unfolding add_job update_job delete_job add_vc_job update_vc_job drop_vc_job process_next_req
  handle_event (job_added job) m = add_job hash workers job m
  handle_event (job_updated old new) m = update_job hash workers old new m
  handle_event (job_deleted job) m = delete_job hash workers job m
  handle_event (vc_added vc) m = add_vc_job hash workers vc m
  handle_event (vc_updated old new) m = update_vc_job hash workers old new m
  handle_event (vc_deleted vc) m = drop_vc_job hash workers vc m
  handle_event (round count o) m =
      (process_next_req hash workers q api now num_requeues count o m).1

  pub handle_events : List (ManagerEvent Q) → Manager Q → Manager Q
  unfolding handle_event
  handle_events [] m = m
  handle_events (e ∷ es) m = handle_events es (handle_event e m)

-- A predicate of the calls on the queues that every call of a handler or a worker keeps.
module _ (hash : String → ℕ) (workers : ℕ) (P : List WorkCall → Type 0)
    (keeps_add : (l : List WorkCall) (req : Request)
      → P l
      → P (l ++ add_request (hash (get_job_key_by_req req) % workers) req ∷ [])) where
  module _ {Q : Type 0} where
    drop_vc_job-keeps :
        (vc : VcJob Q) (m : Manager Q) → P m.queues → P (drop_vc_job hash workers vc m).queues
    unfolding drop_vc_job
    drop_vc_job-keeps vc m h = elim (Bool-cases (is_controlled_by vc.owner_references)) [
      | inl ours ↦ rw ours (keeps_add m.queues _ h)
      | inr foreign ↦ rw foreign h
    ]

    add_vc_job-keeps :
        (vc : VcJob Q) (m : Manager Q) → P m.queues → P (add_vc_job hash workers vc m).queues
    unfolding add_vc_job
    add_vc_job-keeps vc m h = elim (Bool-cases (is_controlled_by vc.owner_references)) [
      | inr foreign ↦ rw foreign h
      | inl ours ↦ rw ours (elim (Bool-cases (is_some vc.deletion_timestamp)) [
        | inl gone ↦ rw gone (keeps_add m.queues _ h)
        | inr there ↦ rw there (keeps_add m.queues _ h)
      ])
    ]

    update_vc_job-keeps :
        (old new : VcJob Q) (m : Manager Q)
        → P m.queues
        → P (update_vc_job hash workers old new m).queues
    unfolding update_vc_job
    update_vc_job-keeps old new m h = elim (Bool-cases (is_controlled_by new.owner_references)) [
      | inr foreign ↦ rw foreign h
      | inl ours ↦ rw ours (elim (Bool-cases (str_eq new.resource_version old.resource_version)) [
        | inl same ↦ rw same h
        | inr changed ↦ rw changed (elim (Bool-cases (is_some new.deletion_timestamp)) [
          | inl gone ↦ rw gone (keeps_add m.queues _ h)
          | inr there ↦ rw there (keeps_add m.queues _ h)
        ])
      ])
    ]

    update_job-keeps :
        (old new : PintaJob Q) (m : Manager Q)
        → P m.queues
        → P (update_job hash workers old new m).queues
    unfolding update_job
    update_job-keeps old new m h =
        elim (Bool-cases (str_eq new.resource_version old.resource_version)) [
          | inl same ↦ rw same h
          | inr changed ↦ rw changed (keeps_add m.queues _ h)
        ]

    module _ (q : QuantityApi Q) (api : ClusterApi Q) (now : ℕ)
        (num_requeues : List WorkCall → ℕ → Request → ℕ)
        (keeps_forget : (l : List WorkCall) (count : ℕ) (req : Request)
          → P l
          → P (l ++ forget_request count req ∷ []))
        (keeps_requeue : (l : List WorkCall) (count : ℕ) (req : Request)
          → num_requeues l count req < max_retries
          → P l
          → P (l ++ requeue count req ∷ []))
        (keeps_finish : (l : List WorkCall) (count : ℕ) (req : Request)
          → P l
          → P (l ++ finish count req ∷ [])) where
      executed-keeps :
          (count : ℕ) (req : Request) (out : Result (Unit {0}) × World Q) (m : Manager Q)
          → P m.queues
          → P (executed hash workers q api now num_requeues count req out m).1.queues
      unfolding executed
      executed-keeps count req (ok u, w) m h = keeps_forget m.queues count req h
      executed-keeps count req (err e, w) m h =
          elim (Bool-cases (ltb (num_requeues m.queues count req) 15)) [
            | inl again ↦ rw again (keeps_requeue m.queues count req (ground (arith, again)) h)
            | inr dropped ↦ rw dropped (keeps_forget m.queues count req h)
          ]
      executed-keeps count req (panic, w) m h = h

      execute_found-keeps :
          (count : ℕ) (req : Request) (found : Result (JobInfo Q)) (m : Manager Q)
          → P m.queues
          → P (execute_found hash workers q api now num_requeues count req found m).1.queues
      unfolding execute_found
      execute_found-keeps count req (ok info) m h =
          executed-keeps count req (execute q api now info m.world) m h
      execute_found-keeps count req (err e) m h = h
      execute_found-keeps count req panic m h = h

      handle_request-keeps :
          (count : ℕ) (req : Request) (m : Manager Q)
          → P m.queues
          → P (handle_request hash workers q api now num_requeues count req m).1.queues
      unfolding handle_request
      handle_request-keeps count req m h =
          elim (Bool-cases (belongs_to_this_routine hash workers (get_job_key_by_req req) count)) [
            | inl own ↦
                rw own
                  (execute_found-keeps count req (get (get_job_key_by_req req) m.world.cache) m h)
            | inr foreign ↦ rw foreign (keeps_add m.queues req h)
          ]

      handle_event-keeps :
          (e : ManagerEvent Q) (m : Manager Q)
          → P m.queues
          → P (handle_event hash workers q api now num_requeues e m).queues
      unfolding handle_event add_job delete_job process_next_req
      handle_event-keeps (job_added job) m h = keeps_add m.queues _ h
      handle_event-keeps (job_updated old new) m h = update_job-keeps old new m h
      handle_event-keeps (job_deleted job) m h = h
      handle_event-keeps (vc_added vc) m h = add_vc_job-keeps vc m h
      handle_event-keeps (vc_updated old new) m h = update_vc_job-keeps old new m h
      handle_event-keeps (vc_deleted vc) m h = drop_vc_job-keeps vc m h
      handle_event-keeps (round count none) m h = h
      handle_event-keeps (round count (some req)) m h =
          keeps_finish _ count req (handle_request-keeps count req m h)

      pub handle_events-keeps :
          (es : List (ManagerEvent Q)) (m : Manager Q)
          → P m.queues
          → P (handle_events hash workers q api now num_requeues es m).queues
      unfolding handle_events
      handle_events-keeps [] m h = h
      handle_events-keeps (e ∷ es) m h =
          handle_events-keeps es (handle_event hash workers q api now num_requeues e m)
            (handle_event-keeps e m h)
