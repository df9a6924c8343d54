-- ===== src/Controller/Manager/Laws.antt =====
-- Which queue each request goes to.
use pinta_scheduler.Prelude.{ℕ, ◌%◌, String, ◌≡◌, refl, true, List, [], ◌∷◌, ◌++◌, arith, ◌==◌, All}
use pinta_scheduler.Api.{PintaJob, VcJob}
use pinta_scheduler.Info.Resource.{QuantityApi}
use pinta_scheduler.Controller.Result.{ok}
use pinta_scheduler.Controller.JobType.{Translate, build_vc_job}
use pinta_scheduler.Controller.JobType.Laws.{reconcile_vc_job-build_vc_job}
use pinta_scheduler.Controller.Updater.{ClusterApi}
use pinta_scheduler.Controller.Manager.{
  Request, WorkCall, add_request, Manager, get_job_key_by_req, is_controlled_by,
  belongs_to_this_routine,
}
use pinta_scheduler.Controller.Manager.Calls.{ManagerEvent, handle_events, handle_events-keeps}

module _ (hash : String → ℕ) (workers : ℕ) where
  -- A request is added to the queue of the worker that its key belongs to.
  abbrev pub IsRouted : WorkCall → Type 0
  IsRouted (add_request w req) =
      belongs_to_this_routine hash workers (get_job_key_by_req req) w ≡ true
  IsRouted _ = Unit

  All-snoc :
      (l : List WorkCall) (c : WorkCall) → All IsRouted l → IsRouted c → All IsRouted (l ++ c ∷ [])
  All-snoc [] c h r = (r, tt)
  All-snoc (x ∷ l) c h r = (h.0, All-snoc l c h.1 r)

  own_queue : (n : ℕ) → (n == n) ≡ true
  own_queue n = ground arith

  -- A request that `enqueue` adds goes where its key belongs.
  routed :
      (l : List WorkCall) (req : Request)
      → All IsRouted l
      → All IsRouted (l ++ add_request (hash (get_job_key_by_req req) % workers) req ∷ [])
  routed l req h = All-snoc l _ h (own_queue (hash (get_job_key_by_req req) % workers))

  module _ {Q : Type 0} (q : QuantityApi Q) (api : ClusterApi Q) (now : ℕ)
      (num_requeues : List WorkCall → ℕ → Request → ℕ) where
    -- If each request that was added is on the queue of the worker that its key belongs to, that
    -- is so after any handlers and any rounds of the workers too, whatever the queues hand out.
    pub handle_events-IsRouted :
        (es : List (ManagerEvent Q)) (m : Manager Q)
        → All IsRouted m.queues
        → All IsRouted (handle_events hash workers q api now num_requeues es m).queues
    handle_events-IsRouted =
        handle_events-keeps hash workers (λ l. All IsRouted l) routed q api now num_requeues
          (λ l count req h. All-snoc l _ h tt) (λ l count req few h. All-snoc l _ h tt)
          (λ l count req h. All-snoc l _ h tt)

module _ {Q : Type 0} (translate_resources : Translate Q) where
  -- A Volcano job that is built passes the filter of the handlers of Volcano jobs.
  pub build_vc_job-is_controlled_by :
      (job : PintaJob Q) (vc : VcJob Q)
      → build_vc_job translate_resources job ≡ ok vc
      → is_controlled_by vc.owner_references ≡ true
  unfolding is_controlled_by
  build_vc_job-is_controlled_by job vc e =
      let same = (reconcile_vc_job-build_vc_job translate_resources job vc e).1 in rw same refl
