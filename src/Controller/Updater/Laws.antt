-- ===== src/Controller/Updater/Laws.antt =====
-- Which requests an action sends to the API server.
use pinta_scheduler.Prelude.{
  ℕ, String, ◌≡◌, refl, sym, ap, ◌∙◌, Bool, true, false, Option, none, some, List, [], ◌∷◌, ◌++◌,
  if◌then◌else◌, All,
}
use mathlib.Core.List.{append-nil, append_assoc}
use pinta_scheduler.Api.{PintaJob, PintaJobState, VcJob}
use pinta_scheduler.Info.Resource.{QuantityApi}
use pinta_scheduler.Controller.Result.{Result, ok, err, panic, Exec, continue}
use pinta_scheduler.Controller.JobType.{build_vc_job, reconcile_vc_job}
use pinta_scheduler.Controller.JobCache.{JobInfo, JobCache}
use pinta_scheduler.Controller.JobCache.Nodes.{translate_resources}
use pinta_scheduler.Controller.Updater.{
  Call, ClusterApi, World, create_vc_job, update_vc_job, update_status, in_cache, with_state,
  store_status, send_status, update_status_of, update_pinta_job_status_state, store_vc_job,
  send_create, send_update, update_changed, reconcile_with, reconcile_live, reconcile_job,
  reconcile,
}

module _ {Q : Type 0} {A : Type 0} where
  -- Every request that `m` sends satisfies `P`, and none that was sent is lost.
  pub record Sends (P : Call Q → Type 0) (m : Exec (World Q) A) : Type 0 where
    pub at : (w : World Q) → (l : List (Call Q)) × ((m w).1.calls ≡ w.calls ++ l) × All P l

All-append :
    {Q : Type 0} (P : Call Q → Type 0) (xs ys : List (Call Q))
    → All P xs
    → All P ys
    → All P (xs ++ ys)
All-append P [] ys hx hy = hy
All-append P (x ∷ xs) ys hx hy = (hx.0, All-append P xs ys hx.1 hy)

module _ {Q : Type 0} {P : Call Q → Type 0} where
  pub Sends-return : {A : Type 0} (r : Result A) → Sends P (λ w. (r, w))
  Sends-return r = record { at = λ w. ([], sym (append-nil w.calls), tt) }

  pub Sends-if :
      {A : Type 0} (b : Bool) (m n : Exec (World Q) A)
      → (b ≡ true → Sends P m)
      → (b ≡ false → Sends P n)
      → Sends P (λ w. if b then m w else n w)
  Sends-if true m n hm hn = hm refl
  Sends-if false m n hm hn = hn refl

  pub Sends-continue :
      {A B : Type 0} (r : Result A) (f : A → Exec (World Q) B)
      → ((a : A) → r ≡ ok a → Sends P (f a))
      → Sends P (continue r f)
  Sends-continue (ok a) f h = h a refl
  Sends-continue (err e) f h = record { at = λ w. ([], sym (append-nil w.calls), tt) }
  Sends-continue panic f h = record { at = λ w. ([], sym (append-nil w.calls), tt) }

  pub Sends-ok :
      {A B : Type 0} (r : Result A) (a : A) (f : A → Exec (World Q) B)
      → r ≡ ok a
      → Sends P (f a)
      → Sends P (λ w. continue r f w)
  Sends-ok r a f e h = rw e h

  pub Sends-panic :
      {A B : Type 0} (r : Result A) (f : A → Exec (World Q) B)
      → r ≡ panic
      → Sends P (λ w. continue r f w)
  Sends-panic r f e = rw e (Sends-return panic)

  pub Sends-bind :
      {A B : Type 0} (m : Exec (World Q) A) (f : A → Exec (World Q) B)
      → Sends P m
      → ((a : A) → Sends P (f a))
      → Sends P (λ w. let (r, w') = m w in continue r f w')
  Sends-bind m f hm hf = record {
    at = λ w.
        let (r, w') = m w in
        let (l, e, p) = hm.at w in
        let (l', e', p') = (Sends-continue r f (λ a _. hf a)).at w' in
        (l ++ l', e' ∙ ap (λ x. x ++ l') e ∙ append_assoc w.calls l l', All-append P l l' p p');
  }

  -- An action on the cache sends nothing.
  in_cache-Sends : (m : Exec (JobCache Q) (Unit {0})) → Sends P (in_cache m)
  in_cache-Sends m = record { at = λ w. ([], sym (append-nil w.calls), tt) }

  -- One request, and then an action that sends nothing.
  one_call :
      (call : Call Q) (f : World Q → Exec (World Q) (Unit {0}))
      → P call
      → ((w w' : World Q) → (f w w').1.calls ≡ w'.calls)
      → Sends P (λ w. f w (record w { calls = w.calls ++ call ∷ [] }))
  one_call call f p h = record {
    at = λ w. (call ∷ [], h w (record w { calls = w.calls ++ call ∷ [] }), (p, tt));
  }

module _ {Q : Type 0} (q : QuantityApi Q) (api : ClusterApi Q) (now : ℕ) where
  store_status-calls :
      (o : Option (PintaJob Q)) (w : World Q) → (store_status q api now o w).1.calls ≡ w.calls
  unfolding store_status
  store_status-calls none w = refl
  store_status-calls (some job) w = refl

  store_vc_job-calls :
      (o : Option (VcJob Q)) (w : World Q) → (store_vc_job q api now o w).1.calls ≡ w.calls
  unfolding store_vc_job
  store_vc_job-calls none w = refl
  store_vc_job-calls (some vc) w = refl

  -- What `UpdatePintaJobStatusState` sends: the job with the new state at the head of its history.
  pub update_status-Sends :
      (P : Call Q → Type 0) (info : JobInfo Q) (state : PintaJobState) (job : PintaJob Q)
      → info.job ≡ some job
      → P (update_status info.namespace (with_state now state job))
      → Sends P (update_pinta_job_status_state q api now info state)
  unfolding update_pinta_job_status_state update_status_of send_status
  update_status-Sends P info state job there p = rw there (
      one_call (update_status info.namespace (with_state now state job))
        (λ w.
          store_status q api now
            (api.status_answer w.calls info.namespace (with_state now state job)))
        p (λ w w'. store_status-calls _ w'))

  module _ (P : Call Q → Type 0) where
    send_create-Sends :
        (ns : String) (vc : VcJob Q)
        → P (create_vc_job ns vc)
        → Sends P (send_create q api now ns vc)
    unfolding send_create
    send_create-Sends ns vc p =
        one_call (create_vc_job ns vc)
          (λ w. store_vc_job q api now (api.create_answer w.calls ns vc)) p
          (λ w w'. store_vc_job-calls _ w')

    send_update-Sends :
        (ns : String) (vc : VcJob Q)
        → P (update_vc_job ns vc)
        → Sends P (send_update q api now ns vc)
    unfolding send_update
    send_update-Sends ns vc p =
        one_call (update_vc_job ns vc)
          (λ w. store_vc_job q api now (api.update_answer w.calls ns vc)) p
          (λ w w'. store_vc_job-calls _ w')

    update_changed-Sends :
        (ns : String) (r : Result (VcJob Q × Bool))
        → ((vc : VcJob Q) → P (update_vc_job ns vc))
        → Sends P (update_changed q api now ns r)
    unfolding update_changed
    update_changed-Sends ns (ok (vc, true)) h = send_update-Sends ns vc (h vc)
    update_changed-Sends ns (ok (vc, false)) h = Sends-return (ok tt)
    update_changed-Sends ns (err e) h = Sends-return (ok tt)
    update_changed-Sends ns panic h = Sends-return panic

  -- An action that is chosen by the world it starts in.
  Sends-by_world :
      {P : Call Q → Type 0} {A B : Type 0} (g : World Q → Result A) (f : A → Exec (World Q) B)
      → ((a : A) → Sends P (f a))
      → Sends P (λ w. continue (g w) f w)
  Sends-by_world g f h = record { at = λ w. (Sends-continue (g w) f (λ a _. h a)).at w }

  reconcile_with-Sends :
      (P : Call Q → Type 0) (ns : String) (job : PintaJob Q) (o : Option (VcJob Q))
      → ((vc : VcJob Q) → P (create_vc_job ns vc))
      → ((vc : VcJob Q) → P (update_vc_job ns vc))
      → Sends P (reconcile_with q api now ns job o)
  unfolding reconcile_with
  reconcile_with-Sends P ns job none hc hu =
      Sends-by_world
        (λ w. build_vc_job (λ rl node_type. translate_resources q rl node_type w.cache) job)
        (send_create q api now ns) (λ vc. send_create-Sends P ns vc (hc vc))
  reconcile_with-Sends P ns job (some vc) hc hu =
      update_changed-Sends P ns (reconcile_vc_job job vc) hu

  reconcile_live-Sends :
      (P : Call Q → Type 0) (info : JobInfo Q) (job : PintaJob Q) (o : Option ℕ)
      → ((vc : VcJob Q) → P (create_vc_job info.namespace vc))
      → ((vc : VcJob Q) → P (update_vc_job info.namespace vc))
      → Sends P (reconcile_live q api now info job o)
  unfolding reconcile_live
  reconcile_live-Sends P info job (some t) hc hu = Sends-return (ok tt)
  reconcile_live-Sends P info job none hc hu =
      reconcile_with-Sends P info.namespace job info.vc_job hc hu

  reconcile_job-Sends :
      (P : Call Q → Type 0) (info : JobInfo Q) (o : Option (PintaJob Q))
      → ((vc : VcJob Q) → P (create_vc_job info.namespace vc))
      → ((vc : VcJob Q) → P (update_vc_job info.namespace vc))
      → Sends P (reconcile_job q api now info o)
  unfolding reconcile_job
  reconcile_job-Sends P info none hc hu = Sends-return panic
  reconcile_job-Sends P info (some job) hc hu =
      reconcile_live-Sends P info job job.deletion_timestamp hc hu

  -- What `Reconcile` sends: Volcano jobs of the job's namespace, to be created or updated.
  pub reconcile-Sends :
      (P : Call Q → Type 0) (info : JobInfo Q)
      → ((vc : VcJob Q) → P (create_vc_job info.namespace vc))
      → ((vc : VcJob Q) → P (update_vc_job info.namespace vc))
      → Sends P (reconcile q api now info)
  unfolding reconcile
  reconcile-Sends P info hc hu = reconcile_job-Sends P info info.job hc hu

All-imp :
    {Q : Type 0} (P R : Call Q → Type 0) (l : List (Call Q))
    → ((c : Call Q) → P c → R c)
    → All P l
    → All R l
All-imp P R [] f h = tt
All-imp P R (c ∷ l) f h = (f c h.0, All-imp P R l f h.1)

pub Sends-imp :
    {Q A : Type 0} (P R : Call Q → Type 0) (m : Exec (World Q) A)
    → ((c : Call Q) → P c → R c)
    → Sends P m
    → Sends R m
Sends-imp P R m f h = record { at = λ w. let (l, e, p) = h.at w in (l, e, All-imp P R l f p) }
