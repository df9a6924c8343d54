-- ===== src/Controller/Manager/Retries.antt =====
-- How often the workers of pkg/controller/pintajob/pintajob_controller.go retry a request.
use pinta_scheduler.Prelude.{
  ℕ, suc, ◌≤◌, ◌<◌, String, ◌≡◌, refl, sym, subst, inl, inr, Bool, true, List, [], ◌∷◌, ◌++◌, ◌&&◌,
  arith, str_eq, str_eq_iff, ◌==◌, Bool-cases, if◌then◌else◌,
}
use pinta_scheduler.Info.Resource.{QuantityApi}
use pinta_scheduler.Controller.Updater.{ClusterApi}
use pinta_scheduler.Controller.Manager.{
  Request, WorkCall, add_request, requeue, forget_request, finish, Manager, max_retries,
}
use pinta_scheduler.Controller.Manager.Calls.{ManagerEvent, handle_events, handle_events-keeps}

abbrev same_request : Request → Request → Bool
same_request a b = str_eq a.namespace b.namespace && str_eq a.job_name b.job_name

-- The calls of AddRateLimited for a request on a queue since the last Forget, after one more call.
abbrev pub after_call : ℕ → Request → WorkCall → ℕ → ℕ
after_call w req (add_request v r) n = n
after_call w req (requeue v r) n = if (v == w) && same_request r req then suc n else n
after_call w req (forget_request v r) n = if (v == w) && same_request r req then 0 else n
after_call w req (finish v r) n = n

abbrev requeues_from : ℕ → List WorkCall → ℕ → Request → ℕ
requeues_from n [] w req = n
requeues_from n (c ∷ cs) w req = requeues_from (after_call w req c n) cs w req

abbrev pub requeues : List WorkCall → ℕ → Request → ℕ
requeues calls w req = requeues_from 0 calls w req

requeues_from-snoc :
    (n : ℕ) (cs : List WorkCall) (c : WorkCall) (w : ℕ) (req : Request)
    → requeues_from n (cs ++ c ∷ []) w req ≡ after_call w req c (requeues_from n cs w req)
requeues_from-snoc n [] c w req = refl
requeues_from-snoc n (x ∷ cs) c w req = requeues_from-snoc (after_call w req x n) cs c w req

-- No request on any queue was put back more often than it may be retried.
unfoldable pub IsBounded : List WorkCall → Type 0
IsBounded calls = (w : ℕ) (req : Request) → requeues calls w req ≤ max_retries

snoc-IsBounded :
    (cs : List WorkCall) (c : WorkCall)
    → ((w : ℕ) (req : Request) → after_call w req c (requeues cs w req) ≤ max_retries)
    → IsBounded (cs ++ c ∷ [])
unfolding IsBounded
snoc-IsBounded cs c h w req =
    subst (λ n. n ≤ max_retries) (sym (requeues_from-snoc 0 cs c w req)) (h w req)

add-IsBounded :
    (cs : List WorkCall) (v : ℕ) (r : Request)
    → IsBounded cs
    → IsBounded (cs ++ add_request v r ∷ [])
unfolding IsBounded
add-IsBounded cs v r h = snoc-IsBounded cs (add_request v r) h

finish-IsBounded :
    (cs : List WorkCall) (v : ℕ) (r : Request) → IsBounded cs → IsBounded (cs ++ finish v r ∷ [])
unfolding IsBounded
finish-IsBounded cs v r h = snoc-IsBounded cs (finish v r) h

forget-IsBounded :
    (cs : List WorkCall) (v : ℕ) (r : Request)
    → IsBounded cs
    → IsBounded (cs ++ forget_request v r ∷ [])
unfolding IsBounded
forget-IsBounded cs v r h =
    snoc-IsBounded cs (forget_request v r) (λ w req. ground (arith, h w req))

same_request-eq : (a b : Request) → same_request a b ≡ true → a ≡ b
same_request-eq a b h =
    ground (arith, h, str_eq_iff a.namespace b.namespace, str_eq_iff a.job_name b.job_name)

requeue-IsBounded :
    (cs : List WorkCall) (v : ℕ) (r : Request)
    → requeues cs v r < max_retries
    → IsBounded cs
    → IsBounded (cs ++ requeue v r ∷ [])
unfolding IsBounded
requeue-IsBounded cs v r few h = snoc-IsBounded cs (requeue v r) (λ w req.
    elim (Bool-cases ((v == w) && same_request r req)) [
      | inr other ↦ rw other (h w req)
      | inl same ↦
          let same_queue : v ≡ w = ground (arith, same) in
          let same_req : r ≡ req = same_request-eq r req (ground (arith, same)) in
          rw same (
            subst (λ v. requeues cs v req < max_retries) same_queue
              (subst (λ r. requeues cs v r < max_retries) same_req few))
    ])

module _ {Q : Type 0} (hash : String → ℕ) (workers : ℕ) (q : QuantityApi Q) (api : ClusterApi Q)
    (now : ℕ) (num_requeues : List WorkCall → ℕ → Request → ℕ) where
  -- Where NumRequeues is the number of calls of AddRateLimited for a request on a queue since the last
  -- Forget, that number is at most 15 for every request on every queue, over any handlers and any rounds
  -- of the workers, whatever the queues hand out and however the API server answers, if it was so
  -- before.
  pub handle_events-IsBounded :
      ((calls : List WorkCall) (w : ℕ) (req : Request)
        → num_requeues calls w req ≡ requeues calls w req)
      → (es : List (ManagerEvent Q)) (m : Manager Q) → IsBounded m.queues
      → IsBounded (handle_events hash workers q api now num_requeues es m).queues
  handle_events-IsBounded counts =
      handle_events-keeps hash workers IsBounded (λ l req h. add-IsBounded l _ req h) q api now
        num_requeues forget-IsBounded
        (λ l count req few h.
          requeue-IsBounded l count req (subst (λ n. n < max_retries) (counts l count req) few) h)
        finish-IsBounded
