-- ===== src/Controller/Manager/Worker.antt =====
-- The loop of a worker in pkg/controller/pintajob/pintajob_controller.go: `worker` goes on until its
-- queue is shut down.
use pinta_scheduler.Prelude.{
  ℕ, String, ◌≡◌, refl, sym, ap, subst, ◌∙◌, ◌⊎◌, inl, inr, Bool, true, false, none, some, List, [],
  ◌∷◌, ◌++◌, ltb, Bool-cases,
}
use pinta_scheduler.Info.Resource.{QuantityApi}
use pinta_scheduler.Controller.Result.{Result, ok, err, panic}
use pinta_scheduler.Controller.JobCache.{JobInfo, get}
use pinta_scheduler.Controller.Updater.{ClusterApi, World}
use pinta_scheduler.Controller.State.{execute}
use pinta_scheduler.Controller.Manager.{
  Request, WorkCall, add_request, requeue, forget_request, finish, Manager, max_retries,
  get_job_key_by_req, belongs_to_this_routine, executed, execute_found, handle_request,
  process_next_req,
}

-- The requests that are marked as done, with their queues, in order.
abbrev pub finished : List WorkCall → List (ℕ × Request)
finished [] = []
finished (finish w req ∷ cs) = (w, req) ∷ finished cs
finished (add_request w req ∷ cs) = finished cs
finished (requeue w req ∷ cs) = finished cs
finished (forget_request w req ∷ cs) = finished cs

finished-append : (xs ys : List WorkCall) → finished (xs ++ ys) ≡ finished xs ++ finished ys
finished-append [] ys = refl
finished-append (finish w req ∷ xs) ys = ap (◌∷◌ (w, req)) (finished-append xs ys)
finished-append (add_request w req ∷ xs) ys = finished-append xs ys
finished-append (requeue w req ∷ xs) ys = finished-append xs ys
finished-append (forget_request w req ∷ xs) ys = finished-append xs ys

no_more : (xs : List (ℕ × Request)) → xs ++ [] ≡ xs
no_more [] = refl
no_more (x ∷ xs) = ap (◌∷◌ x) (no_more xs)

append_assoc : (xs ys zs : List (ℕ × Request)) → (xs ++ ys) ++ zs ≡ xs ++ (ys ++ zs)
append_assoc [] ys zs = refl
append_assoc (x ∷ xs) ys zs = ap (◌∷◌ x) (append_assoc xs ys zs)

-- The requests with the number of a queue.
abbrev pub on_queue : ℕ → List Request → List (ℕ × Request)
on_queue count [] = []
on_queue count (req ∷ reqs) = (count, req) ∷ on_queue count reqs

-- What a queue hands out while it is not shut down, of which it handed out some.
abbrev pub IsPart : List Request → List Request → Type 0
IsPart taken reqs = (rest : List Request) × (taken ++ rest ≡ reqs)

module _ {Q : Type 0} where
  -- `for c.processNextReq(i) {}`: the rest of the loop, after a round that returned or panicked.
  abbrev pub next_round :
      Result Bool × Manager Q → (Manager Q → Result Bool × Manager Q) → Result Bool × Manager Q
  next_round (ok true, m) rest = rest m
  next_round (ok false, m) rest = (ok false, m)
  next_round (err e, m) rest = (err e, m)
  next_round (panic, m) rest = (panic, m)

  next_round-true :
      (out : Result Bool × Manager Q) (rest : Manager Q → Result Bool × Manager Q)
      → out.0 ≡ ok true
      → next_round out rest ≡ rest out.1
  next_round-true (ok true, m) rest e = refl
  next_round-true (ok false, m) rest e = absurd cc
  next_round-true (err x, m) rest e = absurd cc
  next_round-true (panic, m) rest e = absurd cc

  next_round-panic :
      (out : Result Bool × Manager Q) (rest : Manager Q → Result Bool × Manager Q)
      → out.0 ≡ panic
      → next_round out rest ≡ (panic, out.1)
  next_round-panic (ok true, m) rest e = absurd cc
  next_round-panic (ok false, m) rest e = absurd cc
  next_round-panic (err x, m) rest e = absurd cc
  next_round-panic (panic, m) rest e = refl

module _ {Q : Type 0} (hash : String → ℕ) (workers : ℕ) (q : QuantityApi Q) (api : ClusterApi Q)
    (now : ℕ) (num_requeues : List WorkCall → ℕ → Request → ℕ) where
  -- `worker`, for the requests that its queue hands out before it is shut down.
  unfoldable pub worker : ℕ → List Request → Manager Q → Result Bool × Manager Q
  unfolding process_next_req
  worker count [] m = process_next_req hash workers q api now num_requeues count none m
  worker count (req ∷ reqs) m =
      next_round (process_next_req hash workers q api now num_requeues count (some req) m)
        (worker count reqs)

  -- A handled request is not done yet, and the worker then goes on or panics.
  abbrev Handles : Manager Q → Result Bool × Manager Q → Type 0
  Handles m out =
      (finished out.1.queues ≡ finished m.queues) × ((out.0 ≡ ok true) ⊎ (out.0 ≡ panic))

  unfinished_call :
      (calls : List WorkCall) (c : WorkCall)
      → finished (c ∷ []) ≡ []
      → finished (calls ++ c ∷ []) ≡ finished calls
  unfinished_call calls c e =
      finished-append calls (c ∷ []) ∙ ap (◌++◌ (finished calls)) e ∙ no_more (finished calls)

  executed-Handles :
      (count : ℕ) (req : Request) (out : Result (Unit {0}) × World Q) (m : Manager Q)
      → Handles m (executed hash workers q api now num_requeues count req out m)
  unfolding executed
  executed-Handles count req (ok u, w) m = (unfinished_call m.queues _ refl, inl refl)
  executed-Handles count req (err e, w) m = (
    elim (Bool-cases (ltb (num_requeues m.queues count req) max_retries)) [
      | inl again ↦ rw again (unfinished_call m.queues _ refl)
      | inr dropped ↦ rw dropped (unfinished_call m.queues _ refl)
    ],
    inl refl,
  )
  executed-Handles count req (panic, w) m = (refl, inr refl)

  execute_found-Handles :
      (count : ℕ) (req : Request) (found : Result (JobInfo Q)) (m : Manager Q)
      → Handles m (execute_found hash workers q api now num_requeues count req found m)
  unfolding execute_found
  execute_found-Handles count req (ok info) m =
      executed-Handles count req (execute q api now info m.world) m
  execute_found-Handles count req (err e) m = (refl, inl refl)
  execute_found-Handles count req panic m = (refl, inr refl)

  handle_request-Handles :
      (count : ℕ) (req : Request) (m : Manager Q)
      → Handles m (handle_request hash workers q api now num_requeues count req m)
  unfolding handle_request
  handle_request-Handles count req m =
      elim (Bool-cases (belongs_to_this_routine hash workers (get_job_key_by_req req) count)) [
        | inl own ↦
            rw own (execute_found-Handles count req (get (get_job_key_by_req req) m.world.cache) m)
        | inr foreign ↦ rw foreign (unfinished_call m.queues _ refl, inl refl)
      ]

  process_next_req-finished :
      (count : ℕ) (req : Request) (m : Manager Q)
      → let (r, m') = process_next_req hash workers q api now num_requeues count (some req) m in
        (finished m'.queues ≡ finished m.queues ++ (count, req) ∷ [])
        × ((r ≡ ok true) ⊎ (r ≡ panic))
  unfolding process_next_req
  process_next_req-finished count req m =
      let (kept, ends) = handle_request-Handles count req m in
      (
        finished-append (handle_request hash workers q api now num_requeues count req m).1.queues
              (finish count req ∷ [])
            ∙ ap (λ l. l ++ (count, req) ∷ []) kept,
        ends,
      )

  -- What the loop of a worker leaves, from the calls that there were.
  abbrev pub Worked : ℕ → List Request → List (ℕ × Request) → Result Bool × Manager Q → Type 0
  Worked count reqs before out =
      (taken : List Request) × (finished out.1.queues ≡ before ++ on_queue count taken)
      × (((out.0 ≡ ok false) × (taken ≡ reqs)) ⊎ ((out.0 ≡ panic) × IsPart taken reqs))

  -- A worker marks each request that it takes as done, once and in order. It takes all that its queue
  -- hands out before the shutdown, and returns, or it panics at one of them, which it still marks.
  pub worker_lem :
      (count : ℕ) (reqs : List Request) (m : Manager Q)
      → Worked count reqs (finished m.queues) (worker count reqs m)
  unfolding worker process_next_req
  worker_lem count [] m = ([], sym (no_more (finished m.queues)), inl (refl, refl))
  worker_lem count (req ∷ reqs) m =
      let out = process_next_req hash workers q api now num_requeues count (some req) m in
      let (done_one, ends) = process_next_req-finished count req m in
      elim ends [
        | inl goes_on ↦
            let (taken, done_rest, later) = worker_lem count reqs out.1 in
            subst (Worked count (req ∷ reqs) (finished m.queues))
              (sym (next_round-true out (worker count reqs) goes_on))
              (
                req ∷ taken,
                done_rest
                    ∙ ap (λ l. l ++ on_queue count taken) done_one
                    ∙ append_assoc (finished m.queues) ((count, req) ∷ []) (on_queue count taken),
                elim later [
                  | inl h ↦ inl (h.0, ap (◌∷◌ req) h.1)
                  | inr h ↦ inr (h.0, (h.1.0, ap (◌∷◌ req) h.1.1))
                ],
              )
        | inr broken ↦
            subst (Worked count (req ∷ reqs) (finished m.queues))
              (sym (next_round-panic out (worker count reqs) broken))
              (req ∷ [], done_one, inr (refl, (reqs, refl)))
      ]
