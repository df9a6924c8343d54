-- ===== src/Scheduler/Outcome.antt =====
-- How a policy ends. Closing the session is deferred (runOnce of pkg/scheduler/scheduler.go), so what
-- a policy has written counts after a panic too. A loop that ranges over a map has fuel here, since
-- its length depends on the orders, and `unfinished` says that the fuel is used up.
use pinta_scheduler.Controller.Result.{Result, ok, err, panic}

pub data Outcome {ℓ} (S A : Type ℓ) : Type ℓ where
  done : S → A → Outcome S A
  panicked : S → Outcome S A
  unfinished : Outcome S A

abbrev pub and_then {ℓ} : {S A B : Type ℓ} → Outcome S A → (S → A → Outcome S B) → Outcome S B
and_then (done s a) f = f s a
and_then (panicked s) f = panicked s
and_then unfinished f = unfinished

-- A call that writes nothing, from the state `s`. The calls of the policies return no errors.
abbrev pub attempt {ℓ κ} :
    {A : Type ℓ} {S B : Type κ} → S → Result A → (A → Outcome S B) → Outcome S B
attempt s (ok a) f = f a
attempt s (err e) f = panicked s
attempt s panic f = panicked s

abbrev pub with_state {ℓ} : {S T A : Type ℓ} → (S → T) → Outcome S A → Outcome T A
with_state f (done s a) = done (f s) a
with_state f (panicked s) = panicked (f s)
with_state f unfinished = unfinished
