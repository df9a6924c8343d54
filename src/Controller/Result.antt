-- ===== src/Controller/Result.antt =====
-- The outcome of a Go call: a value, an error, or a panic (a nil pointer, an index out of range).
-- A method that also changes state is a function from the state to an outcome and the new state.
use pinta_scheduler.Prelude.{◌≡◌, String, Bool, true, false}

pub data Error : Type 0 where
  pod_spec_is_nil role_spec_is_nil no_container unexpected_tasks : Error
  node_is_not_one node_with_others : Error
  no_node_type job_not_found job_not_ready duplicated_job : String → Error
  request_failed : Error  -- a client's call
  unmarshal_failed marshal_failed file_failed : Error
  controller_is_nil duplicated_controller : Error

pub data Result {ℓ} (A : Type ℓ) : Type ℓ where
  ok : A → Result A
  err : Error → Result A
  panic : Result A

abbrev pub is_ok {ℓ} : {A : Type ℓ} → Result A → Bool
is_ok (ok a) = true
is_ok _ = false

infixl 5 ◌>>=◌
abbrev pub ◌>>=◌ {ℓ κ} : {A : Type ℓ} {B : Type κ} → Result A → (A → Result B) → Result B
ok a >>= f = f a
err e >>= f = err e
panic >>= f = panic

abbrev pub Exec {ℓ} : Type ℓ → Type ℓ → Type ℓ
Exec S A = S → Result A × S

-- The rest of a method, after a call that gave `r` and left the state `s`.
abbrev pub continue {ℓ} : {S A B : Type ℓ} → Result A → (A → Exec S B) → Exec S B
continue (ok a) f s = f a s
continue (err e) f s = (err e, s)
continue panic f s = (panic, s)

pub ok_inj {ℓ} : {A : Type ℓ} {a b : A} → ok a ≡ ok b → a ≡ b
ok_inj e = cc
