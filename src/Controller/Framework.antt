-- ===== src/Controller/Framework.antt =====
-- pkg/controller/framework: the registry of controllers by name.
use pinta_scheduler.Prelude.{
  String, ◌≡◌, refl, subst, inl, inr, not, Option, none, some, arith, str_eq, str_eq_iff,
  if◌then◌else◌, is_some, Option-cases,
}
use pinta_scheduler.Dict.{Dict, lookup, insert, or_some}
use pinta_scheduler.Dict.Laws.{lookup-insert}
use pinta_scheduler.Controller.Result.{
  Result, ok, err, controller_is_nil, duplicated_controller, is_ok,
}

module _ {C : Type 0} where
  unfoldable pub put_controller : String → C → Option C → Dict C → Result (Dict C)
  put_controller name ctrl none controllers = ok (insert name ctrl controllers)
  put_controller name ctrl (some old) controllers = err duplicated_controller

  -- A controller with its name, or nil.
  unfoldable pub register_controller : Option (String × C) → Dict C → Result (Dict C)
  unfolding put_controller
  register_controller none controllers = err controller_is_nil
  register_controller (some (name, ctrl)) controllers =
      put_controller name ctrl (lookup name controllers) controllers

  -- A controller of a new name is registered beside the ones that are there, which stay, and one of a
  -- known name is refused.
  pub register_controller_lem :
      (name : String) (ctrl : C) (controllers : Dict C)
      → (is_ok (register_controller (some (name, ctrl)) controllers)
          ≡ not (is_some (lookup name controllers)))
        × ((controllers' : Dict C)
            → register_controller (some (name, ctrl)) controllers ≡ ok controllers'
            → (k : String)
            → lookup k controllers'
              ≡ or_some (lookup k controllers) (if str_eq name k then some ctrl else none))
  unfolding register_controller put_controller
  register_controller_lem name ctrl controllers = elim (Option-cases (lookup name controllers)) [
    | inl missing ↦ (
      rw missing refl,
      λ out e k.
          let is_new : insert name ctrl controllers ≡ out = inserted out (rw missing at e) in
          subst
            (λ (m : Dict C).
              lookup k m
              ≡ or_some (lookup k controllers) (if str_eq name k then some ctrl else none))
            is_new
            (ground (arith, missing, str_eq_iff name k, lookup-insert k name ctrl controllers)),
    )
    | inr (old, found) ↦ (rw found refl, λ out e k. absurd (refused out (rw found at e)))
  ]
    where
      inserted :
          (out : Dict C)
          → ok (insert name ctrl controllers) ≡ ok out
          → insert name ctrl controllers ≡ out
      inserted out e = cc

      refused : (out : Dict C) → err duplicated_controller ≡ ok out → ⊥
      refused out e = cc
