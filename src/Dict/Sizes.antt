-- ===== src/Dict/Sizes.antt =====
-- The number of entries of a map.
use pinta_scheduler.Prelude.{
  suc, ◌≤◌, ◌<◌, String, ◌≡◌, refl, ap, subst, inl, inr, none, some, [], ◌∷◌, arith, str_eq,
  str_eq_iff, Bool-cases, length,
}
use pinta_scheduler.Dict.{Dict, lookup, insert, erase, IsMap}

module _ {ℓ} {V : Type ℓ} where
  pub length-erase : (k : String) (m : Dict V) → length (erase k m) ≤ length m
  unfolding erase
  length-erase k [] = omega arith
  length-erase k ((j, v) ∷ m) = ground (arith, length-erase k m)

  pub length-erase_there :
      (k : String) (m : Dict V) (v : V) → lookup k m ≡ some v → length (erase k m) < length m
  unfolding erase lookup
  length-erase_there k [] v e = absurd cc
  length-erase_there k ((j, w) ∷ m) v e = elim (Bool-cases (str_eq j k)) [
    | inl same ↦ rw same (omega (arith, length-erase k m))
    | inr other ↦
        let less = length-erase_there k m v (ground (arith, other, e)) in rw other (omega arith)
  ]

  pub length-erase_missing :
      (k : String) (m : Dict V) → lookup k m ≡ none → length (erase k m) ≡ length m
  unfolding erase lookup
  length-erase_missing k [] e = refl
  length-erase_missing k ((j, w) ∷ m) e = ground (arith, e, length-erase_missing k m)

  -- A map loses one entry.
  pub length-erase_one :
      (k : String) (m : Dict V) (v : V)
      → IsMap m
      → lookup k m ≡ some v
      → suc (length (erase k m)) ≡ length m
  unfolding erase lookup
  length-erase_one k [] v h e = absurd cc
  length-erase_one k ((j, w) ∷ m) v h e = elim (Bool-cases (str_eq j k)) [
    | inl same ↦
        let absent : lookup k m ≡ none =
          subst (λ i. lookup i m ≡ none) ((str_eq_iff j k).0 same) h.0 in
        rw same (ap suc (length-erase_missing k m absent))
    | inr other ↦ rw other (ap suc (length-erase_one k m v h.1 (ground (arith, other, e))))
  ]

  pub length-insert_new :
      (k : String) (v : V) (m : Dict V) → lookup k m ≡ none → length (insert k v m) ≡ suc (length m)
  unfolding insert lookup
  length-insert_new k v [] e = refl
  length-insert_new k v ((j, w) ∷ m) e = ground (arith, e, length-insert_new k v m)
