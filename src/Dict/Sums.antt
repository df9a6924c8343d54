-- ===== src/Dict/Sums.antt =====
-- The sum of an amount over the entries of a map.
use mathlib.Core.Option
use pinta_scheduler.Prelude.{
  String, Option, none, some, [], ◌∷◌, str_eq, str_eq_iff, str_eq_refl, ◌≡◌, refl, sym, ap, ◌∙◌,
  arith, Bool-cases, inl, inr,
}
use pinta_scheduler.Prelude.Int.{ℤ, pos, ◌+ℤ◌, int_laws, +ℤ_parts, eq_of_parts}
use pinta_scheduler.Dict.{Dict, lookup, insert, erase, IsMap}
use pinta_scheduler.Dict.Laws.{lookup-erase, erase-IsMap}

first_two : (a b c : ℤ) → a +ℤ (b +ℤ c) ≡ b +ℤ (a +ℤ c)
first_two a b c = omega int_laws

some_of_map {ℓ} :
    {V : Type ℓ} {amount : V → ℤ} (o : Option V) (n : ℤ)
    → Option.map amount o ≡ some n
    → (v : V) × (o ≡ some v) × (amount v ≡ n)
some_of_map none n e = absurd cc
some_of_map (some v) n e = (v, refl, cc)

swap_ends : (a b c : ℤ) → a +ℤ b +ℤ c ≡ c +ℤ b +ℤ a
swap_ends a b c = omega int_laws

add_under : (x a b c d : ℤ) → a +ℤ b ≡ c +ℤ d → x +ℤ a +ℤ b ≡ x +ℤ c +ℤ d
add_under x a b c d h = eq_of_parts _ _ (
    ground (
      arith,
      +ℤ_parts (x +ℤ a) b,
      +ℤ_parts x a,
      +ℤ_parts (x +ℤ c) d,
      +ℤ_parts x c,
      +ℤ_parts a b,
      +ℤ_parts c d,
      h,
    ))

module _ {ℓ} {V : Type ℓ} (amount : V → ℤ) where
  unfoldable pub sum_of : Dict V → ℤ
  sum_of [] = pos 0
  sum_of ((k, v) ∷ m) = amount v +ℤ sum_of m

  -- A write over an old value changes the sum by the difference of the two.
  pub sum_of-insert :
      (k : String) (old new : V) (m : Dict V)
      → lookup k m ≡ some old
      → sum_of (insert k new m) +ℤ amount old ≡ sum_of m +ℤ amount new
  unfolding sum_of insert lookup
  sum_of-insert k old new [] e = cc
  sum_of-insert k old new ((j, v) ∷ m) e = elim (Bool-cases (str_eq j k)) [
    | inl same ↦
        let found : v ≡ old = ground (arith, same, e) in
        rw (same, found) (swap_ends (amount new) (sum_of m) (amount old))
    | inr other ↦
        rw other
          (add_under (amount v) _ _ _ _ (sum_of-insert k old new m (ground (arith, other, e))))
  ]

  lookup_head :
      (j : String) (x : V) (m : Dict V)
      → Option.map amount (lookup j ((j, x) ∷ m)) ≡ some (amount x)
  unfolding lookup
  lookup_head j x m = rw (str_eq_refl j) refl

  nil-none : (j : String) {n : ℤ} → Option.map amount (lookup j []) ≡ some n → ⊥
  unfolding lookup
  nil-none j e = cc

  rest_same :
      (k j : String) (v : V) (m m' : Dict V)
      → lookup k m ≡ none
      → Option.map amount (lookup j ((k, v) ∷ m)) ≡ Option.map amount (lookup j m')
      → Option.map amount (lookup j m) ≡ Option.map amount (lookup j (erase k m'))
  unfolding lookup
  rest_same k j v m m' missing same = elim (Bool-cases (str_eq k j)) [
    | inl at_k ↦
        let gone : lookup j m ≡ none = ground (arith, at_k, str_eq_iff k j, missing) in
        rw (gone, lookup-erase j k m', at_k) refl
    | inr other ↦ ground (arith, other, same, lookup-erase j k m')
  ]

  erase-missing : (k : String) (m : Dict V) → lookup k m ≡ none → erase k m ≡ m
  unfolding erase lookup
  erase-missing k [] e = refl
  erase-missing k ((j, v) ∷ m) e = ground (arith, e, erase-missing k m)

  sum_of-erase :
      (k : String) (v : V) (m : Dict V)
      → IsMap m
      → lookup k m ≡ some v
      → sum_of m ≡ amount v +ℤ sum_of (erase k m)
  unfolding sum_of erase lookup
  sum_of-erase k v [] h e = absurd cc
  sum_of-erase k v ((j, x) ∷ m) h e = elim (Bool-cases (str_eq j k)) [
    | inl same ↦
        let found : x ≡ v = ground (arith, same, e) in
        let missing : lookup k m ≡ none = ground (arith, same, str_eq_iff j k, h.0) in
        rw (same, found, erase-missing k m missing) refl
    | inr other ↦
        rw (other, sum_of-erase k v m h.1 (ground (arith, other, e)))
          (first_two (amount x) (amount v) (sum_of (erase k m)))
  ]

  -- Two maps with the same amounts under the same keys have the same sum, in whatever order they are.
  pub sum_of-same :
      (m m' : Dict V)
      → IsMap m
      → IsMap m'
      → ((k : String) → Option.map amount (lookup k m) ≡ Option.map amount (lookup k m'))
      → sum_of m ≡ sum_of m'
  unfolding sum_of
  sum_of-same [] [] h h' same = refl
  sum_of-same [] ((j, x) ∷ m') h h' same = absurd (nil-none j (same j ∙ lookup_head j x m'))
  sum_of-same ((k, v) ∷ m) m' h h' same =
      let (v', there, equal) =
        some_of_map (lookup k m') (amount v) (sym (same k) ∙ lookup_head k v m) in
      let rest =
        sum_of-same m (erase k m') h.1 (erase-IsMap k m' h')
          (λ j. rest_same k j v m m' h.0 (same j)) in
      ap (λ n. amount v +ℤ n) rest
      ∙ ap (λ n. n +ℤ sum_of (erase k m')) (sym equal)
      ∙ sym (sum_of-erase k v' m' h' there)
