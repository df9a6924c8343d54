-- ===== src/Dict/Laws.antt =====
-- What a lookup sees after a write, a delete and a loop over another map.
use pinta_scheduler.Prelude.{
  String, Option, none, some, [], ◌∷◌, str_eq, str_eq_iff, str_eq_refl, if◌then◌else◌, ◌≡◌, refl,
  subst, Bool, ◌↔◌, arith, true, Bool-cases, inl, inr,
}
use pinta_scheduler.Dict.{
  Dict, lookup, insert, erase, IsMap, or_some, write, range, after, range_new, entries, all_entries,
}

module _ {ℓ} {V : Type ℓ} where
  pub lookup-nil : (k : String) → lookup {V = V} k [] ≡ none
  unfolding lookup
  lookup-nil k = refl

  pub lookup-insert :
      (j k : String) (v : V) (m : Dict V)
      → lookup j (insert k v m) ≡ (if str_eq k j then some v else lookup j m)
  unfolding lookup insert
  lookup-insert j k v [] = refl
  lookup-insert j k v ((i, w) ∷ m) =
      ground (arith, str_eq_iff k j, str_eq_iff i k, str_eq_iff i j, lookup-insert j k v m)

  pub lookup-erase :
      (j k : String) (m : Dict V) → lookup j (erase k m) ≡ (if str_eq k j then none else lookup j m)
  unfolding lookup erase
  lookup-erase j k [] = ground arith
  lookup-erase j k ((i, w) ∷ m) =
      ground (arith, str_eq_iff k j, str_eq_iff i k, str_eq_iff i j, lookup-erase j k m)

  pub insert-IsMap : (k : String) (v : V) (m : Dict V) → IsMap m → IsMap (insert k v m)
  unfolding insert lookup
  insert-IsMap k v [] h = (refl, tt)
  insert-IsMap k v ((i, w) ∷ m) h =
      ground
        (arith, str_eq_iff i k, str_eq_iff k i, lookup-insert i k v m, insert-IsMap k v m h.1, h.0)

  pub erase-IsMap : (k : String) (m : Dict V) → IsMap m → IsMap (erase k m)
  unfolding erase
  erase-IsMap k [] h = tt
  erase-IsMap k ((i, w) ∷ m) h = ground (arith, lookup-erase i k m, erase-IsMap k m h.1, h.0)

  -- A predicate of every entry of a map.
  abbrev pub Each {κ} : (String → V → Type κ) → Dict V → Type (ℓ ⊔ κ)
  Each P m = (k : String) (v : V) → lookup k m ≡ some v → P k v

  pub insert-Each {κ} :
      (P : String → V → Type κ) (k : String) (v : V) (m : Dict V)
      → Each P m
      → P k v
      → Each P (insert k v m)
  insert-Each P k v m h p j w e = elim (Bool-cases (str_eq k j)) [
    | inl same ↦
        subst (λ j. P j w) ((str_eq_iff k j).0 same)
          (subst (P k) (ground (arith, same, e, lookup-insert j k v m)) p)
    | inr other ↦ h j w (ground (arith, other, e, lookup-insert j k v m))
  ]

  pub erase-Each {κ} :
      (P : String → V → Type κ) (k : String) (m : Dict V) → Each P m → Each P (erase k m)
  erase-Each P k m h j w e = h j w (ground (arith, e, lookup-erase j k m))

  lookup-write :
      (j k : String) (o : Option V) (m : Dict V)
      → lookup j (write k o m) ≡ (if str_eq k j then or_some o (lookup j m) else lookup j m)
  lookup-write j k none m = ground arith
  lookup-write j k (some x) m = lookup-insert j k x m

  write-IsMap : (k : String) (o : Option V) (m : Dict V) → IsMap m → IsMap (write k o m)
  write-IsMap k none m h = h
  write-IsMap k (some x) m h = insert-IsMap k x m h

module _ {ℓ κ} {V : Type ℓ} {W : Type κ} (body : Option V → W → Option V) where
  pub lookup-range :
      (j : String) (m : Dict V) (l : Dict W)
      → IsMap l
      → lookup j (range body m l) ≡ after body (lookup j m) (lookup j l)
  unfolding range lookup
  lookup-range j m [] h = refl
  lookup-range j m ((k, w) ∷ l) h = ground (
    arith,
    str_eq_iff k j,
    h.0,
    lookup-write j k (body (lookup k m) w) m,
    lookup-range j (write k (body (lookup k m) w) m) l h.1,
  )

  pub range-IsMap : (m : Dict V) (l : Dict W) → IsMap m → IsMap (range body m l)
  unfolding range
  range-IsMap m [] h = h
  range-IsMap m ((k, w) ∷ l) h =
      range-IsMap (write k (body (lookup k m) w) m) l (write-IsMap k (body (lookup k m) w) m h)

  pub lookup-range_new :
      (j : String) (m : Option (Dict V)) (l : Dict W)
      → IsMap l
      → lookup j (entries (range_new body m l)) ≡ after body (lookup j (entries m)) (lookup j l)
  unfolding range_new lookup
  lookup-range_new j m [] h = refl
  lookup-range_new j m (e ∷ l) h = lookup-range j (entries m) (e ∷ l) h

module _ {ℓ} {V : Type ℓ} (test : String → V → Bool) where
  all_entries-lookup :
      (m : Dict V)
      → all_entries test m ≡ true
      → (k : String) (v : V) → lookup k m ≡ some v
      → test k v ≡ true
  unfolding all_entries lookup
  all_entries-lookup [] h k v e = cc
  all_entries-lookup ((j, w) ∷ m) h k v e = elim (Bool-cases (str_eq j k)) [
    | inl same ↦ ground (arith, str_eq_iff j k)
    | inr other ↦ ground (arith, all_entries-lookup m (ground arith) k v (ground arith))
  ]

  all_entries-of_lookup :
      (m : Dict V)
      → IsMap m
      → ((k : String) (v : V) → lookup k m ≡ some v → test k v ≡ true)
      → all_entries test m ≡ true
  unfolding all_entries lookup
  all_entries-of_lookup [] h all = refl
  all_entries-of_lookup ((j, w) ∷ m) h all = ground (
    arith,
    all j w,
    str_eq_refl j,
    all_entries-of_lookup m h.1 (λ k v e. all k v (ground (arith, str_eq_iff j k, h.0))),
  )

  -- A loop that returns false at the first entry to fail its test: every entry passes.
  pub all_entries_iff :
      (m : Dict V)
      → IsMap m
      → (all_entries test m ≡ true) ↔ ((k : String) (v : V) → lookup k m ≡ some v → test k v ≡ true)
  all_entries_iff m h = (all_entries-lookup m, all_entries-of_lookup m h)
