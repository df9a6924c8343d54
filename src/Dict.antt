-- ===== src/Dict.antt =====
-- Go's `map` with string keys, as the list of its entries. A loop over a map visits the entries in
-- the order of the list, so a statement about every list holds for every order of iteration.
pub mod Laws
pub mod Sums
pub mod Sizes
use pinta_scheduler.Prelude.{
  String, Option, none, some, List, [], ◌∷◌, Bool, true, str_eq, if◌then◌else◌, or_else, ◌≡◌, ◌&&◌,
}

abbrev pub Dict {ℓ} : Type ℓ → Type ℓ
Dict V = List (String × V)

module _ {ℓ} {V : Type ℓ} where
  -- v, ok := m[k]
  unfoldable pub lookup : String → Dict V → Option V
  lookup k [] = none
  lookup k ((j, v) ∷ m) = if str_eq j k then some v else lookup k m

  -- m[k] = v: a new key goes to the end.
  unfoldable pub insert : String → V → Dict V → Dict V
  insert k v [] = (k, v) ∷ []
  insert k v ((j, w) ∷ m) = if str_eq j k then (k, v) ∷ m else (j, w) ∷ insert k v m

  -- delete(m, k)
  unfoldable pub erase : String → Dict V → Dict V
  erase k [] = []
  erase k ((j, w) ∷ m) = let rest = erase k m in if str_eq j k then rest else (j, w) ∷ rest

  -- The first of two options that holds a value.
  abbrev pub or_some : Option V → Option V → Option V
  or_some none o = o
  or_some (some x) o = some x

  -- `for k, v := range m { if !test { return false } }; return true`
  unfoldable pub all_entries : (String → V → Bool) → Dict V → Bool
  all_entries test [] = true
  all_entries test ((k, v) ∷ m) = test k v && all_entries test m

  -- The entries of a map that may be nil.
  abbrev pub entries : Option (Dict V) → Dict V
  entries m = or_else m []

  -- A map holds a key once.
  abbrev pub IsMap : Dict V → Type ℓ
  IsMap [] = Unit
  IsMap ((k, v) ∷ m) = (lookup k m ≡ none) × IsMap m

  -- m[k] = x where the loop's body writes one, else m as it was.
  abbrev pub write : String → Option V → Dict V → Dict V
  write k none m = m
  write k (some x) m = insert k x m

module _ {ℓ κ} {V : Type ℓ} {W : Type κ} where
  -- `for k, w := range l { … m[k] = … }`, where the body gives the value to write from m[k] and w.
  unfoldable pub range : (Option V → W → Option V) → Dict V → Dict W → Dict V
  range body m [] = m
  range body m ((k, w) ∷ l) = range body (write k (body (lookup k m) w) m) l

  -- What such a loop leaves at a key, from what the two maps hold there.
  abbrev pub after : (Option V → W → Option V) → Option V → Option W → Option V
  after body old none = old
  after body old (some w) = or_some (body old w) old

  -- The same loop where its body first makes the map if it is nil.
  unfoldable pub range_new : (Option V → W → Option V) → Option (Dict V) → Dict W → Option (Dict V)
  range_new body m [] = m
  range_new body m (e ∷ l) = some (range body (or_else m []) (e ∷ l))
