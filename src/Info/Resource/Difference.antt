-- ===== src/Info/Resource/Difference.antt =====
-- `EqualStrict` and `Diff`: both look at the names of the receiver only.
use pinta_scheduler.Prelude.{
  String, ◌≡◌, refl, ◌∙◌, ◌≢◌, ◌↔◌, ◌⊎◌, inl, inr, true, false, Option, none, some, arith,
  if◌then◌else◌, is_some, Bool-cases,
}
use pinta_scheduler.Prelude.Int.{ℤ, pos, ◌+ℤ◌, ◌-ℤ◌, ◌≤ℤ◌, ltb_ℤ, eqb_ℤ, eqb_ℤ→eq, eqb_ℤ_refl}
use pinta_scheduler.Dict.{Dict, lookup, IsMap, entries, all_entries}
use pinta_scheduler.Dict.Laws.{lookup-nil, all_entries_iff}
use pinta_scheduler.Info.Resource.{Resource, scalar}
use pinta_scheduler.Info.Resource.Compare.{equal_strict}
use pinta_scheduler.Info.Resource.Arith.{HasMap}

-- The amounts of cpu, memory and every scalar name of `r` are those of `rr`.
pub record AgreesOn (r rr : Resource) : Type 0 where
  pub cpu_eq : r.milli_cpu ≡ rr.milli_cpu
  pub memory_eq : r.memory ≡ rr.memory
  pub scalars_eq :
      (k : String) (v : ℤ)
      → lookup k (entries r.scalar_resources) ≡ some v
      → v ≡ scalar rr.scalar_resources k

-- For a receiver whose scalar map holds each name once, `EqualStrict` returns true exactly where
-- its cpu, memory and the amount of each of its scalar names are equal to the other's.
pub equal_strict_iff : (r rr : Resource) → HasMap r → (equal_strict r rr ≡ true) ↔ AgreesOn r rr
unfolding equal_strict
equal_strict_iff r rr h = (
  λ e. record {
    cpu_eq = eqb_ℤ→eq r.milli_cpu rr.milli_cpu (ground arith);
    memory_eq = eqb_ℤ→eq r.memory rr.memory (ground arith);
    scalars_eq = λ k v f. eqb_ℤ→eq v (scalar rr.scalar_resources k) (each.0 (ground arith) k v f);
  },
  λ b. ground (
    arith,
    b.cpu_eq,
    b.memory_eq,
    eqb_ℤ_refl r.milli_cpu,
    eqb_ℤ_refl r.memory,
    each.1 (λ k v f. rw (← b.scalars_eq k v f) (eqb_ℤ_refl v)),
  ),
)
  where
    each :
        (all_entries
            (λ name quant. eqb_ℤ quant (scalar rr.scalar_resources name))
            (entries r.scalar_resources)
          ≡ true)
        ↔ ((k : String) (v : ℤ)
            → lookup k (entries r.scalar_resources) ≡ some v
            → eqb_ℤ v (scalar rr.scalar_resources k) ≡ true)
    each =
        all_entries_iff (λ name quant. eqb_ℤ quant (scalar rr.scalar_resources name))
          (entries r.scalar_resources) h

-- A resource with no scalar amounts is `EqualStrict` to the same one with any scalar amounts, while
-- the converse fails as soon as one of those amounts is not 0.
pub equal_strict_one_sided :
    (r : Resource) (m : Dict ℤ) (k : String) (v : ℤ)
    → r.scalar_resources ≡ none
    → IsMap m
    → lookup k m ≡ some v
    → v ≢ pos 0
    → (equal_strict r (record r { scalar_resources = some m }) ≡ true)
      × (equal_strict (record r { scalar_resources = some m }) r ≡ false)
equal_strict_one_sided r m k v e h f nonzero = (
  (equal_strict_iff r larger (rw e tt)).1 (record {
    cpu_eq = refl;
    memory_eq = refl;
    scalars_eq = λ j w g. ground (arith, e, g, lookup-nil {V = ℤ} j);
  }),
  elim (Bool-cases (equal_strict larger r)) [
    | inl same ↦ absurd (
        nonzero (
          ((equal_strict_iff larger r h).0 same).scalars_eq k v f
          ∙ ground (arith, e, lookup-nil {V = ℤ} k)))
    | inr other ↦ other
  ],
)
  where
    larger : Resource
    larger = record r { scalar_resources = some m }

-- What the loop of `Diff` adds to the increased and to the decreased amount of a name.
abbrev gain : ℤ → Option ℤ → ℤ → ℤ
gain other none acc = acc
gain other (some v) acc = if ltb_ℤ other v then acc +ℤ (v -ℤ other) else acc

abbrev loss : ℤ → Option ℤ → ℤ → ℤ
loss other none acc = acc
loss other (some v) acc = if ltb_ℤ other v then acc else acc +ℤ (other -ℤ v)

-- `x` more and `y` less lead from `b` to `a`, and one of them is 0.
abbrev pub Splits : ℤ → ℤ → ℤ → ℤ → Type 0
Splits a b x y = (b +ℤ x ≡ a +ℤ y) × (pos 0 ≤ℤ x) × (pos 0 ≤ℤ y) × ((x ≡ pos 0) ⊎ (y ≡ pos 0))

-- The other's amount of a scalar name of the receiver, and 0 of a name that the receiver lacks.
abbrev pub counterpart : Resource → Resource → String → ℤ
counterpart r rr k =
    if is_some (lookup k (entries r.scalar_resources)) then scalar rr.scalar_resources k else pos 0
