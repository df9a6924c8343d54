-- ===== src/Info/Resource/Order.antt =====
-- The order of LessEqualStrict, and SetMinResource as the greatest lower bound in it.
use pinta_scheduler.Prelude.{
  inr, inl, Option-cases, ℕ, suc, String, ◌≡◌, refl, ◌↔◌, Bool, true, Option, none, some, [], ◌∷◌,
  arith, str_eq_iff, if◌then◌else◌, is_some,
}
use pinta_scheduler.Prelude.Int.{ℤ, pos, ◌+ℤ◌, ◌≤ℤ◌, ◌<ℤ◌, ltb_ℤ, leb_ℤ, +ℤ_parts, -ℤ_parts}
use pinta_scheduler.Dict.{Dict, lookup, IsMap, entries, all_entries}
use pinta_scheduler.Dict.Laws.{lookup-nil, all_entries_iff}
use mathlib.Core.Option
use pinta_scheduler.Info.Resource.{
  Resource, scalar, min_scalars, min_resource, min_milli_scalar_resources, min_milli_cpu,
  min_memory,
}
use pinta_scheduler.Info.Resource.Compare.{
  less_equal_strict, less_equal_func, scalar_fits, less_equal,
}
use pinta_scheduler.Info.Resource.Arith.{HasMap}

-- No amount of `r` passes the amount of `rr` under its name.
pub record IsBelow (r rr : Resource) : Type 0 where
  pub cpu_le : r.milli_cpu ≤ℤ rr.milli_cpu
  pub memory_le : r.memory ≤ℤ rr.memory
  pub scalars_le :
      (k : String) (v : ℤ)
      → lookup k (entries r.scalar_resources) ≡ some v
      → v ≤ℤ scalar rr.scalar_resources k

leb_ℤ→≤ℤ : (a b : ℤ) → leb_ℤ a b ≡ true → a ≤ℤ b
leb_ℤ→≤ℤ a b h = ground arith

≤ℤ→leb_ℤ : (a b : ℤ) → a ≤ℤ b → leb_ℤ a b ≡ true
≤ℤ→leb_ℤ a b h = ground arith

-- For a receiver whose scalar map holds each name once, `LessEqualStrict` returns true exactly
-- where its cpu, memory and every scalar amount are at most the other's, a missing amount of the
-- other being 0.
pub less_equal_strict_iff :
    (r rr : Resource) → HasMap r → (less_equal_strict r rr ≡ true) ↔ IsBelow r rr
unfolding less_equal_strict
less_equal_strict_iff r rr h = (
  λ e. record {
    cpu_le = ground arith;
    memory_le = ground arith;
    scalars_le = λ k v f.
        leb_ℤ→≤ℤ v (scalar rr.scalar_resources k)
          ((all_entries_iff test (entries r.scalar_resources) h).0 (ground arith) k v f);
  },
  λ b. ground (
    arith,
    b.cpu_le,
    b.memory_le,
    (all_entries_iff test (entries r.scalar_resources) h).1
        (λ k v f. ≤ℤ→leb_ℤ v (scalar rr.scalar_resources k) (b.scalars_le k v f)),
  ),
)
  where
    test : String → ℤ → Bool
    test = λ name quant. leb_ℤ quant (scalar rr.scalar_resources name)

abbrev pub min_ℤ : ℤ → ℤ → ℤ
min_ℤ a b = if ltb_ℤ a b then a else b

lookup-min_scalars :
    (k : String) (rr : Option (Dict ℤ)) (m : Dict ℤ)
    → lookup k (min_scalars rr m) ≡ Option.map (λ v. min_ℤ (scalar rr k) v) (lookup k m)
unfolding lookup min_scalars
lookup-min_scalars k rr [] = refl
lookup-min_scalars k rr ((j, v) ∷ m) = ground (arith, str_eq_iff j k, lookup-min_scalars k rr m)

min_scalars-IsMap : (rr : Option (Dict ℤ)) (m : Dict ℤ) → IsMap m → IsMap (min_scalars rr m)
unfolding min_scalars
min_scalars-IsMap rr [] h = tt
min_scalars-IsMap rr ((j, v) ∷ m) h =
    (ground (arith, h.0, lookup-min_scalars j rr m), min_scalars-IsMap rr m h.1)

module _ (r rr : Resource) where
  min_scalar :
      (k : String)
      → lookup k (entries (min_resource r rr).scalar_resources)
        ≡ Option.map
            (λ v. min_ℤ (scalar rr.scalar_resources k) v)
            (lookup k (entries r.scalar_resources))
  unfolding min_resource
  min_scalar k = ground (
    arith,
    lookup-min_scalars k rr.scalar_resources (entries r.scalar_resources),
    lookup-nil {V = ℤ} k,
  )

  pub min_resource-HasMap : HasMap r → HasMap (min_resource r rr)
  unfolding min_resource
  min_resource-HasMap h =
      ground (arith, h, min_scalars-IsMap rr.scalar_resources (entries r.scalar_resources))

  pub min_resource-IsBelow_left : IsBelow (min_resource r rr) r
  unfolding min_resource
  min_resource-IsBelow_left = record {
    cpu_le = ground arith;
    memory_le = ground arith;
    scalars_le = λ k v f. ground (arith, min_scalar k);
  }

  pub min_resource-IsBelow_right : IsBelow (min_resource r rr) rr
  unfolding min_resource
  min_resource-IsBelow_right = record {
    cpu_le = ground arith;
    memory_le = ground arith;
    scalars_le = λ k v f. ground (arith, min_scalar k);
  }

  pub min_resource-IsBelow_of_left : (x : Resource) → IsBelow r x → IsBelow (min_resource r rr) x
  unfolding min_resource
  min_resource-IsBelow_of_left x b = record {
    cpu_le = ground (arith, b.cpu_le);
    memory_le = ground (arith, b.memory_le);
    scalars_le = λ k v f. elim (Option-cases (lookup k (entries r.scalar_resources))) [
      | inl e ↦ ground (arith, min_scalar k)
      | inr (w, e) ↦ ground (arith, min_scalar k, b.scalars_le k w e)
    ];
  }

  pub min_resource-IsBelow_greatest :
      (x : Resource) → IsBelow x r → IsBelow x rr → IsBelow x (min_resource r rr)
  unfolding min_resource
  min_resource-IsBelow_greatest x a b = record {
    cpu_le = ground arith;
    memory_le = ground arith;
    scalars_le = λ k v f. ground (arith, min_scalar k, a.scalars_le k v f, b.scalars_le k v f);
  }

-- The resource that `SetMinResource` leaves in a receiver whose scalar map holds each name once is
-- at most both of its arguments, by `LessEqualStrict`.
pub min_resource-lower :
    (r rr : Resource)
    → HasMap r
    → (less_equal_strict (min_resource r rr) r ≡ true)
      × (less_equal_strict (min_resource r rr) rr ≡ true)
min_resource-lower r rr h =
    let m = min_resource-HasMap r rr h in
    (
      (less_equal_strict_iff (min_resource r rr) r m).1 (min_resource-IsBelow_left r rr),
      (less_equal_strict_iff (min_resource r rr) rr m).1 (min_resource-IsBelow_right r rr),
    )

-- The resource that `SetMinResource` leaves in a receiver is at most both of its arguments, by
-- `LessEqualStrict`, and a resource that is at most both of them is at most it, where the scalar maps of
-- the receiver and of that resource hold each name once.
pub min_resource-greatest :
    (x r rr : Resource)
    → HasMap x
    → HasMap r
    → less_equal_strict x r ≡ true
    → less_equal_strict x rr ≡ true
    → (less_equal_strict (min_resource r rr) r ≡ true)
      × (less_equal_strict (min_resource r rr) rr ≡ true)
      × (less_equal_strict x (min_resource r rr) ≡ true)
min_resource-greatest x r rr h m a b =
    let (left, right) = min_resource-lower r rr m in
    (
      left,
      right,
      (less_equal_strict_iff x (min_resource r rr) h).1 (
          min_resource-IsBelow_greatest r rr x ((less_equal_strict_iff x r h).0 a)
            ((less_equal_strict_iff x rr h).0 b)),
    )

-- What `LessEqual` allows: each amount is less than the other's and a margin, where a scalar amount
-- of at most 10 passes, and one of more than 10 fails a nil map.
pub record Fits (r rr : Resource) : Type 0 where
  pub cpu_fits : r.milli_cpu <ℤ rr.milli_cpu +ℤ min_milli_cpu
  pub memory_fits : r.memory <ℤ rr.memory +ℤ min_memory
  pub scalars_fit :
      (k : String) (v : ℤ)
      → lookup k (entries r.scalar_resources) ≡ some v
      → min_milli_scalar_resources <ℤ v
      → (is_some rr.scalar_resources ≡ true)
        × (v <ℤ scalar rr.scalar_resources k +ℤ min_milli_scalar_resources)

less_equal_func_iff :
    (l r : ℤ) (d : ℕ) → (less_equal_func l r (pos (suc d)) ≡ true) ↔ (l <ℤ r +ℤ pos (suc d))
unfolding less_equal_func
less_equal_func_iff l r d = (
  λ e. ground (arith, -ℤ_parts l r, +ℤ_parts r (pos (suc d))),
  λ e. ground (arith, -ℤ_parts l r, +ℤ_parts r (pos (suc d))),
)

scalar_fits_iff :
    (m : Option (Dict ℤ)) (k : String) (v : ℤ)
    → (scalar_fits m k v ≡ true) ↔ (
        min_milli_scalar_resources <ℤ v
        → (is_some m ≡ true) × (v <ℤ scalar m k +ℤ min_milli_scalar_resources))
unfolding scalar_fits
scalar_fits_iff none k v = (λ e more. ground arith, λ f. ground (arith, f))
scalar_fits_iff (some l) k v = (
  λ e more. ground (arith, less_equal_func_iff v (scalar (some l) k) 9),
  λ f. ground (arith, f, less_equal_func_iff v (scalar (some l) k) 9),
)

-- For a receiver whose scalar map holds each name once, `LessEqual` returns true exactly where its
-- amounts fit within the margins.
pub less_equal_iff : (r rr : Resource) → HasMap r → (less_equal r rr ≡ true) ↔ Fits r rr
unfolding less_equal
less_equal_iff r rr h = (
  λ e. record {
    cpu_fits = (less_equal_func_iff r.milli_cpu rr.milli_cpu 9).0 (ground arith);
    memory_fits = (less_equal_func_iff r.memory rr.memory 10485759).0 (ground arith);
    scalars_fit = λ k v f more.
        (scalar_fits_iff rr.scalar_resources k v).0 (each.0 (ground arith) k v f) more;
  },
  λ b. ground (
    arith,
    (less_equal_func_iff r.milli_cpu rr.milli_cpu 9).1 b.cpu_fits,
    (less_equal_func_iff r.memory rr.memory 10485759).1 b.memory_fits,
    each.1 (λ k v f. (scalar_fits_iff rr.scalar_resources k v).1 (b.scalars_fit k v f)),
  ),
)
  where
    each : (all_entries (scalar_fits rr.scalar_resources) (entries r.scalar_resources) ≡ true) ↔ (
        (k : String) (v : ℤ)
        → lookup k (entries r.scalar_resources) ≡ some v
        → scalar_fits rr.scalar_resources k v ≡ true)
    each = all_entries_iff (scalar_fits rr.scalar_resources) (entries r.scalar_resources) h
