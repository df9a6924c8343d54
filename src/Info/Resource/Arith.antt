-- ===== src/Info/Resource/Arith.antt =====
-- Sums and differences of resources, read name by name.
use pinta_scheduler.Prelude.{
  ◌<◌, sym, ap, subst, ◌∙◌, Bool-cases, Option-cases, String, ◌≡◌, refl, ◌⊎◌, inl, inr, true,
  Option, none, some, [], ◌∷◌, arith, str_eq, if◌then◌else◌, or_else, is_some,
}
use pinta_scheduler.Prelude.Int.{ℤ, pos, ◌+ℤ◌, ◌≤ℤ◌, abs_ℤ, ltb_ℤ, eq_of_parts}
use pinta_scheduler.Prelude.Float.{
  float_add, float_sub, two_53, float_add-small, float_add_zero, float_sub_zero,
  float_sub-float_add,
}
use pinta_scheduler.Dict.{Dict, IsMap, lookup, range_new, entries}
use pinta_scheduler.Dict.Laws.{range-IsMap, lookup-nil, lookup-range, lookup-range_new}
use pinta_scheduler.Info.Resource.{
  Resource, scalar, cpu, memory_name, add, sub, sub_scalars, fit_delta, get, clone, clone_scalars,
  set_max_resource, max_scalars, min_milli_cpu, min_memory, min_milli_scalar_resources,
}

-- The scalar map holds a name once.
abbrev pub HasMap : Resource → Type 0
HasMap r = IsMap (entries r.scalar_resources)

-- The margin that `FitDelta` adds to a request.
abbrev pub margin : String → ℤ
margin k =
    if str_eq k cpu
    then min_milli_cpu
    else if str_eq k memory_name
    then min_memory
    else min_milli_scalar_resources

abbrev pub max_ℤ : ℤ → ℤ → ℤ
max_ℤ a b = if ltb_ℤ a b then b else a

pub clone-HasMap : (r : Resource) → HasMap r → HasMap (clone r)
unfolding clone clone_scalars
clone-HasMap r h = elim (Option-cases r.scalar_resources) [
  | inl e ↦ rw (e, clone_scalars) tt
  | inr (m, e) ↦ rw (e, clone_scalars) (range-IsMap (λ _ v. some v) [] m tt)
]

pub lookup-clone :
    (r : Resource) (k : String)
    → HasMap r
    → lookup k (entries (clone r).scalar_resources) ≡ lookup k (entries r.scalar_resources)
unfolding clone clone_scalars
lookup-clone r k h = elim (Option-cases r.scalar_resources) [
  | inl e ↦ rw (e, clone_scalars)
  | inr (m, e) ↦
      ground (arith, e, lookup-range (λ _ v. some v) k [] m (rw e at h), lookup-nil {V = ℤ} k)
]

scalar-clone :
    (k : String) (m : Option (Dict ℤ)) → IsMap (entries m) → scalar (clone_scalars m) k ≡ scalar m k
unfolding clone_scalars
scalar-clone k none h = refl
scalar-clone k (some m) h =
    ground (arith, lookup-range (λ _ v. some v) k [] m h, lookup-nil {V = ℤ} k)

-- A clone has the amounts of the original under every name, and its nil map is nil.
pub get-clone :
    (r : Resource) (k : String)
    → HasMap r
    → (get (clone r) k ≡ get r k)
      × (is_some (clone r).scalar_resources ≡ is_some r.scalar_resources)
      × ((clone r).max_task_num ≡ r.max_task_num)
unfolding get clone clone_scalars
get-clone r k h = ground (arith, scalar-clone k r.scalar_resources h)

abbrev add_body : Option ℤ → ℤ → Option ℤ
add_body old quant = some (float_add (or_else old (pos 0)) quant)

abbrev sub_body : Option ℤ → ℤ → Option ℤ
sub_body old quant = some (float_sub (or_else old (pos 0)) quant)

scalar-add :
    (k : String) (r rr : Resource)
    → HasMap rr
    → abs_ℤ (scalar r.scalar_resources k) < two_53
    → scalar (add r rr).scalar_resources k
      ≡ float_add (scalar r.scalar_resources k) (scalar rr.scalar_resources k)
unfolding add
scalar-add k r rr h small = ground (
  arith,
  float_add_zero (scalar r.scalar_resources k) small,
  lookup-range_new add_body k r.scalar_resources (entries rr.scalar_resources) h,
)

-- `Add` of a resource whose scalar map holds each name once adds the amounts of every name, of which
-- that of the receiver is below 2^53.
pub get-add :
    (r rr : Resource) (k : String)
    → HasMap rr
    → abs_ℤ (get r k) < two_53
    → get (add r rr) k ≡ float_add (get r k) (get rr k)
unfolding get add
get-add r rr k h small = elim (Bool-cases (str_eq k cpu)) [
  | inl same ↦ rw same refl
  | inr other ↦ elim (Bool-cases (str_eq k memory_name)) [
    | inl same ↦ rw (other, same) refl
    | inr more ↦ rw (other, more) (scalar-add k r rr h (ground (arith, small, other, more)))
  ]
]

scalar-sub :
    (k : String) (m : Option (Dict ℤ)) (l : Dict ℤ)
    → IsMap l
    → is_some m ≡ true
    → abs_ℤ (scalar m k) < two_53
    → scalar (sub_scalars m l) k ≡ float_sub (scalar m k) (scalar (some l) k)
unfolding sub_scalars
scalar-sub k none l h s small = cc
scalar-sub k (some m) l h s small =
    ground (arith, float_sub_zero (scalar (some m) k) small, lookup-range sub_body k m l h)

-- `Sub` subtracts the amounts of every name from a receiver that has a scalar map and whose amount of
-- the name is below 2^53.
pub get-sub :
    (r rr : Resource) (k : String)
    → HasMap rr
    → is_some r.scalar_resources ≡ true
    → abs_ℤ (get r k) < two_53
    → get (sub r rr) k ≡ float_sub (get r k) (get rr k)
unfolding get sub sub_scalars
get-sub r rr k h s small = elim (Bool-cases (str_eq k cpu)) [
  | inl same ↦ rw same refl
  | inr other ↦ elim (Bool-cases (str_eq k memory_name)) [
    | inl same ↦ rw (other, same) refl
    | inr more ↦
        rw (other, more)
          (scalar-sub k r.scalar_resources (entries rr.scalar_resources) h s
            (ground (arith, small, other, more)))
  ]
]

range_new-none :
    (body : Option ℤ → ℤ → Option ℤ) (m : Option (Dict ℤ)) (l : Dict ℤ)
    → (is_some (range_new body m l) ≡ true) ⊎ ((m ≡ none) × (l ≡ []))
unfolding range_new
range_new-none body none [] = inr (refl, refl)
range_new-none body (some m) [] = inl refl
range_new-none body m (e ∷ l) = inl refl

get-of_none :
    (r rr : Resource) (k : String)
    → r.scalar_resources ≡ none
    → entries rr.scalar_resources ≡ []
    → abs_ℤ (get r k) < two_53
    → abs_ℤ (get r k +ℤ get rr k) < two_53
    → get (sub (add r rr) rr) k ≡ get r k
unfolding get add sub sub_scalars range_new
get-of_none r rr k e f small sum = elim (Bool-cases (str_eq k cpu)) [
  | inl same ↦
      rw same (
        float_sub-float_add r.milli_cpu rr.milli_cpu (ground (arith, small, same)) (rw same at sum))
  | inr other ↦ elim (Bool-cases (str_eq k memory_name)) [
    | inl same ↦
        rw (other, same)
          (float_sub-float_add r.memory rr.memory (rw (other, same) at small)
            (rw (other, same) at sum))
    | inr more ↦ ground (arith, e, f, other, more)
  ]
]

-- Adding a resource whose scalar map holds each name once and subtracting it again leaves an amount as
-- it was, where neither that amount nor the sum of the two amounts of its name reaches 2^53, so that no
-- float64 is rounded.
pub get-sub-add :
    (r rr : Resource) (k : String)
    → HasMap rr
    → abs_ℤ (get r k) < two_53
    → abs_ℤ (get r k +ℤ get rr k) < two_53
    → get (sub (add r rr) rr) k ≡ get r k
get-sub-add r rr k h small sum =
    elim (range_new-none add_body r.scalar_resources (entries rr.scalar_resources)) [
      | inl made ↦
          let exact = float_add-small (get r k) (get rr k) sum in
          get-sub (add r rr) rr k h (unfold add in made)
            (subst (λ n. abs_ℤ n < two_53) (sym (get-add r rr k h small ∙ exact)) sum)
          ∙ ap (λ n. float_sub n (get rr k)) (get-add r rr k h small)
          ∙ float_sub-float_add (get r k) (get rr k) small sum
      | inr nothing ↦ get-of_none r rr k nothing.0 nothing.1 small sum
    ]

-- `FitDelta` by a request whose scalar map holds each name once takes a positive request and a
-- margin from the amount, and leaves a name whose request is not positive as it was.
pub get-fit_delta :
    (r rr : Resource) (k : String)
    → HasMap rr
    → get (fit_delta r rr) k ≡ (
        if ltb_ℤ (pos 0) (get rr k)
        then float_sub (get r k) (float_add (get rr k) (margin k))
        else get r k)
unfolding get fit_delta
get-fit_delta r rr k h = ground (
  arith,
  lookup-range_new
      (λ old quant.
        if ltb_ℤ (pos 0) quant
        then some (float_sub (or_else old (pos 0)) (float_add quant min_milli_scalar_resources))
        else none)
      k r.scalar_resources (entries rr.scalar_resources) h,
)

scalar-max :
    (k : String) (m : Option (Dict ℤ)) (l : Dict ℤ)
    → IsMap l
    → pos 0 ≤ℤ scalar m k
    → pos 0 ≤ℤ scalar (some l) k
    → scalar (max_scalars m l) k ≡ max_ℤ (scalar m k) (scalar (some l) k)
unfolding max_scalars
scalar-max k none [] h p q = ground (arith, lookup-nil {V = ℤ} k)
scalar-max k none (e ∷ l) h p q = ground (
  arith,
  lookup-nil {V = ℤ} k,
  lookup-range (λ _ v. some v) k [] (e ∷ l) h,
  eq_of_parts (pos 0) (scalar (some (e ∷ l)) k),
)
scalar-max k (some m) l h p q = ground (
  arith,
  lookup-range (λ old quant. if ltb_ℤ (or_else old (pos 0)) quant then some quant else none) k m l
      h,
)

-- `SetMaxResource` leaves the larger amount of each name whose two amounts are not negative.
pub get-set_max_resource :
    (r rr : Resource) (k : String)
    → HasMap rr
    → pos 0 ≤ℤ get r k
    → pos 0 ≤ℤ get rr k
    → (m : Resource) × (set_max_resource (some r) (some rr) ≡ some m)
      × (get m k ≡ max_ℤ (get r k) (get rr k))
unfolding get set_max_resource
get-set_max_resource r rr k h p q =
    (_, refl, ground (arith, scalar-max k r.scalar_resources (entries rr.scalar_resources) h))
