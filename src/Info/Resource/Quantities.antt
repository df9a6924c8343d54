-- ===== src/Info/Resource/Quantities.antt =====
-- `NewResource` and `ToResourceList`: resources and the lists of the Kubernetes API.
use pinta_scheduler.Prelude.{
  String, ◌≡◌, refl, ap, ◌∙◌, ◌⊎◌, inr, Bool, true, false, Option, none, some, [], ◌∷◌, arith,
  str_eq, str_eq_iff, if◌then◌else◌,
}
use pinta_scheduler.Prelude.Int.{ℤ, pos, ◌+ℤ◌, +ℤ_zero, zero_+ℤ}
use pinta_scheduler.Dict.{Dict, lookup, insert, IsMap, after, entries}
use pinta_scheduler.Dict.Laws.{lookup-nil, lookup-insert, insert-IsMap, lookup-range, range-IsMap}
use pinta_scheduler.Info.Resource.{
  Resource, QuantityApi, scalar, cpu, memory_name, pods, empty_resource, set_scalar, add_scalar,
  count_quantity, count_list, new_resource, to_resource_list,
}
use pinta_scheduler.Info.Resource.Arith.{HasMap}

module _ {Q : Type 0} (q : QuantityApi Q) where
  -- The amount that a list gives a name, in the unit of the name.
  abbrev pub amount : (Q → ℤ) → Option Q → ℤ
  amount f none = pos 0
  amount f (some quant) = f quant

  abbrev pub is_scalar_name : String → Bool
  is_scalar_name k =
      if str_eq k cpu
      then false
      else if str_eq k memory_name
      then false
      else if str_eq k pods
      then false
      else q.is_scalar_resource_name k

  scalar-count_quantity :
      (name : String) (quant : Q) (r : Resource) (k : String)
      → scalar (count_quantity q name quant r).scalar_resources k ≡ (
          if str_eq name k
          then if is_scalar_name k
            then scalar r.scalar_resources k +ℤ q.milli_value quant
            else scalar r.scalar_resources k
          else scalar r.scalar_resources k)
  unfolding count_quantity add_scalar set_scalar
  scalar-count_quantity name quant r k = ground (
    arith,
    str_eq_iff name k,
    lookup-insert k name (scalar r.scalar_resources name +ℤ q.milli_value quant)
        (entries r.scalar_resources),
  )

  scalar-count_list :
      (rl : Dict Q) (r : Resource) (k : String)
      → IsMap rl
      → scalar (count_list q r rl).scalar_resources k ≡ (
          if is_scalar_name k
          then scalar r.scalar_resources k +ℤ amount q.milli_value (lookup k rl)
          else scalar r.scalar_resources k)
  unfolding count_list lookup
  scalar-count_list [] r k h = ground (arith, +ℤ_zero (scalar r.scalar_resources k))
  scalar-count_list ((name, quant) ∷ rl) r k h = ground (
    arith,
    h.0,
    str_eq_iff name k,
    scalar-count_quantity name quant r k,
    scalar-count_list rl (count_quantity q name quant r) k h.1,
    +ℤ_zero (scalar r.scalar_resources k +ℤ q.milli_value quant),
  )

  fields-count_quantity :
      (name : String) (quant : Q) (r : Resource)
      → let r' = count_quantity q name quant r in
        (r'.milli_cpu
          ≡ (if str_eq name cpu then r.milli_cpu +ℤ q.milli_value quant else r.milli_cpu))
        × (r'.memory ≡ (if str_eq name memory_name then r.memory +ℤ q.value quant else r.memory))
        × (r'.max_task_num
            ≡ (if str_eq name pods then r.max_task_num +ℤ q.value quant else r.max_task_num))
  unfolding count_quantity add_scalar set_scalar
  fields-count_quantity name quant r = ground (
    arith,
    str_eq_iff name cpu,
    str_eq_iff name memory_name,
    str_eq_iff name pods,
    str_eq_iff cpu memory_name,
    str_eq_iff cpu pods,
    str_eq_iff memory_name pods,
  )

  fields-count_list :
      (rl : Dict Q) (r : Resource)
      → IsMap rl
      → let r' = count_list q r rl in
        (r'.milli_cpu ≡ r.milli_cpu +ℤ amount q.milli_value (lookup cpu rl))
        × (r'.memory ≡ r.memory +ℤ amount q.value (lookup memory_name rl))
        × (r'.max_task_num ≡ r.max_task_num +ℤ amount q.value (lookup pods rl))
  unfolding count_list lookup
  fields-count_list [] r h =
      ground (arith, +ℤ_zero r.milli_cpu, +ℤ_zero r.memory, +ℤ_zero r.max_task_num)
  fields-count_list ((name, quant) ∷ rl) r h =
      let (a, b, c) = fields-count_list rl (count_quantity q name quant r) h.1 in
      let (x, y, z) = fields-count_quantity name quant r in
      (
        ground
            (arith, a, x, h.0, str_eq_iff name cpu, +ℤ_zero (r.milli_cpu +ℤ q.milli_value quant)),
        ground (arith, b, y, h.0, str_eq_iff name memory_name, +ℤ_zero (r.memory +ℤ q.value quant)),
        ground (arith, c, z, h.0, str_eq_iff name pods, +ℤ_zero (r.max_task_num +ℤ q.value quant)),
      )

  -- `NewResource` of a list that holds each name once puts each entry into its field, cpu and
  -- scalars in thousandths and memory and pods in units. It gives 0 to what the list lacks, and
  -- drops the other names.
  pub new_resource_lem :
      (rl : Dict Q) (k : String)
      → IsMap rl
      → let r = new_resource q rl in
        (r.milli_cpu ≡ amount q.milli_value (lookup cpu rl))
        × (r.memory ≡ amount q.value (lookup memory_name rl))
        × (r.max_task_num ≡ amount q.value (lookup pods rl))
        × (scalar r.scalar_resources k
            ≡ (if is_scalar_name k then amount q.milli_value (lookup k rl) else pos 0))
  unfolding new_resource
  new_resource_lem rl k h =
      let (a, b, c) = fields-count_list rl empty_resource h in
      (
        a ∙ zero_+ℤ _,
        b ∙ zero_+ℤ _,
        c ∙ zero_+ℤ _,
        scalar-count_list rl empty_resource k h
            ∙ ground (arith, lookup-nil {V = ℤ} k, zero_+ℤ (amount q.milli_value (lookup k rl))),
      )

  count_quantity-HasMap :
      (name : String) (quant : Q) (r : Resource) → HasMap r → HasMap (count_quantity q name quant r)
  unfolding count_quantity add_scalar set_scalar
  count_quantity-HasMap name quant r h = ground (
    arith,
    h,
    insert-IsMap name (scalar r.scalar_resources name +ℤ q.milli_value quant)
        (entries r.scalar_resources) h,
  )

  count_list-HasMap : (rl : Dict Q) (r : Resource) → HasMap r → HasMap (count_list q r rl)
  unfolding count_list
  count_list-HasMap [] r h = h
  count_list-HasMap ((name, quant) ∷ rl) r h =
      count_list-HasMap rl (count_quantity q name quant r) (count_quantity-HasMap name quant r h)

  pub new_resource-HasMap : (rl : Dict Q) → HasMap (new_resource q rl)
  unfolding new_resource
  new_resource-HasMap rl = count_list-HasMap rl empty_resource tt

  -- What the conversions of the library promise: they keep whole thousandths and whole units.
  pub record ConvertsBack : Type 0 where
    pub milli_back : (n : ℤ) → q.milli_value (q.new_milli n) ≡ n
    pub quantity_back : (n : ℤ) → q.value (q.new_quantity n) ≡ n

  -- The scalar map names scalar resources only.
  abbrev pub HasScalarNames : Dict ℤ → Type 0
  HasScalarNames [] = Unit
  HasScalarNames ((k, v) ∷ m) = (is_scalar_name k ≡ true) × HasScalarNames m

  lookup-HasScalarNames :
      (m : Dict ℤ) (k : String) → HasScalarNames m → (is_scalar_name k ≡ true) ⊎ (lookup k m ≡ none)
  unfolding lookup
  lookup-HasScalarNames [] k h = inr refl
  lookup-HasScalarNames ((j, v) ∷ m) k h =
      ground (arith, h.0, str_eq_iff j k, lookup-HasScalarNames m k h.1)

  lookup-to_resource_list :
      (r : Resource) (k : String)
      → HasMap r
      → lookup k (to_resource_list q r)
        ≡ after
            (λ _ quantity. some (q.new_milli quantity))
            (if str_eq memory_name k
              then some (q.new_quantity r.memory)
              else if str_eq cpu k
              then some (q.new_milli r.milli_cpu)
              else none)
            (lookup k (entries r.scalar_resources))
  unfolding to_resource_list
  lookup-to_resource_list r k h =
      lookup-range (λ _ quantity. some (q.new_milli quantity)) k two_entries
        (entries r.scalar_resources) h
      ∙ ap
          (λ o.
            after (λ _ quantity. some (q.new_milli quantity)) o
              (lookup k (entries r.scalar_resources)))
          (lookup-insert k memory_name (q.new_quantity r.memory) one_entry
            ∙ ground
                (arith, lookup-insert k cpu (q.new_milli r.milli_cpu) [], lookup-nil {V = Q} k))
    where
      one_entry : Dict Q
      one_entry = insert cpu (q.new_milli r.milli_cpu) []

      two_entries : Dict Q
      two_entries = insert memory_name (q.new_quantity r.memory) one_entry

  to_resource_list-IsMap : (r : Resource) → HasMap r → IsMap (to_resource_list q r)
  unfolding to_resource_list
  to_resource_list-IsMap r h =
      range-IsMap (λ _ quantity. some (q.new_milli quantity)) _ (entries r.scalar_resources)
        (insert-IsMap memory_name _ _ (insert-IsMap cpu (q.new_milli r.milli_cpu) [] tt))

  -- A resource whose scalar map holds each name once, and names of scalar resources only, has the
  -- same cpu, memory and scalar amounts after it is written to a list and read back, where the
  -- quantities keep whole thousandths and whole units.
  pub new_resource-to_resource_list :
      (r : Resource) (k : String)
      → ConvertsBack
      → HasMap r
      → HasScalarNames (entries r.scalar_resources)
      → let r' = new_resource q (to_resource_list q r) in
        (r'.milli_cpu ≡ r.milli_cpu)
        × (r'.memory ≡ r.memory)
        × (scalar r'.scalar_resources k ≡ scalar r.scalar_resources k)
  new_resource-to_resource_list r k c h n =
      let (a, b, _, d) = new_resource_lem (to_resource_list q r) k (to_resource_list-IsMap r h) in
      let cpu_free = lookup-HasScalarNames (entries r.scalar_resources) cpu n in
      let memory_free = lookup-HasScalarNames (entries r.scalar_resources) memory_name n in
      let k_free = lookup-HasScalarNames (entries r.scalar_resources) k n in
      (
        ground (arith, a, lookup-to_resource_list r cpu h, cpu_free, c.milli_back r.milli_cpu),
        ground (
          arith,
          b,
          lookup-to_resource_list r memory_name h,
          memory_free,
          c.quantity_back r.memory,
        ),
        ground (
          arith,
          d,
          lookup-to_resource_list r k h,
          k_free,
          str_eq_iff cpu k,
          str_eq_iff memory_name k,
          c.milli_back (scalar r.scalar_resources k),
        ),
      )
