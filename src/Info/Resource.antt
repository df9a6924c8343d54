-- ===== src/Info/Resource.antt =====
-- pkg/apis/info/resource_info.go. A method that mutates its receiver returns the new receiver.
-- A float64 amount is a whole number, since each comes from an int64. Add, Sub and FitDelta round their
-- sums and differences as a float64 does; NewResource and AddScalar are read as exact, as they are
-- below 2^53. `Multi`, whose ratio is a true float64, is left out.
pub mod Compare
pub mod Arith
pub mod Difference
pub mod Order
pub mod Quantities
use mathlib.Core.Option
use pinta_scheduler.Prelude.{
  String, Option, none, some, List, [], ◌∷◌, ◌++◌, Bool, true, false, not, ◌&&◌, ◌||◌, str_eq,
  if◌then◌else◌, or_else, map,
}
use pinta_scheduler.Prelude.Int.{ℤ, pos, ◌+ℤ◌, ◌-ℤ◌, ltb_ℤ, leb_ℤ, eqb_ℤ}
use pinta_scheduler.Prelude.Float.{float_add, float_sub}
use pinta_scheduler.Dict.{Dict, lookup, insert, range, range_new, entries, all_entries}

-- k8s.io/apimachinery's resource.Quantity, and the names of scalar resources.
pub record QuantityApi (Q : Type 0) : Type 0 where
  pub milli_value : Q → ℤ
  pub value : Q → ℤ
  pub is_zero : Q → Bool
  pub equal : Q → Q → Bool
  pub one : Q  -- resource.ParseQuantity("1")
  pub new_milli : ℤ → Q  -- resource.NewScaledQuantity(_, -3)
  pub new_quantity : ℤ → Q  -- resource.NewQuantity(_, resource.BinarySI)
  pub is_scalar_resource_name : String → Bool

abbrev pub cpu : String
cpu = "cpu"

abbrev pub memory_name : String
memory_name = "memory"

abbrev pub pods : String
pods = "pods"

pub record Resource : Type 0 where
  pub milli_cpu : ℤ
  pub memory : ℤ
  pub scalar_resources : Option (Dict ℤ)  -- none is the nil map
  pub max_task_num : ℤ

abbrev pub min_milli_cpu : ℤ
min_milli_cpu = pos 10

abbrev pub min_milli_scalar_resources : ℤ
min_milli_scalar_resources = pos 10

abbrev pub min_memory : ℤ
min_memory = pos 10485760

abbrev pub empty_resource : Resource
empty_resource = record {
  milli_cpu = pos 0;
  memory = pos 0;
  scalar_resources = none;
  max_task_num = pos 0;
}

-- m[k], which is 0 where the key is missing or the map is nil.
abbrev pub scalar : Option (Dict ℤ) → String → ℤ
scalar m k = or_else (lookup k (entries m)) (pos 0)

clone_scalars : Option (Dict ℤ) → Option (Dict ℤ)
clone_scalars none = none
clone_scalars (some m) = some (range (λ _ v. some v) [] m)

unfoldable pub clone : Resource → Resource
unfolding clone_scalars
clone r = record r { scalar_resources = clone_scalars r.scalar_resources }

unfoldable pub set_scalar : String → ℤ → Resource → Resource
set_scalar name quantity r = record r {
  scalar_resources = some (insert name quantity (entries r.scalar_resources));
}

unfoldable pub add_scalar : String → ℤ → Resource → Resource
unfolding set_scalar
add_scalar name quantity r = set_scalar name (scalar r.scalar_resources name +ℤ quantity) r

module _ {Q : Type 0} (q : QuantityApi Q) where
  -- The body of the loop of `NewResource`.
  unfoldable pub count_quantity : String → Q → Resource → Resource
  count_quantity name quant r =
      if str_eq name cpu
      then record r { milli_cpu = r.milli_cpu +ℤ q.milli_value quant }
      else if str_eq name memory_name
      then record r { memory = r.memory +ℤ q.value quant }
      else if str_eq name pods
      then record r { max_task_num = r.max_task_num +ℤ q.value quant }
      else if q.is_scalar_resource_name name
      then add_scalar name (q.milli_value quant) r
      else r

  unfoldable pub count_list : Resource → Dict Q → Resource
  count_list r [] = r
  count_list r ((name, quant) ∷ rl) = count_list (count_quantity name quant r) rl

  unfoldable pub new_resource : Dict Q → Resource
  new_resource rl = count_list empty_resource rl

  unfoldable pub to_resource_list : Resource → Dict Q
  to_resource_list r =
      range (λ _ quantity. some (q.new_milli quantity))
        (insert memory_name (q.new_quantity r.memory) (insert cpu (q.new_milli r.milli_cpu) []))
        (entries r.scalar_resources)

unfoldable pub is_empty : Resource → Bool
is_empty r =
    ltb_ℤ r.milli_cpu min_milli_cpu
    && ltb_ℤ r.memory min_memory
    && all_entries (λ _ quant. not (leb_ℤ min_milli_scalar_resources quant))
        (entries r.scalar_resources)

scalar_is_zero : Option (Dict ℤ) → String → Bool
scalar_is_zero none name = true
scalar_is_zero (some m) name = ltb_ℤ (scalar (some m) name) min_milli_scalar_resources

unfoldable pub is_zero : Resource → String → Bool
unfolding scalar_is_zero
is_zero r name =
    if str_eq name cpu
    then ltb_ℤ r.milli_cpu min_milli_cpu
    else if str_eq name memory_name
    then ltb_ℤ r.memory min_memory
    else scalar_is_zero r.scalar_resources name

unfoldable pub get : Resource → String → ℤ
get r name =
    if str_eq name cpu
    then r.milli_cpu
    else if str_eq name memory_name
    then r.memory
    else scalar r.scalar_resources name

scalar_names : Dict ℤ → List String
scalar_names [] = []
scalar_names ((name, quant) ∷ m) = name ∷ scalar_names m

unfoldable pub resource_names : Resource → List String
unfolding scalar_names
resource_names r = cpu ∷ memory_name ∷ scalar_names (entries r.scalar_resources)

unfoldable pub add : Resource → Resource → Resource
add r rr = record r {
  milli_cpu = float_add r.milli_cpu rr.milli_cpu;
  memory = float_add r.memory rr.memory;
  scalar_resources =
      range_new (λ old quant. some (float_add (or_else old (pos 0)) quant)) r.scalar_resources
        (entries rr.scalar_resources);
}

sub_scalars : Option (Dict ℤ) → Dict ℤ → Option (Dict ℤ)
sub_scalars none l = none
sub_scalars (some m) l =
    some (range (λ old quant. some (float_sub (or_else old (pos 0)) quant)) m l)

unfoldable pub sub : Resource → Resource → Resource
unfolding sub_scalars
sub r rr = record r {
  milli_cpu = float_sub r.milli_cpu rr.milli_cpu;
  memory = float_sub r.memory rr.memory;
  scalar_resources = sub_scalars r.scalar_resources (entries rr.scalar_resources);
}

unfoldable pub fit_delta : Resource → Resource → Resource
fit_delta r rr = record r {
  milli_cpu =
      if ltb_ℤ (pos 0) rr.milli_cpu
      then float_sub r.milli_cpu (float_add rr.milli_cpu min_milli_cpu)
      else r.milli_cpu;
  memory =
      if ltb_ℤ (pos 0) rr.memory
      then float_sub r.memory (float_add rr.memory min_memory)
      else r.memory;
  scalar_resources =
      range_new
        (λ old quant.
          if ltb_ℤ (pos 0) quant
          then some (float_sub (or_else old (pos 0)) (float_add quant min_milli_scalar_resources))
          else none)
        r.scalar_resources (entries rr.scalar_resources);
}

max_scalars : Option (Dict ℤ) → Dict ℤ → Option (Dict ℤ)
max_scalars none [] = none
max_scalars none (e ∷ l) = some (range (λ _ v. some v) [] (e ∷ l))
max_scalars (some m) l =
    some (range (λ old quant. if ltb_ℤ (or_else old (pos 0)) quant then some quant else none) m l)

-- The receiver and the argument may be nil.
unfoldable pub set_max_resource : Option Resource → Option Resource → Option Resource
unfolding max_scalars
set_max_resource none rr = none
set_max_resource (some r) none = some r
set_max_resource (some r) (some rr) = some (record r {
  milli_cpu = if ltb_ℤ r.milli_cpu rr.milli_cpu then rr.milli_cpu else r.milli_cpu;
  memory = if ltb_ℤ r.memory rr.memory then rr.memory else r.memory;
  scalar_resources = max_scalars r.scalar_resources (entries rr.scalar_resources);
})

-- The loop writes to the entry that it visits, and to no other.
unfoldable pub min_scalars : Option (Dict ℤ) → Dict ℤ → Dict ℤ
min_scalars rr [] = []
min_scalars rr ((name, quant) ∷ m) =
    (name, if ltb_ℤ (scalar rr name) quant then scalar rr name else quant) ∷ min_scalars rr m

unfoldable pub min_resource : Resource → Resource → Resource
unfolding min_scalars
min_resource r rr = record r {
  milli_cpu = if ltb_ℤ rr.milli_cpu r.milli_cpu then rr.milli_cpu else r.milli_cpu;
  memory = if ltb_ℤ rr.memory r.memory then rr.memory else r.memory;
  scalar_resources = Option.map (min_scalars rr.scalar_resources) r.scalar_resources;
}

unfoldable pub set_min_resource : Option Resource → Option Resource → Option Resource
unfolding min_resource
set_min_resource none rr = none
set_min_resource (some r) none = some r
set_min_resource (some r) (some rr) = some (min_resource r rr)
