-- ===== src/Samples/Resources.antt =====
-- The theorems on resources, at sample resources.
use pinta_scheduler.Prelude.{◌≡◌, refl, ◌↔◌, true, false, some, [], ◌∷◌, arith}
use pinta_scheduler.Prelude.Int.{pos}
use pinta_scheduler.Dict.{lookup, all_entries}
use pinta_scheduler.Samples.{amounts, gpu, small, large, plain}
use pinta_scheduler.Info.Resource.{
  get, add, sub, min_resource, new_resource, to_resource_list, scalar,
}
use pinta_scheduler.Info.Resource.Compare.{less_equal_strict, less_equal, equal_strict}
use pinta_scheduler.Info.Resource.Arith.{HasMap, get-sub-add}
use pinta_scheduler.Prelude.{◌<◌}
use pinta_scheduler.Prelude.Int.{abs_ℤ, ◌+ℤ◌}
use pinta_scheduler.Prelude.Float.{two_53}
use pinta_scheduler.Info.Resource.Order.{Fits, less_equal_iff, min_resource-greatest}
use pinta_scheduler.Info.Resource.Difference.{equal_strict_one_sided}
use pinta_scheduler.Info.Resource.Quantities.{ConvertsBack, new_resource-to_resource_list}

small-HasMap : HasMap small
unfolding lookup
small-HasMap = (refl, tt)

large-HasMap : HasMap large
unfolding lookup
large-HasMap = (refl, tt)

less_equal_iff_example : (less_equal large small ≡ true) ↔ Fits large small
less_equal_iff_example = less_equal_iff large small large-HasMap

small_below_large : less_equal_strict small large ≡ true
unfolding less_equal_strict all_entries lookup
small_below_large = refl

min_resource-greatest_example :
    (less_equal_strict (min_resource large large) large ≡ true)
    × (less_equal_strict (min_resource large large) large ≡ true)
    × (less_equal_strict small (min_resource large large) ≡ true)
min_resource-greatest_example =
    min_resource-greatest small large large small-HasMap large-HasMap small_below_large
      small_below_large

gpu_found : lookup gpu ((gpu, pos 4000) ∷ []) ≡ some (pos 4000)
unfolding lookup
gpu_found = refl

equal_strict_one_sided_example :
    (equal_strict plain (record plain { scalar_resources = some ((gpu, pos 4000) ∷ []) }) ≡ true)
    × (equal_strict (record plain { scalar_resources = some ((gpu, pos 4000) ∷ []) }) plain ≡ false)
equal_strict_one_sided_example =
    equal_strict_one_sided plain ((gpu, pos 4000) ∷ []) gpu (pos 4000) refl large-HasMap gpu_found
      (λ e. ground (arith, e))

plain_small : abs_ℤ (get plain gpu) < two_53
unfolding get lookup
plain_small = omega arith

sum_small : abs_ℤ (get plain gpu +ℤ get small gpu) < two_53
unfolding get lookup ◌+ℤ◌
sum_small = omega arith

get-sub-add_example : get (sub (add plain small) small) gpu ≡ get plain gpu
get-sub-add_example = get-sub-add plain small gpu small-HasMap plain_small sum_small

amounts-ConvertsBack : ConvertsBack amounts
amounts-ConvertsBack = record { milli_back = λ n. refl; quantity_back = λ n. refl }

new_resource-to_resource_list_example :
    ((new_resource amounts (to_resource_list amounts large)).milli_cpu ≡ pos 8000)
    × ((new_resource amounts (to_resource_list amounts large)).memory ≡ pos 4096)
    × (scalar (new_resource amounts (to_resource_list amounts large)).scalar_resources gpu
        ≡ scalar large.scalar_resources gpu)
new_resource-to_resource_list_example =
    new_resource-to_resource_list amounts large gpu amounts-ConvertsBack large-HasMap (refl, tt)
