-- ===== src/Info/Resource/Compare.antt =====
-- The comparisons and the difference of pkg/apis/info/resource_info.go.
use pinta_scheduler.Prelude.{
  String, Option, none, some, [], ◌∷◌, Bool, true, false, ◌&&◌, ◌||◌, if◌then◌else◌,
}
use pinta_scheduler.Prelude.Int.{ℤ, pos, ◌+ℤ◌, ◌-ℤ◌, ltb_ℤ, leb_ℤ, eqb_ℤ, abs_ℤ}
use pinta_scheduler.Dict.{Dict, insert, entries, all_entries}
use pinta_scheduler.Info.Resource.{
  Resource, scalar, empty_resource, min_milli_cpu, min_memory, min_milli_scalar_resources,
}

unfoldable pub equal_strict : Resource → Resource → Bool
equal_strict r rr =
    eqb_ℤ r.milli_cpu rr.milli_cpu
    && eqb_ℤ r.memory rr.memory
    && all_entries (λ name quant. eqb_ℤ quant (scalar rr.scalar_resources name))
        (entries r.scalar_resources)

unfoldable pub less_equal_strict : Resource → Resource → Bool
less_equal_strict r rr =
    leb_ℤ r.milli_cpu rr.milli_cpu
    && leb_ℤ r.memory rr.memory
    && all_entries (λ name quant. leb_ℤ quant (scalar rr.scalar_resources name))
        (entries r.scalar_resources)

-- The part of `Less` about the scalar maps, by which of them is nil.
unfoldable pub less_scalars : Option (Dict ℤ) → Option (Dict ℤ) → Bool
less_scalars none none = true
less_scalars none (some l) =
    all_entries (λ _ quant. if leb_ℤ quant min_milli_scalar_resources then false else true) l
less_scalars (some m) none = false
less_scalars (some m) (some l) = all_entries (λ name quant. ltb_ℤ quant (scalar (some l) name)) m

unfoldable pub less : Resource → Resource → Bool
unfolding less_scalars
less r rr =
    ltb_ℤ r.milli_cpu rr.milli_cpu
    && ltb_ℤ r.memory rr.memory
    && less_scalars r.scalar_resources rr.scalar_resources

-- `lessEqualFunc`: l < r || math.Abs(l-r) < diff
unfoldable pub less_equal_func : ℤ → ℤ → ℤ → Bool
less_equal_func l r diff = ltb_ℤ l r || ltb_ℤ (pos (abs_ℤ (l -ℤ r))) diff

-- The body of the loop of `LessEqual`, over the other's map, which may be nil.
unfoldable pub scalar_fits : Option (Dict ℤ) → String → ℤ → Bool
scalar_fits none name quant = leb_ℤ quant min_milli_scalar_resources
scalar_fits (some l) name quant =
    leb_ℤ quant min_milli_scalar_resources
    || less_equal_func quant (scalar (some l) name) min_milli_scalar_resources

unfoldable pub less_equal : Resource → Resource → Bool
unfolding scalar_fits less_equal_func
less_equal r rr =
    less_equal_func r.milli_cpu rr.milli_cpu min_milli_cpu
    && less_equal_func r.memory rr.memory min_memory
    && all_entries (scalar_fits rr.scalar_resources) (entries r.scalar_resources)

-- m[k] += v, where the map is made if it is nil.
abbrev pub put_more : Option (Dict ℤ) → String → ℤ → Option (Dict ℤ)
put_more m name v = some (insert name (scalar m name +ℤ v) (entries m))

-- The loop of `Diff`, over the two maps that it fills.
unfoldable pub diff_scalars :
    Option (Dict ℤ) → Dict ℤ → Option (Dict ℤ) → Option (Dict ℤ) → Option (Dict ℤ) × Option (Dict ℤ)
diff_scalars rr [] inc dec = (inc, dec)
diff_scalars rr ((name, quant) ∷ m) inc dec =
    let other = scalar rr name in
    diff_scalars rr m (if ltb_ℤ other quant then put_more inc name (quant -ℤ other) else inc)
      (if ltb_ℤ other quant then dec else put_more dec name (other -ℤ quant))

-- The increased and the decreased amounts.
unfoldable pub diff : Resource → Resource → Resource × Resource
unfolding diff_scalars
diff r rr =
    let (inc, dec) = diff_scalars rr.scalar_resources (entries r.scalar_resources) none none in
    let more_cpu = ltb_ℤ rr.milli_cpu r.milli_cpu in
    let more_memory = ltb_ℤ rr.memory r.memory in
    (
      record empty_resource {
        milli_cpu = if more_cpu then pos 0 +ℤ (r.milli_cpu -ℤ rr.milli_cpu) else pos 0;
        memory = if more_memory then pos 0 +ℤ (r.memory -ℤ rr.memory) else pos 0;
        scalar_resources = inc;
      },
      record empty_resource {
        milli_cpu = if more_cpu then pos 0 else pos 0 +ℤ (rr.milli_cpu -ℤ r.milli_cpu);
        memory = if more_memory then pos 0 else pos 0 +ℤ (rr.memory -ℤ r.memory);
        scalar_resources = dec;
      },
    )
