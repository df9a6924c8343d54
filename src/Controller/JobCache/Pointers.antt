-- ===== src/Controller/JobCache/Pointers.antt =====
-- The pointers of the job cache: what a read sees after a write and after an allocation.
use pinta_scheduler.Prelude.{
  ◌<◌, String, ◌≡◌, inl, inr, Option, some, [], ◌∷◌, arith, str_eq, str_eq_iff, str_eq_refl,
  if◌then◌else◌, Option-cases, length, get_elem?, length-append, length-set, get_elem?-set_self,
  get_elem?-set_ne, get_elem?-append_new, get_elem?-append_old,
}
use pinta_scheduler.Dict.{lookup}
use pinta_scheduler.Dict.Laws.{lookup-insert}
use mathlib.Core.Option
use native.Mathlib.Decide.{ℕ_discrete}
use pinta_scheduler.Controller.JobCache.{Pointer, JobInfo, JobCache, find, assign, allocate}

module _ {Q : Type 0} where
  -- Each key has a pointer into the heap, and no two keys have the same one.
  pub record IsValid (jc : JobCache Q) : Type 0 where
    pub in_heap : (k : String) (p : Pointer) → lookup k jc.jobs ≡ some p → p < length jc.heap
    pub no_alias :
        (j k : String) (p : Pointer) → lookup j jc.jobs ≡ some p → lookup k jc.jobs ≡ some p → j ≡ k

  -- The job info that the cache holds under a key.
  unfoldable pub view : String → JobCache Q → Option (JobInfo Q)
  view k jc = Option.map (λ (f : Pointer × JobInfo Q). f.1) (find k jc)

  module _ (jc : JobCache Q) (v : IsValid jc) where
    -- A key that the map has is found, and what is found is under the key.
    pub find_lem :
        (k : String) (p : Pointer) (ji : JobInfo Q)
        → find k jc ≡ some (p, ji)
        → (lookup k jc.jobs ≡ some p) × (get_elem? jc.heap p ≡ some ji)
    unfolding find
    find_lem k p ji e = ground arith

    pub view-assign :
        (j k : String) (p : Pointer) (old ji : JobInfo Q)
        → find k jc ≡ some (p, old)
        → view j (assign p ji jc) ≡ (if str_eq k j then some ji else view j jc)
    unfolding view find
    view-assign j k p old ji e =
        let (at, there) = find_lem k p old e in
        elim (Option-cases (lookup j jc.jobs)) [
          | inl missing ↦ ground (arith, missing, at, str_eq_iff k j)
          | inr (p', found) ↦ elim (ℕ_discrete p p') [
            | yes same ↦ ground (
              arith,
              v.no_alias k j p at (rw (← same) at found),
              str_eq_refl k,
              found,
              get_elem?-set_self jc.heap p ji (v.in_heap k p at),
            )
            | no other ↦ ground (
              arith,
              found,
              at,
              str_eq_iff k j,
              get_elem?-set_ne jc.heap {i = p} {j = p'} ji other,
            )
          ]
        ]

    pub view-allocate :
        (j k : String) (ji : JobInfo Q)
        → view j (allocate k ji jc) ≡ (if str_eq k j then some ji else view j jc)
    unfolding view find
    view-allocate j k ji = elim (Option-cases (lookup j jc.jobs)) [
      | inl missing ↦ ground (
        arith,
        missing,
        lookup-insert j k (length jc.heap) jc.jobs,
        get_elem?-append_new jc.heap ji,
      )
      | inr (p, found) ↦ ground (
        arith,
        found,
        lookup-insert j k (length jc.heap) jc.jobs,
        get_elem?-append_new jc.heap ji,
        get_elem?-append_old jc.heap (ji ∷ []) p (v.in_heap j p found),
      )
    ]

    pub assign-IsValid : (p : Pointer) (ji : JobInfo Q) → IsValid (assign p ji jc)
    assign-IsValid p ji = record {
      in_heap = λ k q e. rw (length-set jc.heap p ji) (v.in_heap k q e);
      no_alias = v.no_alias;
    }

    pub allocate-IsValid : (k : String) (ji : JobInfo Q) → IsValid (allocate k ji jc)
    allocate-IsValid k ji = record {
      in_heap = λ j q e. ground (
        arith,
        length-append jc.heap (ji ∷ []),
        lookup-insert j k (length jc.heap) jc.jobs,
        v.in_heap j q,
      );
      no_alias = λ i j q e f. ground (
        arith,
        str_eq_iff k i,
        str_eq_iff k j,
        lookup-insert i k (length jc.heap) jc.jobs,
        lookup-insert j k (length jc.heap) jc.jobs,
        v.no_alias i j q,
        v.in_heap i q,
        v.in_heap j q,
      );
    }
