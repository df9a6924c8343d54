-- ===== src/Scheduler/Equi/Pass.antt =====
-- One round of the policy equi over its jobs.
use pinta_scheduler.Prelude.{
  ap, ℕ, zero, suc, ◌+◌, ◌<◌, String, ◌≡◌, refl, sym, ◌∙◌, ◌⊎◌, inl, inr, Bool, true, false, ◌||◌,
  some, List, [], ◌∷◌, arith, str_eq, str_eq_iff, str_eq_refl, if◌then◌else◌, is_some, Option-cases,
  length,
}
use pinta_scheduler.Prelude.Int.{
  ℤ, pos, ◌+ℤ◌, ◌-ℤ◌, eqb_ℤ, +ℤ_parts, eq_of_parts, wrap32, wrap32_small, wrap64, two_31, +ℤ_zero,
}
use pinta_scheduler.Dict.{Dict, lookup, insert}
use pinta_scheduler.Dict.Sums.{sum_of, sum_of-insert}
use pinta_scheduler.Dict.Laws.{lookup-insert}
use mathlib.Core.Option
use pinta_scheduler.Info.Job.{JobInfo}
use pinta_scheduler.Scheduler.Equi.{sum_replicas, give_to, give, pass}

abbrev pub elem : String → List String → Bool
elem k [] = false
elem k (j ∷ js) = str_eq j k || elem k js

-- No name stands twice in the list.
abbrev pub IsUnique : List String → Type 0
IsUnique [] = Unit
IsUnique (k ∷ ks) = (elem k ks ≡ false) × IsUnique ks

first : (k : String) (o : List String) → elem k (k ∷ o) ≡ true
first k o = ground (arith, str_eq_refl k)

later : (k j : String) (o : List String) → elem k o ≡ true → elem k (j ∷ o) ≡ true
later k j o e = ground (arith, e)

minus_one : (r : ℕ) → r < two_31 → wrap64 (pos (suc r) -ℤ pos 1) ≡ pos r
unfolding ◌-ℤ◌ wrap64
minus_one r h = ground arith

plus_one : (i : ℕ) → suc i < two_31 → wrap32 (pos i +ℤ pos 1) ≡ pos (suc i)
unfolding ◌+ℤ◌
plus_one i h = ground (arith, wrap32_small (suc i) h)

cancel_one : (i : ℕ) (a b : ℤ) → a +ℤ pos i ≡ b +ℤ pos (suc i) → a ≡ b +ℤ pos 1
cancel_one i a b h =
    eq_of_parts _ _
      (ground (arith, +ℤ_parts a (pos i), +ℤ_parts b (pos (suc i)), +ℤ_parts b (pos 1), h))

add_more : (a b c : ℤ) (n : ℕ) → a ≡ b +ℤ pos n → b ≡ c +ℤ pos 1 → a ≡ c +ℤ pos (suc n)
add_more a b c n e f =
    eq_of_parts _ _
      (ground (arith, e, f, +ℤ_parts b (pos n), +ℤ_parts c (pos 1), +ℤ_parts c (pos (suc n))))

pub add_both : (a b c : ℤ) (m n : ℕ) → a ≡ b +ℤ pos m → b ≡ c +ℤ pos n → a ≡ c +ℤ pos (m + n)
add_both a b c m n e f =
    eq_of_parts _ _
      (ground (arith, e, f, +ℤ_parts b (pos m), +ℤ_parts c (pos n), +ℤ_parts c (pos (m + n))))

suc_is_not_zero : (r : ℕ) → eqb_ℤ (pos (suc r)) (pos 0) ≡ false
suc_is_not_zero r = ground arith

module _ {Q F : Type 0} where
  -- An order in which a loop over the jobs can visit them: each job once.
  pub record IsOrder (jobs : Dict (JobInfo Q F)) (o : List String) : Type 0 where
    pub unique : IsUnique o
    pub same_keys : (k : String) → elem k o ≡ is_some (lookup k jobs)

  -- Each job in `o` has `i` replicas, and each other job has one more.
  unfoldable pub Level : Dict (JobInfo Q F) → List String → ℕ → Type 0
  Level jobs o i =
      (k : String) (ji : JobInfo Q F)
      → lookup k jobs ≡ some ji
      → ji.num_replicas ≡ (if elem k o then pos i else pos (suc i))

  -- Each job has `a` replicas or one more.
  abbrev pub IsFair : Dict (JobInfo Q F) → ℤ → Type 0
  IsFair jobs a =
      (k : String) (ji : JobInfo Q F)
      → lookup k jobs ≡ some ji
      → (ji.num_replicas ≡ a) ⊎ (ji.num_replicas ≡ a +ℤ pos 1)

  abbrev pub SameJobs : Dict (JobInfo Q F) → Dict (JobInfo Q F) → Type 0
  SameJobs jobs jobs' = (k : String) → is_some (lookup k jobs') ≡ is_some (lookup k jobs)

  abbrev bump : JobInfo Q F → JobInfo Q F
  bump ji = record ji { num_replicas = wrap32 (ji.num_replicas +ℤ pos 1) }

  lookup-give :
      (uid k : String) (jobs : Dict (JobInfo Q F))
      → lookup k (give uid jobs)
        ≡ (if str_eq uid k then Option.map bump (lookup k jobs) else lookup k jobs)
  unfolding give give_to
  lookup-give uid k jobs = elim (Option-cases (lookup uid jobs)) [
    | inl missing ↦ ground (arith, missing, str_eq_iff uid k)
    | inr (ji, there) ↦ ground (arith, there, str_eq_iff uid k, lookup-insert k uid (bump ji) jobs)
  ]

  sum_replicas-sum_of :
      (jobs : Dict (JobInfo Q F))
      → sum_replicas jobs ≡ sum_of (λ (ji : JobInfo Q F). ji.num_replicas) jobs
  unfolding sum_replicas sum_of
  sum_replicas-sum_of [] = refl
  sum_replicas-sum_of ((uid, ji) ∷ jobs) = ap (λ s. ji.num_replicas +ℤ s) (sum_replicas-sum_of jobs)

  sum_replicas-insert :
      (uid : String) (old ji : JobInfo Q F) (jobs : Dict (JobInfo Q F))
      → lookup uid jobs ≡ some old
      → sum_replicas (insert uid ji jobs) +ℤ old.num_replicas ≡ sum_replicas jobs +ℤ ji.num_replicas
  sum_replicas-insert uid old ji jobs there =
      rw (sum_replicas-sum_of (insert uid ji jobs), sum_replicas-sum_of jobs)
        (sum_of-insert (λ (x : JobInfo Q F). x.num_replicas) uid old ji jobs there)

  sum_replicas-give :
      (uid : String) (ji : JobInfo Q F) (jobs : Dict (JobInfo Q F)) (i : ℕ)
      → lookup uid jobs ≡ some ji
      → ji.num_replicas ≡ pos i
      → suc i < two_31
      → sum_replicas (give uid jobs) ≡ sum_replicas jobs +ℤ pos 1
  unfolding give give_to
  sum_replicas-give uid ji jobs i there has small =
      rw (there, has, plus_one i small)
        (cancel_one i _ (sum_replicas jobs) (
          rw has at
            (sum_replicas-insert uid ji (record ji { num_replicas = pos (suc i) }) jobs there)))

  Level-give :
      (uid : String) (o : List String) (jobs : Dict (JobInfo Q F)) (i : ℕ)
      → suc i < two_31
      → elem uid o ≡ false
      → Level jobs (uid ∷ o) i
      → Level (give uid jobs) o i
  unfolding Level
  Level-give uid o jobs i small fresh h k ji e = elim (Option-cases (lookup k jobs)) [
    | inl missing ↦ ground (arith, e, missing, lookup-give uid k jobs)
    | inr (x, there) ↦ ground (
      arith,
      e,
      there,
      lookup-give uid k jobs,
      str_eq_iff uid k,
      fresh,
      plus_one i small,
      h k x there,
    )
  ]

  give-SameJobs : (uid : String) (jobs : Dict (JobInfo Q F)) → SameJobs jobs (give uid jobs)
  give-SameJobs uid jobs k = ground (arith, lookup-give uid k jobs)

  -- What a pass over `o` leaves, from jobs of which those in `o` have `i` replicas and the others one
  -- more, with `r + 1` nodes left.
  pub data Passes (o : List String) (i r : ℕ) (jobs : Dict (JobInfo Q F))
      : Dict (JobInfo Q F) × ℤ × Bool → Type 0 where
    returns :
        (jobs' : Dict (JobInfo Q F))
        → sum_replicas jobs' ≡ sum_replicas jobs +ℤ pos (suc r)
        → IsFair jobs' (pos i)
        → SameJobs jobs jobs'
        → Passes o i r jobs (jobs', pos 0, true)
    goes_on :
        (jobs' : Dict (JobInfo Q F)) (left : ℕ)
        → left + length o ≡ r
        → sum_replicas jobs' ≡ sum_replicas jobs +ℤ pos (length o)
        → Level jobs' [] i
        → SameJobs jobs jobs'
        → Passes o i r jobs (jobs', pos (suc left), false)

  Level-IsFair :
      (o : List String) (i : ℕ) (jobs : Dict (JobInfo Q F)) → Level jobs o i → IsFair jobs (pos i)
  unfolding Level ◌+ℤ◌
  Level-IsFair o i jobs h k ji e = ground (arith, h k ji e)

  give_counts :
      (uid : String) (o : List String) (jobs : Dict (JobInfo Q F)) (i : ℕ)
      → suc i < two_31
      → is_some (lookup uid jobs) ≡ true
      → Level jobs (uid ∷ o) i
      → sum_replicas (give uid jobs) ≡ sum_replicas jobs +ℤ pos 1
  unfolding Level
  give_counts uid o jobs i small there h = elim (Option-cases (lookup uid jobs)) [
    | inl missing ↦ ground (arith, missing)
    | inr (ji, found) ↦
        sum_replicas-give uid ji jobs i found (ground (arith, h uid ji found, str_eq_refl uid))
          small
  ]

  Passes-cons :
      (uid : String) (o : List String) (i r : ℕ) (jobs jobs1 : Dict (JobInfo Q F))
      (out : Dict (JobInfo Q F) × ℤ × Bool)
      → sum_replicas jobs1 ≡ sum_replicas jobs +ℤ pos 1
      → SameJobs jobs jobs1
      → Passes o i r jobs1 out
      → Passes (uid ∷ o) i (suc r) jobs out
  Passes-cons uid o i r jobs jobs1 out e same (returns jobs' total fair same') =
      returns jobs' (add_more _ _ _ (suc r) total e) fair (λ k. same' k ∙ same k)
  Passes-cons uid o i r jobs jobs1 out e same (goes_on jobs' left used total level same') =
      goes_on jobs' left (ground (arith, used)) (add_more _ _ _ (length o) total e) level
        (λ k. same' k ∙ same k)

  pub pass-Passes :
      (o : List String) (i r : ℕ) (jobs : Dict (JobInfo Q F))
      → suc i < two_31
      → r < two_31
      → IsUnique o
      → ((k : String) → elem k o ≡ true → is_some (lookup k jobs) ≡ true)
      → Level jobs o i
      → Passes o i r jobs (pass o jobs (pos (suc r)))
  unfolding pass
  pass-Passes [] i r jobs small few u there h =
      goes_on jobs r (ground arith) (sym (+ℤ_zero _)) h (λ k. refl)
  pass-Passes (uid ∷ o) i zero jobs small few u there h =
      let level = Level-give uid o jobs i small u.0 h in
      rw (minus_one zero few) (
        returns (give uid jobs) (give_counts uid o jobs i small (there uid (first uid o)) h)
          (Level-IsFair o i (give uid jobs) level) (give-SameJobs uid jobs))
  pass-Passes (uid ∷ o) i (suc r) jobs small few u there h =
      rw (minus_one (suc r) few, suc_is_not_zero r)
        (Passes-cons uid o i r jobs (give uid jobs) _
          (give_counts uid o jobs i small (there uid (first uid o)) h) (give-SameJobs uid jobs)
          (pass-Passes o i r (give uid jobs) small (ground (arith, few)) u.1
            (λ k e. give-SameJobs uid jobs k ∙ there k (later k uid o e))
            (Level-give uid o jobs i small u.0 h)))
