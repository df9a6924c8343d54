-- ===== src/Scheduler/Equi/Stable.antt =====
-- A second run of the policy equi keeps what the first one gave.
use pinta_scheduler.Prelude.{
  ℕ, zero, suc, ◌≤◌, ◌<◌, String, ◌≡◌, refl, subst, inl, inr, true, false, ◌||◌, none, some, List,
  [], ◌∷◌, arith, str_eq_iff, str_eq_refl, leb, ◌==◌, Bool-cases, Option-cases, length,
}
use pinta_scheduler.Prelude.Int.{
  wrap64, ℤ, pos, negsuc, ◌+ℤ◌, ◌-ℤ◌, eqb_ℤ, +ℤ_parts, -ℤ_parts, eqb_ℤ_refl, two_31,
}
use pinta_scheduler.Dict.{Dict, lookup, IsMap}
use pinta_scheduler.Dict.Laws.{insert-IsMap}
use pinta_scheduler.Info.Job.{JobInfo}
use pinta_scheduler.Scheduler.Equi.{
  put_key, judge, sum_replicas, differ_by_one, is_balanced, reset, give_to, give, pass, rounds,
  execute,
}
use pinta_scheduler.Scheduler.Equi.Pass.{IsOrder, IsFair}
use pinta_scheduler.Scheduler.Equi.Shares.{execute-IsFair}

-- Lists of at most two numbers, `a` and the next one.
data Near (a : ℤ) : List ℤ → Type 0 where
  neither : Near a []
  low : Near a (a ∷ [])
  high : Near a ((a +ℤ pos 1) ∷ [])
  low_high : Near a (a ∷ (a +ℤ pos 1) ∷ [])
  high_low : Near a ((a +ℤ pos 1) ∷ a ∷ [])

apart : (a : ℤ) → (eqb_ℤ a (a +ℤ pos 1) ≡ false) × (eqb_ℤ (a +ℤ pos 1) a ≡ false)
apart a = ground (arith, +ℤ_parts a (pos 1))

put_low : (a : ℤ) (ks : List ℤ) → Near a ks → Near a (put_key a ks)
unfolding put_key
put_low a ks neither = low
put_low a ks low = rw (eqb_ℤ_refl a) low
put_low a ks high = rw ((apart a).0) high_low
put_low a ks low_high = rw (eqb_ℤ_refl a) low_high
put_low a ks high_low = rw ((apart a).0, eqb_ℤ_refl a) high_low

put_high : (a : ℤ) (ks : List ℤ) → Near a ks → Near a (put_key (a +ℤ pos 1) ks)
unfolding put_key
put_high a ks neither = high
put_high a ks low = rw ((apart a).1) low_high
put_high a ks high = rw (eqb_ℤ_refl (a +ℤ pos 1)) high
put_high a ks low_high = rw ((apart a).1, eqb_ℤ_refl (a +ℤ pos 1)) low_high
put_high a ks high_low = rw (eqb_ℤ_refl (a +ℤ pos 1)) high_low

one_below : (a : ℤ) → eqb_ℤ (a -ℤ (a +ℤ pos 1)) (negsuc 0) ≡ true
one_below a = ground (arith, +ℤ_parts a (pos 1), -ℤ_parts a (a +ℤ pos 1))

one_above : (a : ℤ) → eqb_ℤ (a +ℤ pos 1 -ℤ a) (pos 1) ≡ true
one_above a = ground (arith, +ℤ_parts a (pos 1), -ℤ_parts (a +ℤ pos 1) a)

-- The tests of `Execute` on the different numbers of replicas.
few_keys :
    (a : ℤ) (ks : List ℤ)
    → Near a ks
    → 0 < length ks
    → (leb (length ks) 2 ≡ true) × (((length ks == 1) || differ_by_one ks) ≡ true)
few_keys a ks neither some_key = absurd (omega arith)
few_keys a ks low some_key = (refl, refl)
few_keys a ks high some_key = (refl, refl)
few_keys a ks low_high some_key = (refl, ground (arith, one_below a))
few_keys a ks high_low some_key = (refl, ground (arith, one_above a))

some_key : (n : ℤ) (ks : List ℤ) → 0 < length (put_key n ks)
unfolding put_key
some_key n [] = omega arith
some_key n (k ∷ ks) = ground arith

module _ {Q F : Type 0} where
  judge-Near :
      (jobs : Dict (JobInfo Q F)) (a : ℤ) → IsMap jobs → IsFair jobs a → Near a (judge jobs)
  unfolding judge lookup
  judge-Near [] a m fair = neither
  judge-Near ((uid, ji) ∷ jobs) a m fair =
      let rest =
        judge-Near jobs a m.1 (λ k x e. fair k x (ground (arith, m.0, e, str_eq_iff uid k))) in
      elim (fair uid ji (rw (str_eq_refl uid) refl)) [
        | inl is_low ↦ rw is_low (put_low a (judge jobs) rest)
        | inr is_high ↦ rw is_high (put_high a (judge jobs) rest)
      ]

  -- Jobs that share the nodes pass the tests of `Execute`.
  is_balanced-fair :
      (uid : String) (ji : JobInfo Q F) (jobs : Dict (JobInfo Q F)) (n : ℕ) (a : ℤ)
      → IsMap ((uid, ji) ∷ jobs)
      → IsFair ((uid, ji) ∷ jobs) a
      → sum_replicas ((uid, ji) ∷ jobs) ≡ pos n
      → is_balanced ((uid, ji) ∷ jobs) (pos n) ≡ true
  unfolding is_balanced judge
  is_balanced-fair uid ji jobs n a m fair total =
      let (few, near) =
        few_keys a _ (judge-Near ((uid, ji) ∷ jobs) a m fair)
          (some_key ji.num_replicas (judge jobs)) in
      rw (total) (ground (arith, few, near, eqb_ℤ_refl (pos n)))

  reset-IsMap : (jobs : Dict (JobInfo Q F)) → IsMap jobs → IsMap (reset jobs)
  unfolding reset lookup
  reset-IsMap [] m = tt
  reset-IsMap ((uid, ji) ∷ jobs) m = (absent uid jobs m.0, reset-IsMap jobs m.1)
    where
      absent :
          (k : String) (js : Dict (JobInfo Q F)) → lookup k js ≡ none → lookup k (reset js) ≡ none
      absent k [] e = refl
      absent k ((j, x) ∷ js) e = ground (arith, e, absent k js)

  give-IsMap : (uid : String) (jobs : Dict (JobInfo Q F)) → IsMap jobs → IsMap (give uid jobs)
  unfolding give give_to
  give-IsMap uid jobs m = elim (Option-cases (lookup uid jobs)) [
    | inl missing ↦ rw missing m
    | inr (ji, there) ↦ rw there (insert-IsMap uid _ jobs m)
  ]

  pass-IsMap :
      (o : List String) (jobs : Dict (JobInfo Q F)) (n : ℤ) → IsMap jobs → IsMap (pass o jobs n).0
  unfolding pass
  pass-IsMap [] jobs n m = m
  pass-IsMap (uid ∷ o) jobs n m =
      let m' = give-IsMap uid jobs m in
      let rest = pass-IsMap o (give uid jobs) (wrap64 (n -ℤ pos 1)) m' in
      elim (Bool-cases (eqb_ℤ (wrap64 (n -ℤ pos 1)) (pos 0))) [
        | inl done ↦ rw done m'
        | inr more ↦ rw more rest
      ]

  rounds-IsMap :
      (fuel i : ℕ) (orders : ℕ → List String) (jobs jobs' : Dict (JobInfo Q F)) (n : ℤ)
      → IsMap jobs
      → rounds fuel orders i jobs n ≡ some jobs'
      → IsMap jobs'
  unfolding rounds
  rounds-IsMap zero i orders jobs jobs' n m e = absurd cc
  rounds-IsMap (suc fuel) i orders jobs jobs' n m e =
      let m' = pass-IsMap (orders i) jobs n m in
      let out = pass (orders i) jobs n in
      elim (Bool-cases out.2) [
        | inl done ↦
            subst (λ (js : Dict (JobInfo Q F)). IsMap js) {x = out.0} {y = jobs'}
              (ground (arith, done, e)) m'
        | inr more ↦ rounds-IsMap fuel (suc i) orders out.0 jobs' out.1 m' (ground (arith, more, e))
      ]

  pub execute-IsMap :
      (fuel n : ℕ) (orders : ℕ → List String) (jobs jobs' : Dict (JobInfo Q F))
      → IsMap jobs
      → execute fuel orders jobs n ≡ some jobs'
      → IsMap jobs'
  unfolding execute
  execute-IsMap fuel n orders [] jobs' m e =
      let same : [] ≡ jobs' = cc in subst (λ (js : Dict (JobInfo Q F)). IsMap js) same tt
  execute-IsMap fuel n orders (j ∷ jobs) jobs' m e =
      elim (Bool-cases (is_balanced (j ∷ jobs) (pos n))) [
        | inl balanced ↦
            subst (λ (js : Dict (JobInfo Q F)). IsMap js) {x = j ∷ jobs} {y = jobs'}
              (ground (arith, balanced, e)) m
        | inr other ↦
            rounds-IsMap fuel 0 orders (reset (j ∷ jobs)) jobs' (pos n) (reset-IsMap (j ∷ jobs) m)
              (ground (arith, other, e))
      ]

  -- Jobs that share the nodes are left as they are.
  pub execute-fair :
      (fuel n : ℕ) (orders : ℕ → List String) (jobs : Dict (JobInfo Q F)) (a : ℤ)
      → sum_replicas jobs ≡ pos n
      → IsFair jobs a
      → IsMap jobs
      → execute fuel orders jobs n ≡ some jobs
  unfolding execute
  execute-fair fuel n orders [] a total fair m = refl
  execute-fair fuel n orders ((k, x) ∷ jobs) a total fair m =
      rw (is_balanced-fair k x jobs n a m fair total) refl

  -- With at least one job, no name twice, at least one and fewer than 2^31 nodes, and orders of the
  -- first run that visit every job once, a second `Execute` on what the first one leaves, with the same
  -- number of nodes, returns at once and changes nothing, whatever its orders are.
  execute-stable :
      (fuel fuel' n : ℕ) (orders orders' : ℕ → List String) (uid : String) (ji : JobInfo Q F)
      (jobs : Dict (JobInfo Q F))
      → IsMap ((uid, ji) ∷ jobs)
      → ((i : ℕ) → IsOrder ((uid, ji) ∷ jobs) (orders i))
      → 0 < n
      → n < two_31
      → n ≤ fuel
      → (jobs' : Dict (JobInfo Q F)) × (execute fuel orders ((uid, ji) ∷ jobs) n ≡ some jobs')
        × (execute fuel' orders' jobs' n ≡ some jobs')
  unfolding execute
  execute-stable fuel fuel' n orders orders' uid ji jobs m visit some_node small enough =
      let (jobs', a, e, total, fair, same) =
        execute-IsFair fuel n orders uid ji jobs visit some_node small enough in
      (
        jobs',
        e,
        execute-fair fuel' n orders' jobs' a total fair
            (execute-IsMap fuel n orders ((uid, ji) ∷ jobs) jobs' m e),
      )
