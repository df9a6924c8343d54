-- ===== src/Scheduler/Equi/Shares.antt =====
-- The tests of the policy equi that let it keep the numbers of replicas.
use pinta_scheduler.Prelude.{
  ℕ, zero, suc, ◌≤◌, ◌<◌, String, ◌≡◌, refl, sym, ap, subst, ◌∙◌, ◌⊎◌, inl, inr, true, ◌||◌, some,
  List, [], ◌∷◌, arith, str_eq, str_eq_refl, leb, ◌==◌, Bool-cases, length,
}
use pinta_scheduler.Prelude.Int.{
  ℤ, pos, negsuc, ◌+ℤ◌, ◌-ℤ◌, eqb_ℤ, +ℤ_parts, -ℤ_parts, eq_of_parts, eqb_ℤ→eq, two_31, zero_+ℤ,
}
use pinta_scheduler.Dict.{Dict, lookup}
use pinta_scheduler.Info.Job.{JobInfo}
use pinta_scheduler.Scheduler.Equi.{
  put_key, judge, sum_replicas, differ_by_one, is_balanced, reset, execute,
}
use pinta_scheduler.Scheduler.Equi.Pass.{IsOrder, IsFair, SameJobs}
use pinta_scheduler.Scheduler.Equi.Laws.{
  rounds-Shares, sum_replicas-reset, AllAt-reset, SameJobs-reset,
}

abbrev pub InList : ℤ → List ℤ → Type 0
InList n [] = ⊥
InList n (m ∷ ms) = (n ≡ m) ⊎ InList n ms

put_key-keeps : (n k : ℤ) (ks : List ℤ) → InList n ks → InList n (put_key k ks)
unfolding put_key
put_key-keeps n k [] h = absurd h
put_key-keeps n k (m ∷ ms) h = elim h [
  | inl same ↦ ground (arith, same)
  | inr later ↦ ground (arith, later, put_key-keeps n k ms later)
]

put_key-has : (n : ℤ) (ks : List ℤ) → InList n (put_key n ks)
unfolding put_key
put_key-has n [] = inl refl
put_key-has n (m ∷ ms) = elim (Bool-cases (eqb_ℤ n m)) [
  | inl same ↦ rw same (inl (eqb_ℤ→eq n m same))
  | inr other ↦ rw other (inr (put_key-has n ms))
]

one_apart :
    (a b n : ℤ) → eqb_ℤ (a -ℤ b) (pos 1) ≡ true → (n ≡ a) ⊎ (n ≡ b) → (n ≡ b) ⊎ (n ≡ b +ℤ pos 1)
one_apart a b n e h = elim h [
  | inl at_a ↦ inr (at_a ∙ eq_of_parts _ _ (ground (arith, e, -ℤ_parts a b, +ℤ_parts b (pos 1))))
  | inr at_b ↦ inl at_b
]

one_below :
    (a b n : ℤ) → eqb_ℤ (a -ℤ b) (negsuc 0) ≡ true → (n ≡ a) ⊎ (n ≡ b) → (n ≡ a) ⊎ (n ≡ a +ℤ pos 1)
one_below a b n e h = elim h [
  | inl at_a ↦ inl at_a
  | inr at_b ↦ inr (at_b ∙ eq_of_parts _ _ (ground (arith, e, -ℤ_parts a b, +ℤ_parts a (pos 1))))
]

two_keys : (a b n : ℤ) → InList n (a ∷ b ∷ []) → (n ≡ a) ⊎ (n ≡ b)
two_keys a b n h = elim h [
  | inl at_a ↦ inl at_a
  | inr rest ↦ elim rest [ inl at_b ↦ inr at_b | inr none_left ↦ absurd none_left ]
]

few_keys :
    (keys : List ℤ)
    → leb (length keys) 2 ≡ true
    → ((length keys == 1) || differ_by_one keys) ≡ true
    → (a : ℤ) × ((n : ℤ) → InList n keys → (n ≡ a) ⊎ (n ≡ a +ℤ pos 1))
few_keys [] h e = (pos 0, λ n i. absurd i)
few_keys (a ∷ []) h e =
    (a, λ n i. elim i [ inl same ↦ inl same | inr none_left ↦ absurd none_left ])
few_keys (a ∷ b ∷ []) h e = elim (Bool-cases (eqb_ℤ (a -ℤ b) (pos 1))) [
  | inl above ↦ (b, λ n i. one_apart a b n above (two_keys a b n i))
  | inr other ↦ (a, λ n i. one_below a b n (ground (arith, other, e)) (two_keys a b n i))
]
few_keys (a ∷ b ∷ c ∷ ks) h e = ground (arith, h)

module _ {Q F : Type 0} where
  judge_lem :
      (jobs : Dict (JobInfo Q F)) (k : String) (ji : JobInfo Q F)
      → lookup k jobs ≡ some ji
      → InList ji.num_replicas (judge jobs)
  unfolding judge lookup
  judge_lem [] k ji e = cc
  judge_lem ((uid, x) ∷ jobs) k ji e = elim (Bool-cases (str_eq uid k)) [
    | inl same ↦
        let found : x ≡ ji = ground (arith, same, e) in
        subst (λ y. InList y.num_replicas (put_key x.num_replicas (judge jobs))) found
          (put_key-has x.num_replicas (judge jobs))
    | inr other ↦
        put_key-keeps ji.num_replicas x.num_replicas (judge jobs)
          (judge_lem jobs k ji (ground (arith, other, e)))
  ]

  -- A job list that passes the tests of `Execute` uses each node, and is fair.
  balanced-IsFair :
      (jobs : Dict (JobInfo Q F)) (n : ℤ)
      → is_balanced jobs n ≡ true
      → (sum_replicas jobs ≡ n) × ((a : ℤ) × IsFair jobs a)
  unfolding is_balanced
  balanced-IsFair jobs n h =
      let (a, near) = few_keys (judge jobs) (ground (arith, h)) (ground (arith, h)) in
      (
        sym (eqb_ℤ→eq n (sum_replicas jobs) (ground (arith, h))),
        (a, λ k ji e. near ji.num_replicas (judge_lem jobs k ji e)),
      )

  -- With at least one job, at least one and fewer than 2^31 nodes, and an order of each loop that
  -- visits every job once, `Execute` returns after at most as many rounds as there are nodes: it
  -- keeps the jobs, the numbers of replicas add up to the number of nodes, and any two of them
  -- differ by at most one.
  pub execute-IsFair :
      (fuel n : ℕ) (orders : ℕ → List String) (uid : String) (ji : JobInfo Q F)
      (jobs : Dict (JobInfo Q F))
      → ((i : ℕ) → IsOrder ((uid, ji) ∷ jobs) (orders i))
      → 0 < n
      → n < two_31
      → n ≤ fuel
      → (jobs' : Dict (JobInfo Q F)) × (a : ℤ) × (execute fuel orders ((uid, ji) ∷ jobs) n
          ≡ some jobs')
        × (sum_replicas jobs' ≡ pos n)
        × IsFair jobs' a
        × SameJobs ((uid, ji) ∷ jobs) jobs'
  unfolding execute
  execute-IsFair fuel zero orders uid ji jobs visit some_node small enough = ground arith
  execute-IsFair fuel (suc r) orders uid ji jobs visit some_node small enough =
      let all = (uid, ji) ∷ jobs in
      elim (Bool-cases (is_balanced all (pos (suc r)))) [
        | inl balanced ↦
            let (total, share) = balanced-IsFair all (pos (suc r)) balanced in
            (all, share.0, rw balanced refl, total, share.1, λ k. refl)
        | inr other ↦
            let s =
              rounds-Shares all orders uid visit (unfold lookup in rw (str_eq_refl uid) refl) fuel 0
                r (reset all) (ground (arith, enough)) (ground (arith, small)) (SameJobs-reset all)
                (AllAt-reset all) in
            (
              s.shared,
              s.least,
              rw other s.is_left,
              s.total ∙ ap (λ x. x +ℤ pos (suc r)) (sum_replicas-reset all) ∙ zero_+ℤ (pos (suc r)),
              s.fair,
              λ k. s.same_jobs k ∙ SameJobs-reset all k,
            )
      ]
