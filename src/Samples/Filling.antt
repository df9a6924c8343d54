-- ===== src/Samples/Filling.antt =====
-- The fill loop of the policy hell, at a job with one of five nodes and one without.
use mathlib.Core.Option
use pinta_scheduler.Prelude.{
  subst, Bool-cases, ℕ, ◌≡◌, refl, inl, inr, true, some, List, [], ◌∷◌, String, arith, str_eq,
  str_eq_iff,
}
use pinta_scheduler.Prelude.Int.{pos}
use pinta_scheduler.Prelude.{◌⊎◌}
use pinta_scheduler.Dict.{Dict, lookup}
use pinta_scheduler.Samples.{Amount}
use pinta_scheduler.Info.Job.{new_job_info}
use pinta_scheduler.Controller.Result.{ok}
use pinta_scheduler.Scheduler.Hell.Ratios.{Job}
use pinta_scheduler.Scheduler.Hell.Gang.{Gang, Held}
use pinta_scheduler.Scheduler.Hell.Place.{masters_of}
use pinta_scheduler.Scheduler.Hell.Place.Least.{AllNumbers}
use pinta_scheduler.Prelude.{suc, ◌≤◌, All, subst, Bool-cases}
use pinta_scheduler.Prelude.Int.{◌+ℤ◌}
use pinta_scheduler.Dict.Laws.{Each}
use pinta_scheduler.Dict.Sums.{sum_of}
use pinta_scheduler.Scheduler.Equi.Pass.{elem}
use pinta_scheduler.Scheduler.Hell.Gang.{Gang, idle as idle_job, placed, Measured}
use pinta_scheduler.Scheduler.Hell.Fill.{Addition, choose as choose_more}
use pinta_scheduler.Scheduler.Hell.Fill.Fewest.{IsBest}
use pinta_scheduler.Scheduler.Hell.Fill.Optimal.{no_addition, Improves, choose-fewest}
use pinta_scheduler.Samples.Policies.{whole_numbers, whole_order, fields, train}

abbrev holder : Job Amount ℕ
holder = record (train "a") { num_replicas = pos 1 }

abbrev some_placed : Dict (Job Amount ℕ)
some_placed = ("a", holder) ∷ ("b", train "b") ∷ []

abbrev remaining : Dict (List ℕ)
remaining = ("a", 160 ∷ 88 ∷ []) ∷ ("b", 160 ∷ 88 ∷ []) ∷ []

some_placed-Held : Held 5 some_placed some_placed 4
unfolding lookup sum_of ◌+ℤ◌ new_job_info masters_of
some_placed-Held = record {
  used = refl;
  bound = omega arith;
  own_uid = λ k ji e. ground (arith, e, str_eq_iff "a" k, str_eq_iff "b" k);
  gang = λ k ji e. elim (Bool-cases (str_eq "a" k)) [
    | inl first ↦
        let is_holder : holder ≡ ji = ground (arith, first, e) in
        subst (Gang 5 4) is_holder (placed fields 0 refl refl refl (omega arith) (omega arith))
    | inr other ↦ elim (Bool-cases (str_eq "b" k)) [
      | inl its_second ↦
          let is_train : train "b" ≡ ji = ground (arith, other, its_second, e) in
          subst (Gang 5 4) is_train (idle_job (refl, refl))
      | inr neither ↦ absurd (ground (arith, other, neither, e))
    ]
  ];
  same_jobs = λ k. refl;
}

remaining-Measured : Each (λ k ts. Measured some_placed k ts) remaining
unfolding lookup
remaining-Measured k ts e = elim (Bool-cases (str_eq "a" k)) [
  | inl first ↦
      let is_first : (160 ∷ 88 ∷ []) ≡ ts = ground (arith, first, e) in
      subst (Measured some_placed k) is_first (record {
        job = holder;
        there = rw first refl;
        fields = fields;
        parsed = refl;
        sized = refl;
      })
  | inr other ↦ elim (Bool-cases (str_eq "b" k)) [
    | inl its_second ↦
        let is_second : (160 ∷ 88 ∷ []) ≡ ts = ground (arith, other, its_second, e) in
        subst (Measured some_placed k) is_second (record {
          job = train "b";
          there = rw (other, its_second) refl;
          fields = fields;
          parsed = refl;
          sized = refl;
        })
    | inr neither ↦ absurd (ground (arith, other, neither, e))
  ]
]

remaining_numbers : AllNumbers whole_order remaining
unfolding whole_order
remaining_numbers k rs e = each rs
  where
    each : (rs : List ℕ) → All (λ r. whole_order.is_number r ≡ true) rs
    each [] = tt
    each (r ∷ rs) = (refl, each rs)

choose-fewest_example :
    (times' : Dict (List ℕ)) × (s : Addition Amount ℕ) × (choose_more whole_numbers
        ("a" ∷ "b" ∷ [])
        some_placed
        4
        remaining
        no_addition
      ≡ ok (times', s))
    × ((s ≡ no_addition)
        ⊎ ((id : String) × (t : ℕ) × (s.next
              ≡ Option.map (λ (ji : Job Amount ℕ). (id, ji)) (lookup id some_placed))
            × Improves whole_numbers whole_order some_placed remaining 4 id (t, s.replicas)))
    × ((id : String) (job : Job Amount ℕ) (ts : List ℕ) (r : ℕ)
        → elem id ("a" ∷ "b" ∷ []) ≡ true
        → lookup id some_placed ≡ some job
        → lookup id remaining ≡ some ts
        → job.num_replicas ≡ pos (suc r)
        → (best : ℕ × ℕ) × IsBest whole_numbers whole_order r ts 5 best × (s.replicas ≤ best.1))
choose-fewest_example =
    choose-fewest whole_numbers whole_order 5 4 some_placed some_placed some_placed-Held remaining
      remaining_numbers ("a" ∷ "b" ∷ []) remaining-Measured
