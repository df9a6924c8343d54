-- ===== src/Scheduler/Hell/Place/Pick.antt =====
-- Which job and how many replicas a round of the schedule loop picks.
use pinta_scheduler.Prelude.{
  ℕ, zero, suc, ◌+◌, ◌≤◌, String, ◌≡◌, refl, inl, inr, true, none, some, List, [], ◌∷◌, arith,
  is_some, get_elem?, ap, ◌∙◌, Bool-cases, Option-cases, length,
}
use pinta_scheduler.Prelude.Int.{ℤ}
use pinta_scheduler.Dict.{Dict, lookup}
use pinta_scheduler.Controller.Result.{ok}
use pinta_scheduler.Scheduler.Hell.Ratios.{FloatApi, Job}
use pinta_scheduler.Scheduler.Hell.Place.{Choice, room, is_better, try_replicas, try_job, choose}

module _ {Q R : Type 0} where
  -- Each id with ratios has its job.
  abbrev pub HasJobs : Dict (Job Q R) → Dict (List R) → Type 0
  HasJobs jobs ratios =
      (k : String) (rs : List R) → lookup k ratios ≡ some rs → is_some (lookup k jobs) ≡ true

  -- The choice is of no job, with the ratio that is the bound, or of one with ratios, of which the
  -- replicas are one of the counts, and they fit into the nodes with its master.
  pub data IsPick (bound : R) (jobs : Dict (Job Q R)) (ratios : Dict (List R)) (n : ℤ)
      (c : Choice Q R) : Type 0 where
    nothing : c.next ≡ none → c.ratio ≡ bound → IsPick bound jobs ratios n c
    pick :
        (id : String) (job : Job Q R) (rs : List R) (i : ℕ)
        → c.next ≡ some (id, job)
        → lookup id jobs ≡ some job
        → lookup id ratios ≡ some rs
        → c.replicas ≡ suc i
        → get_elem? rs i ≡ some c.ratio
        → c.replicas ≤ length rs
        → c.replicas ≤ room n job
        → IsPick bound jobs ratios n c

module _ {Q R : Type 0} (fl : FloatApi R) where
  try_replicas-IsPick :
      (bound : R) (jobs : Dict (Job Q R)) (ratios : Dict (List R)) (n : ℤ) (id : String)
      (job : Job Q R) (all : List R) (i left : ℕ) (rs : List R) (best : Choice Q R)
      → lookup id jobs ≡ some job
      → lookup id ratios ≡ some all
      → i + length rs ≤ length all
      → ((j : ℕ) → get_elem? all (i + j) ≡ get_elem? rs j)
      → i + left ≤ room n job
      → IsPick bound jobs ratios n best
      → IsPick bound jobs ratios n (try_replicas fl id job i left rs best)
  unfolding try_replicas
  try_replicas-IsPick bound jobs ratios n id job all i zero rs best there has fits at roomy h = h
  try_replicas-IsPick bound jobs ratios n id job all i (suc left) [] best there has fits at roomy
        h =
      h
  try_replicas-IsPick bound jobs ratios n id job all i (suc left) (r ∷ rs) best there has fits at
        roomy h =
      try_replicas-IsPick bound jobs ratios n id job all (suc i) left rs _ there has (omega arith)
        (λ j. ap (get_elem? all) (omega arith) ∙ at (suc j)) (omega arith)
        (elim (Bool-cases (is_better fl job r best)) [
          | inl better ↦ rw better (
              pick id job all i refl there has refl (ap (get_elem? all) (omega arith) ∙ at 0)
                (omega arith) (omega arith))
          | inr worse ↦ rw worse h
        ])

  module _ (bound : R) (jobs : Dict (Job Q R)) (ratios : Dict (List R)) (n : ℤ)
      (has : HasJobs jobs ratios) where
    try_job-IsPick :
        (id : String) (best : Choice Q R)
        → IsPick bound jobs ratios n best
        → (c : Choice Q R) × (try_job fl n id (lookup id ratios) (lookup id jobs) best ≡ ok c)
          × IsPick bound jobs ratios n c
    unfolding try_job
    try_job-IsPick id best h = elim (Option-cases (lookup id ratios)) [
      | inl missing ↦ (best, rw missing refl, h)
      | inr (rs, found) ↦ elim (Option-cases (lookup id jobs)) [
        | inl gone ↦ absurd (cc (has id rs found, gone))
        | inr (job, there) ↦ (
          _,
          rw (found, there) refl,
          try_replicas-IsPick bound jobs ratios n id job rs 0 (room n job) rs best there found
              (omega arith) (λ j. ap (get_elem? rs) (omega arith)) (omega arith) h,
        )
      ]
    ]

    pub choose-IsPick :
        (ids : List String) (best : Choice Q R)
        → IsPick bound jobs ratios n best
        → (c : Choice Q R) × (choose fl ids jobs ratios n best ≡ ok c)
          × IsPick bound jobs ratios n c
    unfolding choose
    choose-IsPick [] best h = (best, refl, h)
    choose-IsPick (id ∷ ids) best h =
        let (c, e, p) = try_job-IsPick id best h in
        let (c', e', p') = choose-IsPick ids c p in (c', rw e e', p')
