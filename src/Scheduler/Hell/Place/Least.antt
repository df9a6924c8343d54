-- ===== src/Scheduler/Hell/Place/Least.antt =====
-- The ratio that a round of the schedule loop picks is a least one.
use pinta_scheduler.Prelude.{
  ℕ, zero, suc, ◌<◌, String, ◌≡◌, refl, sym, subst, inl, inr, Bool, true, false, Option, none, some,
  List, [], ◌∷◌, arith, str_eq, str_eq_iff, if◌then◌else◌, Bool-cases, get_elem?, All,
  get_elem?-All,
}
use pinta_scheduler.Prelude.Int.{ℤ}
use pinta_scheduler.Dict.{Dict, lookup}
use pinta_scheduler.Controller.Result.{Result, ok, err, panic, ok_inj, ◌>>=◌}
use pinta_scheduler.Scheduler.Equi.Pass.{elem}
use pinta_scheduler.Scheduler.Hell.Ratios.{FloatApi, Job}
use pinta_scheduler.Scheduler.Hell.Place.{
  Choice, room, is_better, try_replicas, try_job, choose, no_choice,
}
use pinta_scheduler.Scheduler.Hell.Place.Pick.{HasJobs, IsPick, nothing, choose-IsPick}

-- The order of float64: laws for the values that are no NaN.
pub record FloatOrder {R : Type 0} (fl : FloatApi R) : Type 0 where
  pub is_number : R → Bool
  pub max_is_number : is_number fl.max_float ≡ true
  pub less_asym :
      (a b : R) → is_number a ≡ true → is_number b ≡ true → fl.less a b ≡ true → fl.less b a ≡ false
  pub less_irrefl : (a : R) → fl.less a a ≡ false
  pub not_less_trans :
      (a b c : R)
      → is_number a ≡ true
      → is_number b ≡ true
      → is_number c ≡ true
      → fl.less a b ≡ false
      → fl.less b c ≡ false
      → fl.less a c ≡ false
  pub equal_not_less : (a b : R) → fl.equal a b ≡ true → fl.less b a ≡ false

module _ {R : Type 0} {fl : FloatApi R} (o : FloatOrder fl) where
  abbrev pub Numbers : List R → Type 0
  Numbers rs = All (λ r. o.is_number r ≡ true) rs

  abbrev pub AllNumbers : Dict (List R) → Type 0
  AllNumbers ratios = (k : String) (rs : List R) → lookup k ratios ≡ some rs → Numbers rs

module _ {Q R : Type 0} (fl : FloatApi R) (o : FloatOrder fl) where
  -- The ratio of `c` is a number, and no larger than that of `best`.
  abbrev Descends : Choice Q R → Choice Q R → Type 0
  Descends best c = (o.is_number c.ratio ≡ true) × (fl.less best.ratio c.ratio ≡ false)

  better-Descends :
      (id : String) (job : Job Q R) (i : ℕ) (r : R) (best : Choice Q R)
      → o.is_number best.ratio ≡ true
      → o.is_number r ≡ true
      → let c : Choice Q R =
          if is_better fl job r best
          then record { next = some (id, job); replicas = i; ratio = r }
          else best in
        Descends best c × (fl.less r c.ratio ≡ false)
  better-Descends id job i r best h k = ground (
    arith,
    o.less_asym r best.ratio,
    o.less_irrefl r,
    o.less_irrefl best.ratio,
    o.equal_not_less r best.ratio,
  )

  -- No ratio of the first `left` is below that of `c`.
  abbrev LeastOf : ℕ → List R → Choice Q R → Type 0
  LeastOf left rs c =
      (j : ℕ) (r : R) → get_elem? rs j ≡ some r → j < left → fl.less r c.ratio ≡ false

  Descends-trans :
      (a b c : Choice Q R) → o.is_number a.ratio ≡ true → Descends a b → Descends b c → Descends a c
  Descends-trans a b c h p q = (q.0, o.not_less_trans a.ratio b.ratio c.ratio h p.0 q.0 p.1 q.1)

  Descends-refl : (c : Choice Q R) → o.is_number c.ratio ≡ true → Descends c c
  Descends-refl c h = (h, o.less_irrefl c.ratio)

  try_replicas-least :
      (id : String) (job : Job Q R) (i left : ℕ) (rs : List R) (best : Choice Q R)
      → o.is_number best.ratio ≡ true
      → Numbers o rs
      → Descends best (try_replicas fl id job i left rs best)
        × LeastOf left rs (try_replicas fl id job i left rs best)
  unfolding try_replicas
  try_replicas-least id job i zero rs best h k =
      (Descends-refl best h, λ j r e below. absurd (omega arith))
  try_replicas-least id job i (suc left) [] best h k = (Descends-refl best h, λ j r e below. cc)
  try_replicas-least id job i (suc left) (r ∷ rs) best h k =
      let b : Choice Q R =
        if is_better fl job r best
        then record { next = some (id, job); replicas = suc i; ratio = r }
        else best in
      let (down, first) = better-Descends id job (suc i) r best h k.0 in
      let (down', least) = try_replicas-least id job (suc i) left rs b down.0 k.1 in
      let c = try_replicas fl id job (suc i) left rs b in
      (
        Descends-trans best b c h down down',
        first_or_later (try_replicas fl id job i (suc left) (r ∷ rs) best)
            (o.not_less_trans r b.ratio c.ratio k.0 down.0 down'.0 first down'.1) least,
      )
    where
      first_or_later :
          (c : Choice Q R)
          → fl.less r c.ratio ≡ false
          → LeastOf left rs c
          → LeastOf (suc left) (r ∷ rs) c
      first_or_later c h k zero x e below = cc
      first_or_later c h k (suc j) x e below = k j x e (omega arith)

  -- No ratio that fits, of a job that may be there, is below that of `c`.
  abbrev LeastFor : ℤ → Option (List R) → Option (Job Q R) → Choice Q R → Type 0
  LeastFor n ratios jobs c =
      (rs : List R) (job : Job Q R) (j : ℕ) (r : R)
      → ratios ≡ some rs
      → jobs ≡ some job
      → get_elem? rs j ≡ some r
      → j < room n job
      → fl.less r c.ratio ≡ false

  -- No ratio that fits, of a job that the loop visited, is below that of `c`.
  abbrev pub IsLeast : List String → Dict (Job Q R) → Dict (List R) → ℤ → Choice Q R → Type 0
  IsLeast ids jobs ratios n c =
      (id : String) → elem id ids ≡ true → LeastFor n (lookup id ratios) (lookup id jobs) c

  module _ (jobs : Dict (Job Q R)) (ratios : Dict (List R)) (n : ℤ)
      (numbers : AllNumbers o ratios) where
    try_job-least :
        (id : String) (rs : Option (List R)) (job : Option (Job Q R)) (best c : Choice Q R)
        → rs ≡ lookup id ratios
        → o.is_number best.ratio ≡ true
        → try_job fl n id rs job best ≡ ok c
        → Descends best c × LeastFor n rs job c
    unfolding try_job
    try_job-least id none job best c found h e =
        (subst (λ c. Descends best c) (ok_inj e) (Descends-refl best h), λ rs job j r k. absurd cc)
    try_job-least id (some rs) none best c found h e = absurd cc
    try_job-least id (some rs) (some job) best c found h e =
        let (down, least) =
          try_replicas-least id job 0 (room n job) rs best h (numbers id rs (sym found)) in
        subst (λ c. Descends best c × LeastFor n (some rs) (some job) c) (ok_inj e)
          (
            down,
            λ rs' job' j r k l at_j below.
                least j r (cc (k, at_j))
                  (subst (λ job. j < room n job) {x = job'} {y = job} (cc l) below),
          )

    choose-IsLeast :
        (ids : List String) (best c : Choice Q R)
        → o.is_number best.ratio ≡ true
        → choose fl ids jobs ratios n best ≡ ok c
        → Descends best c × IsLeast ids jobs ratios n c
    unfolding choose
    choose-IsLeast [] best c h e =
        (subst (λ c. Descends best c) (ok_inj e) (Descends-refl best h), λ id k. absurd cc)
    choose-IsLeast (id ∷ ids) best c h e =
        go (choose-IsLeast ids) (try_job fl n id (lookup id ratios) (lookup id jobs) best) refl e
      where
        go :
            ((b c : Choice Q R)
              → o.is_number b.ratio ≡ true
              → choose fl ids jobs ratios n b ≡ ok c
              → Descends b c × IsLeast ids jobs ratios n c)
            → (t : Result (Choice Q R))
            → try_job fl n id (lookup id ratios) (lookup id jobs) best ≡ t
            → (t >>= λ b. choose fl ids jobs ratios n b) ≡ ok c
            → Descends best c × IsLeast (id ∷ ids) jobs ratios n c
        go later (ok b) tried rest =
            let (down, first) =
              try_job-least id (lookup id ratios) (lookup id jobs) best b refl h tried in
            let (down', others) = later b c down.0 rest in
            (
              Descends-trans best b c h down down',
              λ id' k. elim (Bool-cases (str_eq id id')) [
                | inl same ↦ λ rs job j r found there at_j below.
                    o.not_less_trans r b.ratio c.ratio
                      (get_elem?-All _ rs j r (numbers id' rs found) at_j) down.0 down'.0
                      (first rs job j r (rw ((str_eq_iff id id').0 same) found)
                        (rw ((str_eq_iff id id').0 same) there) at_j below)
                      down'.1
                | inr other ↦ others id' (cc (k, other))
              ],
            )
        go later (err x) tried rest = absurd cc
        go later panic tried rest = absurd cc

  -- With a job for each id that has ratios, and ratios that are no NaN, a round of the schedule loop
  -- picks a job and a number of replicas that fit into the nodes beside its master, with the ratio of
  -- the job for that number, or picks no job, with math.MaxFloat64 for the ratio. No ratio of a job that
  -- the round visits, for a number of replicas that fits, is less than the one it picks.
  pub choose_lem :
      (ids : List String) (jobs : Dict (Job Q R)) (ratios : Dict (List R)) (n : ℤ)
      → HasJobs jobs ratios
      → AllNumbers o ratios
      → (c : Choice Q R) × (choose fl ids jobs ratios n (no_choice fl) ≡ ok c)
        × IsPick fl.max_float jobs ratios n c
        × IsLeast ids jobs ratios n c
  choose_lem ids jobs ratios n has numbers =
      let (c, e, p) =
        choose-IsPick fl fl.max_float jobs ratios n has ids (no_choice fl) (nothing refl refl) in
      (c, e, p, (choose-IsLeast jobs ratios n numbers ids (no_choice fl) c o.max_is_number e).1)
