-- ===== src/Scheduler/Hell/Fill/Laws.antt =====
-- The loop of hell.go that fills the nodes that are left returns, without a panic.
use pinta_scheduler.Prelude.{
  ℕ, zero, suc, ◌+◌, ◌-◌, ◌≤◌, ◌<◌, String, ◌≡◌, refl, sym, ap, subst, ◌∙◌, inl, inr, none, some,
  List, arith, Bool-cases, length,
}
use pinta_scheduler.Prelude.Int.{
  ℤ, pos, ◌+ℤ◌, ◌-ℤ◌, +ℤ_parts, eq_of_parts, wrap32, wrap32_small, two_31, add_pos, sub_pos,
  is_positive,
}
use pinta_scheduler.Scheduler.Outcome.{Outcome, done}
use pinta_scheduler.Dict.{Dict, lookup, erase}
use pinta_scheduler.Dict.Laws.{Each, erase-Each}
use pinta_scheduler.Dict.Sizes.{length-erase_there}
use pinta_scheduler.Scheduler.Hell.Ratios.{FloatApi, Job}
use pinta_scheduler.Scheduler.Hell.Gang.{idle, placed, Held, Measured, insert-Held, insert-Measured}
use pinta_scheduler.Scheduler.Hell.Place.{is_empty}
use pinta_scheduler.Scheduler.Hell.Fill.{Addition, add_replicas, fill}
use pinta_scheduler.Scheduler.Hell.Fill.Pick.{IsAddition, nothing, add, same_fields, choose-Chosen}

moved :
    (m : ℤ) (r more left : ℕ)
    → more ≤ left
    → m +ℤ pos (r + more) +ℤ pos (left - more) ≡ m +ℤ pos r +ℤ pos left
moved m r more left h = eq_of_parts _ _ (
    ground (
      arith,
      h,
      +ℤ_parts (m +ℤ pos (r + more)) (pos (left - more)),
      +ℤ_parts m (pos (r + more)),
      +ℤ_parts (m +ℤ pos r) (pos left),
      +ℤ_parts m (pos r),
    ))

module _ {Q R : Type 0} where
  add_replicas-Held :
      (total left more r : ℕ) (id : String) (job : Job Q R) (ts : List R)
      (jobs0 jobs : Dict (Job Q R))
      → total < two_31
      → Held total jobs0 jobs left
      → lookup id jobs ≡ some job
      → Measured jobs id ts
      → job.num_replicas ≡ pos (suc r)
      → suc r + more ≤ length ts
      → more ≤ left
      → Held total jobs0 (add_replicas id job more jobs) (left - more)
  unfolding add_replicas
  add_replicas-Held total left more r id job ts jobs0 jobs small h there m replicas fits few =
      elim (h.gang id job there) [
        | idle none_held ↦ absurd (zero_is_suc (sym none_held.1 ∙ replicas))
        | placed fields r' parsed masters replicas' sized below ↦
            let same_r : r ≡ r' = suc_inj (sym replicas ∙ replicas') in
            let grown =
              ap (λ n. wrap32 (n +ℤ pos more)) replicas
              ∙ ap wrap32 (add_pos (suc r) more)
              ∙ wrap32_small (suc r + more) (omega arith) in
            let is_job : m.job ≡ job = ground (arith, there, m.there) in
            let throughputs =
              same_fields m fields (ap (λ (x : Job Q R). x.custom_fields) is_job ∙ parsed) in
            let sized' : suc (r + more) ≤ length fields.throughput =
              subst (λ ts. suc (r + more) ≤ length ts) (sym throughputs)
                (ground (arith, m.sized, fits)) in
            insert-Held total left (left - more) jobs0 jobs id job
              (record job { num_replicas = wrap32 (job.num_replicas +ℤ pos more) }) there refl
              (omega arith)
              (ap (λ n. job.num_masters +ℤ n +ℤ pos (left - more)) grown
                ∙ moved job.num_masters (suc r) more left few
                ∙ ap (λ n. job.num_masters +ℤ n +ℤ pos left) (sym replicas))
              (placed fields (r + more) parsed masters (grown ∙ ap pos (omega arith)) sized'
                (ground (arith, few, below, same_r)))
              h
      ]
    where
      zero_is_suc : pos 0 ≡ pos (suc r) → ⊥
      zero_is_suc e = cc

      suc_inj : {r' : ℕ} → pos (suc r) ≡ pos (suc r') → r ≡ r'
      suc_inj e = cc

  module _ (fl : FloatApi R) (orders : ℕ → List String) (total : ℕ) (jobs0 : Dict (Job Q R))
      (small : total < two_31) where
    -- The loop returns jobs that hold all nodes but some.
    abbrev pub Filled : Outcome (Dict (Job Q R)) (Unit {0}) → Type 0
    Filled out =
        (jobs : Dict (Job Q R)) × (left : ℕ) × (out ≡ done jobs tt) × Held total jobs0 jobs left

    next_round :
        (left : ℕ) (jobs : Dict (Job Q R)) (times : Dict (List R)) (s : Addition Q R)
        (rest : Dict (Job Q R) → Dict (List R) → ℤ → Outcome (Dict (Job Q R)) (Unit {0}))
        → Held total jobs0 jobs left
        → Each (Measured jobs) times
        → IsAddition jobs times left s
        → ((left' : ℕ) (jobs' : Dict (Job Q R)) (times' : Dict (List R))
            → length times' < length times
            → Held total jobs0 jobs' left'
            → Each (Measured jobs') times'
            → Filled (rest jobs' times' (pos left')))
        → Filled (elim s.next [
          | none ↦ done jobs tt
          | some (id, job) ↦
              rest
                (add_replicas id job s.replicas jobs)
                (erase job.uid times)
                (pos left -ℤ pos s.replicas)
        ])
    next_round left jobs times s rest h measured (nothing e) goes_on = rw e (jobs, left, refl, h)
    next_round left jobs times s rest h measured (add id job ts r e there has replicas fits few)
          goes_on =
        rw (e, sub_pos left s.replicas few)
          (goes_on (left - s.replicas) (add_replicas id job s.replicas jobs) (erase job.uid times)
            (subst (λ k. length (erase k times) < length times) (sym (h.own_uid id job there))
              (length-erase_there id times ts has))
            (add_replicas-Held total left s.replicas r id job ts jobs0 jobs small h there
              (measured id ts has) replicas fits few)
            (unfold add_replicas in
              erase-Each _ job.uid times (insert-Measured jobs id job _ times there refl measured)))

    pub fill-Filled :
        (fuel i left : ℕ) (jobs : Dict (Job Q R)) (times : Dict (List R))
        → length times < fuel
        → Held total jobs0 jobs left
        → Each (Measured jobs) times
        → Filled (fill fl fuel orders i jobs times (pos left))
    unfolding fill
    fill-Filled zero i left jobs times enough h measured = absurd (omega arith)
    fill-Filled (suc fuel) i zero jobs times enough h measured = (jobs, 0, refl, h)
    fill-Filled (suc fuel) i (suc left) jobs times enough h measured =
        elim (Bool-cases (is_empty times)) [
          | inl none_left ↦ (jobs, suc left, rw (is_positive left, none_left) refl, h)
          | inr some_left ↦
              let (times', s, e, measured', picked, fewer) =
                choose-Chosen fl total (suc left) jobs0 jobs h (orders i) times
                  (record { next = none; replicas = 2147483647 }) measured (nothing refl) in
              rw (is_positive left, some_left, e)
                (next_round (suc left) jobs times' s (λ jobs'. fill fl fuel orders (suc i) jobs') h
                  measured' picked
                  (λ left' jobs' times'' less h' measured''.
                    fill-Filled fuel (suc i) left' jobs' times'' (omega arith) h' measured''))
        ]
