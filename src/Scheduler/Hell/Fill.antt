-- ===== src/Scheduler/Hell/Fill.antt =====
-- The loop of hell.go that gives the nodes that are left to the placed jobs which gain from fewest.
pub mod Pick
pub mod Fewest
pub mod Choose
pub mod Optimal
pub mod Laws
use pinta_scheduler.Prelude.{
  ℕ, zero, suc, String, Option, none, some, List, [], ◌∷◌, Bool, true, false, ◌&&◌, ◌==◌, ltb,
  length, get_elem?, if◌then◌else◌,
}
use pinta_scheduler.Prelude.Int.{ℤ, pos, negsuc, pos_part, ◌+ℤ◌, ◌-ℤ◌, ltb_ℤ, leb_ℤ, eqb_ℤ, wrap32}
use pinta_scheduler.Dict.{Dict, lookup, insert, erase}
use pinta_scheduler.Controller.Result.{Result, ok, panic, ◌>>=◌}
use pinta_scheduler.Scheduler.Outcome.{
  Outcome, done, panicked, unfinished, and_then, attempt, with_state,
}
use pinta_scheduler.Scheduler.Hell.Ratios.{FloatApi, Job}
use pinta_scheduler.Scheduler.Hell.Place.{wins_tie, is_empty}

-- `nextJob` with the id it stands under, and the replicas that it is to get in addition.
pub record Addition (Q R : Type 0) : Type 0 where
  pub next : Option (String × Job Q R)
  pub replicas : ℕ

-- A slice at an int: a negative one is out of range.
abbrev pub at_index {ℓ} : {A : Type ℓ} → List A → ℤ → Option A
at_index xs (pos n) = get_elem? xs n
at_index xs (negsuc n) = none

module _ {Q R : Type 0} where
  abbrev pub is_fewer : Job Q R → ℕ → Addition Q R → Bool
  is_fewer job more best =
      if ltb more best.replicas then true else (more == best.replicas) && wins_tie job best.next

  -- The write through `nextJob`.
  unfoldable pub add_replicas : String → Job Q R → ℕ → Dict (Job Q R) → Dict (Job Q R)
  add_replicas id job more jobs =
      insert id (record job { num_replicas = wrap32 (job.num_replicas +ℤ pos more) }) jobs

module _ {R : Type 0} (fl : FloatApi R) where
  -- The loop over `additionalNodes`, from `a` on, with the rounds that are left: the least remaining
  -- time so far, and the additional replicas that give it.
  unfoldable pub try_more : ℕ → ℕ → ℤ → List R → R × ℕ → Result (R × ℕ)
  try_more zero a replicas times best = ok best
  try_more (suc rounds) a replicas times best =
      let next : Result (R × ℕ) = elim (at_index times (replicas +ℤ pos a -ℤ pos 1)) [
        | none ↦ panic
        | some t ↦
            try_more rounds (suc a) replicas times (if fl.less t best.0 then (t, a) else best)
      ] in
      if ltb_ℤ (pos (length times)) (replicas +ℤ pos a) then ok best else next

  module _ {Q : Type 0} where
    -- A round of the loop over `remainingServiceTimesMap`: a job with no replica is taken out of it.
    unfoldable pub try_job :
        ℕ
        → String
        → Option (List R)
        → Option (Job Q R)
        → Dict (List R)
        → Addition Q R
        → Result (Dict (List R) × Addition Q R)
    try_job nodes id none job times best = ok (times, best)
    try_job nodes id (some ts) none times best = panic
    try_job nodes id (some ts) (some job) times best =
        if eqb_ℤ job.num_replicas (pos 0)
        then ok (erase job.uid times, best)
        else try_more (suc nodes) 0 job.num_replicas ts (fl.max_float, 0) >>= λ least. ok (
          times,
          (if is_fewer job least.1 best
              then record { next = some (id, job); replicas = least.1 }
              else best),
        )

    unfoldable pub choose :
        List String
        → Dict (Job Q R)
        → ℕ
        → Dict (List R)
        → Addition Q R
        → Result (Dict (List R) × Addition Q R)
    choose [] jobs nodes times best = ok (times, best)
    choose (id ∷ ids) jobs nodes times best =
        try_job nodes id (lookup id times) (lookup id jobs) times best >>= λ s.
        choose ids jobs nodes s.0 s.1

    unfoldable pub fill :
        ℕ
        → (ℕ → List String)
        → ℕ
        → Dict (Job Q R)
        → Dict (List R)
        → ℤ
        → Outcome (Dict (Job Q R)) (Unit {0})
    fill zero orders i jobs times num_nodes = unfinished
    fill (suc fuel) orders i jobs times num_nodes =
        let round : Outcome (Dict (Job Q R)) (Unit {0}) =
          attempt jobs
            (choose (orders i) jobs (pos_part num_nodes) times
              (record { next = none; replicas = 2147483647 }))
            λ s. elim s.1.next [
              | none ↦ done jobs tt
              | some (id, job) ↦
                  fill fuel orders (suc i) (add_replicas id job s.1.replicas jobs)
                    (erase job.uid s.0) (num_nodes -ℤ pos s.1.replicas)
            ] in
        if ltb_ℤ (pos 0) num_nodes
        then (if is_empty times then done jobs tt else round)
        else done jobs tt
