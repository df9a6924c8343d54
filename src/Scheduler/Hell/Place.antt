-- ===== src/Scheduler/Hell/Place.antt =====
-- The loop of hell.go that schedules the job with the least ratio, until no node or no job is left.
pub mod Pick
pub mod Least
pub mod Laws
use pinta_scheduler.Prelude.{
  ℕ, zero, suc, String, Option, none, some, List, [], ◌∷◌, Bool, true, false, ◌&&◌, ◌||◌, ltb, ◌==◌,
  str_ltb, if◌then◌else◌,
}
use pinta_scheduler.Prelude.Int.{ℤ, pos, pos_part, ◌+ℤ◌, ◌-ℤ◌, ltb_ℤ, wrap32}
use pinta_scheduler.Dict.{Dict, lookup, insert, erase}
use pinta_scheduler.Api.{PintaJobType, ps_worker, mpi}
use pinta_scheduler.Controller.Result.{Result, ok, panic, ◌>>=◌}
use pinta_scheduler.Scheduler.Outcome.{
  Outcome, done, panicked, unfinished, and_then, attempt, with_state,
}
use pinta_scheduler.Scheduler.Hell.Ratios.{FloatApi, Job}

unfoldable pub masters_of : PintaJobType → ℕ
masters_of ps_worker = 1
masters_of mpi = 1
masters_of _ = 0

abbrev pub is_empty {ℓ} : {V : Type ℓ} → Dict V → Bool
is_empty [] = true
is_empty (e ∷ m) = false

-- `nextJob` with the id it stands under, `optimalNumReplicas` and `minRatio`.
pub record Choice (Q R : Type 0) : Type 0 where
  pub next : Option (String × Job Q R)
  pub replicas : ℕ
  pub ratio : R

module _ {Q R : Type 0} where
  -- An earlier job wins, and of two of one time the one with the smaller id.
  abbrev pub wins_tie : Job Q R → Option (String × Job Q R) → Bool
  wins_tie job none = false
  wins_tie job (some (id, old)) =
      if ltb job.creation_timestamp old.creation_timestamp
      then true
      else (job.creation_timestamp == old.creation_timestamp) && str_ltb job.uid old.uid

  -- The nodes that are left for the replicas of a job.
  unfoldable pub room : ℤ → Job Q R → ℕ
  room num_nodes job = pos_part (num_nodes -ℤ pos (masters_of job.type))

  -- `Schedule`: the write through `nextJob`, and the nodes that are left.
  unfoldable pub put_job : String → Job Q R → ℕ → Dict (Job Q R) → ℤ → Dict (Job Q R) × ℤ
  put_job id job replicas jobs num_nodes =
      let masters = if masters_of job.type == 1 then pos 1 else job.num_masters in
      let count = wrap32 (pos replicas) in
      (
        insert id (record job { num_masters = masters; num_replicas = count }) jobs,
        num_nodes -ℤ wrap32 (masters +ℤ count),
      )

module _ {Q R : Type 0} (fl : FloatApi R) where
  abbrev pub is_better : Job Q R → R → Choice Q R → Bool
  is_better job ratio best =
      if fl.less ratio best.ratio then true else fl.equal ratio best.ratio && wins_tie job best.next

  -- The loop over i, with the rounds that are left before i reaches the room.
  unfoldable pub try_replicas : String → Job Q R → ℕ → ℕ → List R → Choice Q R → Choice Q R
  try_replicas id job i zero rs best = best
  try_replicas id job i (suc left) [] best = best
  try_replicas id job i (suc left) (r ∷ rs) best = try_replicas id job (suc i) left rs (
      if is_better job r best
      then record { next = some (id, job); replicas = suc i; ratio = r }
      else best)

  -- A round of the loop over `ratiosMap`; a name of the order that the map lacks is passed over.
  unfoldable pub try_job :
      ℤ → String → Option (List R) → Option (Job Q R) → Choice Q R → Result (Choice Q R)
  try_job num_nodes id none job best = ok best
  try_job num_nodes id (some rs) none best = panic
  try_job num_nodes id (some rs) (some job) best =
      ok (try_replicas id job 0 (room num_nodes job) rs best)

  unfoldable pub choose :
      List String → Dict (Job Q R) → Dict (List R) → ℤ → Choice Q R → Result (Choice Q R)
  choose [] jobs ratios num_nodes best = ok best
  choose (id ∷ ids) jobs ratios num_nodes best =
      try_job num_nodes id (lookup id ratios) (lookup id jobs) best >>= λ best'.
      choose ids jobs ratios num_nodes best'

  abbrev pub no_choice : Choice Q R
  no_choice = record { next = none; replicas = 0; ratio = fl.max_float }

  unfoldable pub schedule :
      ℕ → (ℕ → List String) → ℕ → Dict (Job Q R) → Dict (List R) → ℤ → Outcome (Dict (Job Q R)) ℤ
  schedule zero orders i jobs ratios num_nodes = unfinished
  schedule (suc fuel) orders i jobs ratios num_nodes =
      let round : Outcome (Dict (Job Q R)) ℤ =
        attempt jobs (choose (orders i) jobs ratios num_nodes no_choice) λ c. elim c.next [
          | none ↦ done jobs num_nodes
          | some (id, job) ↦
              let (jobs', left) = put_job id job c.replicas jobs num_nodes in
              schedule fuel orders (suc i) jobs' (erase job.uid ratios) left
        ] in
      if ltb_ℤ (pos 0) num_nodes
      then (if is_empty ratios then done jobs num_nodes else round)
      else done jobs num_nodes
