-- ===== src/Scheduler/Hell/Place/Laws.antt =====
-- The loop of hell.go that schedules returns, and gives no more nodes than there are.
use pinta_scheduler.Prelude.{
  ℕ, zero, suc, ◌+◌, ◌-◌, ◌≤◌, ◌<◌, String, ◌≡◌, refl, sym, ap, ◌∙◌, inl, inr, false, none, some,
  List, arith, str_eq, ◌==◌, if◌then◌else◌, Bool-cases, length,
}
use pinta_scheduler.Prelude.Int.{
  ℤ, pos, ◌+ℤ◌, ◌-ℤ◌, wrap32_small, two_31, add_pos, sub_pos, is_positive,
}
use pinta_scheduler.Scheduler.Outcome.{Outcome, done}
use pinta_scheduler.Dict.{Dict, lookup, insert, erase}
use pinta_scheduler.Dict.Laws.{lookup-insert, lookup-erase, Each, erase-Each}
use pinta_scheduler.Scheduler.Hell.Ratios.{FloatApi, Job}
use pinta_scheduler.Api.{PintaJobType, symmetric, ps_worker, mpi, image_builder, other}
use pinta_scheduler.Scheduler.Hell.Gang.{
  IsIdle, placed, Held, Measured, insert-Held, insert-Measured,
}
use pinta_scheduler.Scheduler.Hell.Place.{
  PintaJobType, masters_of, is_empty, Choice, room, put_job, no_choice, schedule,
}
use pinta_scheduler.Scheduler.Hell.Place.Pick.{IsPick, nothing, pick, choose-IsPick}

masters_of-bound : (t : PintaJobType) → masters_of t < 2
unfolding masters_of
masters_of-bound ps_worker = omega arith
masters_of-bound mpi = omega arith
masters_of-bound symmetric = omega arith
masters_of-bound image_builder = omega arith
masters_of-bound (other t) = omega arith

taken_all :
    (m r left : ℕ)
    → m + r ≤ left
    → pos m +ℤ pos r +ℤ pos (left - (m + r)) ≡ pos 0 +ℤ pos 0 +ℤ pos left
unfolding ◌+ℤ◌
taken_all m r left h = ground arith

module _ {Q R : Type 0} where
  -- What the loop that schedules keeps: the jobs whose ratios are left hold nothing yet.
  pub record Placing (total : ℕ) (jobs0 : Dict (Job Q R)) (times : Dict (List R))
      (jobs : Dict (Job Q R)) (ratios : Dict (List R)) (left : ℕ) : Type 0 where
    pub held : Held total jobs0 jobs left
    pub measured : Each (Measured jobs) ratios
    pub timed : Each (Measured jobs) times
    pub fresh :
        Each (λ k (rs : List R). (ji : Job Q R) → lookup k jobs ≡ some ji → IsIdle ji) ratios

  room_lem :
      (left replicas : ℕ) (ji : Job Q R)
      → 0 < replicas
      → replicas ≤ room (pos left) ji
      → masters_of ji.type + replicas ≤ left
  unfolding room ◌-ℤ◌
  room_lem left replicas ji some_given h = ground arith

  put_masters :
      (ji : Job Q R)
      → ji.num_masters ≡ pos 0
      → (if masters_of ji.type == 1 then pos 1 else ji.num_masters) ≡ pos (masters_of ji.type)
  put_masters ji e = ground (arith, e, masters_of-bound ji.type)

  -- What a chosen job is written as.
  abbrev with_room : Job Q R → ℕ → Job Q R
  with_room ji replicas = record ji {
    num_masters = pos (masters_of ji.type);
    num_replicas = pos replicas;
  }

  put_job_lem :
      (left replicas : ℕ) (id : String) (ji : Job Q R) (jobs : Dict (Job Q R))
      → ji.num_masters ≡ pos 0
      → left < two_31
      → masters_of ji.type + replicas ≤ left
      → put_job id ji replicas jobs (pos left)
        ≡ (insert id (with_room ji replicas) jobs, pos (left - (masters_of ji.type + replicas)))
  unfolding put_job
  put_job_lem left replicas id ji jobs no_master small fits =
      rw
        (
          put_masters ji no_master,
          wrap32_small replicas (omega arith),
          add_pos (masters_of ji.type) replicas,
          wrap32_small (masters_of ji.type + replicas) (omega arith),
          sub_pos left (masters_of ji.type + replicas) fits,
        )
        refl

  module _ (total : ℕ) (jobs0 : Dict (Job Q R)) (times : Dict (List R)) where
    with_room-Placing :
        (left replicas : ℕ) (id : String) (ji : Job Q R) (rs : List R) (jobs : Dict (Job Q R))
        (ratios : Dict (List R))
        → Placing total jobs0 times jobs ratios left
        → lookup id jobs ≡ some ji
        → lookup id ratios ≡ some rs
        → 0 < replicas
        → replicas ≤ length rs
        → masters_of ji.type + replicas ≤ left
        → Placing total jobs0 times
            (insert id (with_room ji replicas) jobs)
            (erase ji.uid ratios)
            (left - (masters_of ji.type + replicas))
    with_room-Placing left zero id ji rs jobs ratios p there has some_given fits roomy =
        absurd (omega arith)
    with_room-Placing left (suc r) id ji rs jobs ratios p there has some_given fits roomy =
        let new = with_room ji (suc r) in
        let idle_before = p.fresh id rs has ji there in
        let m = p.measured id rs has in
        let is_job : m.job ≡ ji = ground (arith, there, m.there) in
        let at_uid : ji.uid ≡ id = p.held.own_uid id ji there in
        record {
          held =
              insert-Held total left _ jobs0 jobs id ji new there refl (omega arith)
                (rw (idle_before.0, idle_before.1)
                  (taken_all (masters_of ji.type) (suc r) left roomy))
                (placed m.fields r (sym (ap (λ (x : Job Q R). x.custom_fields) is_job) ∙ m.parsed)
                  refl refl (ground (arith, m.sized, fits)) (ground (arith, p.held.bound, roomy)))
                p.held;
          measured =
              erase-Each _ ji.uid ratios
                (insert-Measured jobs id ji new ratios there refl p.measured);
          timed = insert-Measured jobs id ji new times there refl p.timed;
          fresh = λ k rs' found ji' e.
              let other : str_eq id k ≡ false =
                ground (arith, at_uid, found, lookup-erase k ji.uid ratios) in
              p.fresh k rs' (ground (arith, found, lookup-erase k ji.uid ratios)) ji'
                (ground (arith, e, other, lookup-insert k id new jobs));
        }

  module _ (fl : FloatApi R) (orders : ℕ → List String) (total : ℕ) (jobs0 : Dict (Job Q R))
      (times : Dict (List R)) (small : total < two_31) where
    -- What is left when the loop returns.
    abbrev pub Scheduled : Outcome (Dict (Job Q R)) ℤ → Type 0
    Scheduled out =
        (jobs : Dict (Job Q R)) × (left : ℕ) × (out ≡ done jobs (pos left))
        × Held total jobs0 jobs left
        × Each (Measured jobs) times

    next_round :
        (left : ℕ) (jobs : Dict (Job Q R)) (ratios : Dict (List R)) (c : Choice Q R)
        (rest : Dict (Job Q R) → Dict (List R) → ℤ → Outcome (Dict (Job Q R)) ℤ)
        → Placing total jobs0 times jobs ratios left
        → IsPick fl.max_float jobs ratios (pos left) c
        → ((left' : ℕ) (jobs' : Dict (Job Q R)) (ratios' : Dict (List R))
            → left' < left
            → Placing total jobs0 times jobs' ratios' left'
            → Scheduled (rest jobs' ratios' (pos left')))
        → Scheduled (elim c.next [
          | none ↦ done jobs (pos left)
          | some (id, job) ↦
              let (jobs', left) = put_job id job c.replicas jobs (pos left) in
              rest jobs' (erase job.uid ratios) left
        ])
    next_round left jobs ratios c rest p (nothing e _) goes_on =
        rw e (jobs, left, refl, p.held, p.timed)
    next_round left jobs ratios c rest p (pick id job rs i e there has some_given at fits roomy)
          goes_on =
        let given : 0 < c.replicas = omega arith in
        let within = room_lem left c.replicas job given roomy in
        let bound = p.held.bound in
        rw
          (
            e,
            put_job_lem left c.replicas id job jobs ((p.fresh id rs has job there).0) (omega arith)
                within,
          )
          (goes_on _ _ _ (omega arith) (
            with_room-Placing total jobs0 times left c.replicas id job rs jobs ratios p there has
              given fits within))

    pub schedule-Scheduled :
        (fuel i left : ℕ) (jobs : Dict (Job Q R)) (ratios : Dict (List R))
        → left < fuel
        → Placing total jobs0 times jobs ratios left
        → Scheduled (schedule fl fuel orders i jobs ratios (pos left))
    unfolding schedule
    schedule-Scheduled zero i left jobs ratios enough p = absurd (omega arith)
    schedule-Scheduled (suc fuel) i zero jobs ratios enough p = (jobs, 0, refl, p.held, p.timed)
    schedule-Scheduled (suc fuel) i (suc left) jobs ratios enough p =
        elim (Bool-cases (is_empty ratios)) [
          | inl none_left ↦ (jobs, suc left, rw (is_positive left, none_left) refl, p.held, p.timed)
          | inr some_left ↦
              let (c, e, picked) =
                choose-IsPick fl fl.max_float jobs ratios (pos (suc left))
                  (λ k rs e. rw ((p.measured k rs e).there) refl) (orders i) (no_choice fl)
                  (nothing refl refl) in
              rw (is_positive left, some_left, e)
                (next_round (suc left) jobs ratios c
                  (λ jobs'. schedule fl fuel orders (suc i) jobs') p picked
                  (λ left' jobs' ratios' less p'.
                    schedule-Scheduled fuel (suc i) left' jobs' ratios' (omega arith) p'))
        ]
