-- ===== src/Scheduler/Hell/Fill/Pick.antt =====
-- What a round of the fill loop picks: a placed job that can use so many nodes more.
use pinta_scheduler.Prelude.{
  ℕ, zero, suc, ◌+◌, ◌≤◌, ◌<◌, String, ◌≡◌, refl, sym, ap, ◌∙◌, inl, inr, false, none, some, List,
  [], ◌∷◌, arith, str_eq, str_eq_iff, if◌then◌else◌, Bool-cases, Option-cases, length,
  get_elem?-in_bounds,
}
use pinta_scheduler.Prelude.Int.{pos, ◌+ℤ◌, ◌-ℤ◌, ltb_ℤ, eqb_ℤ}
use pinta_scheduler.Dict.{Dict, lookup, erase}
use pinta_scheduler.Dict.Laws.{lookup-erase, Each, erase-Each}
use pinta_scheduler.Dict.Sizes.{length-erase}
use pinta_scheduler.Controller.Result.{Result, ok}
use pinta_scheduler.Scheduler.Hell.Ratios.{FloatApi, HellFields, Job}
use pinta_scheduler.Scheduler.Hell.Gang.{idle, placed, Held, Measured}
use pinta_scheduler.Scheduler.Hell.Fill.{Addition, at_index, try_more, is_fewer, try_job, choose}

pub index_sub : (r a : ℕ) → pos (suc r) +ℤ pos a -ℤ pos 1 ≡ pos (r + a)
unfolding ◌+ℤ◌ ◌-ℤ◌
index_sub r a = ground arith

pub holds_some : (r : ℕ) → eqb_ℤ (pos (suc r)) (pos 0) ≡ false
holds_some r = ground arith

pub is_within : (l r a : ℕ) → ltb_ℤ (pos l) (pos (suc r) +ℤ pos a) ≡ false → r + a < l
unfolding ◌+ℤ◌
is_within l r a h = ground (arith, h)

module _ {R : Type 0} (fl : FloatApi R) (nodes r : ℕ) (ts : List R) where
  abbrev Fits : R × ℕ → Type 0
  Fits best = (best.1 ≤ nodes) × (suc r + best.1 ≤ length ts)

  try_more-Fits :
      (rounds a : ℕ) (best : R × ℕ)
      → a + rounds ≤ suc nodes
      → Fits best
      → (out : R × ℕ) × (try_more fl rounds a (pos (suc r)) ts best ≡ ok out) × Fits out
  unfolding try_more
  try_more-Fits zero a best within h = (best, refl, h)
  try_more-Fits (suc rounds) a best within h =
      elim (Bool-cases (ltb_ℤ (pos (length ts)) (pos (suc r) +ℤ pos a))) [
        | inl over ↦ (best, rw over refl, h)
        | inr under ↦
            let (t, at_index) = get_elem?-in_bounds ts (r + a) (is_within (length ts) r a under) in
            let b : R × ℕ = if fl.less t best.0 then (t, a) else best in
            let (out, e, fits) =
              try_more-Fits rounds (suc a) b (omega arith)
                (ground (arith, is_within (length ts) r a under, h)) in
            (out, rw (under, index_sub r a, at_index) e, fits)
      ]

module _ {Q R : Type 0} where
  -- The choice is of no job, or of a placed one that can use so many nodes more.
  pub data IsAddition (jobs : Dict (Job Q R)) (times : Dict (List R)) (nodes : ℕ) (s : Addition Q R)
      : Type 0 where
    nothing : s.next ≡ none → IsAddition jobs times nodes s
    add :
        (id : String) (job : Job Q R) (ts : List R) (r : ℕ)
        → s.next ≡ some (id, job)
        → lookup id jobs ≡ some job
        → lookup id times ≡ some ts
        → job.num_replicas ≡ pos (suc r)
        → suc r + s.replicas ≤ length ts
        → s.replicas ≤ nodes
        → IsAddition jobs times nodes s

  -- The times of a job that holds nothing are taken out, which leaves the choice.
  erase-IsAddition :
      (jobs : Dict (Job Q R)) (times : Dict (List R)) (nodes : ℕ) (s : Addition Q R) (k : String)
      (ji : Job Q R)
      → lookup k jobs ≡ some ji
      → ji.num_replicas ≡ pos 0
      → IsAddition jobs times nodes s
      → IsAddition jobs (erase k times) nodes s
  erase-IsAddition jobs times nodes s k ji there none_held (nothing e) = nothing e
  erase-IsAddition jobs times nodes s k ji there none_held
        (add id job ts r e found has some_held fits few) =
      elim (Bool-cases (str_eq k id)) [
        | inl same ↦
            let is_job : ji ≡ job = ground (arith, str_eq_iff k id, same, there, found) in
            absurd (
              zero_is_suc (sym none_held ∙ ap (λ (x : Job Q R). x.num_replicas) is_job ∙ some_held))
        | inr other ↦
            add id job ts r e found (ground (arith, other, lookup-erase id k times, has)) some_held
              fits few
      ]
    where
      zero_is_suc : pos 0 ≡ pos (suc r) → ⊥
      zero_is_suc e = cc

  pub same_fields :
      {jobs : Dict (Job Q R)} {k : String} {ts : List R} (m : Measured jobs k ts)
      (fields : HellFields R)
      → m.job.custom_fields ≡ some fields
      → fields.throughput ≡ m.fields.throughput
  same_fields m fields e = some_inj (sym e ∙ m.parsed)
    where
      some_inj : some fields ≡ some m.fields → fields.throughput ≡ m.fields.throughput
      some_inj e = cc

  module _ (fl : FloatApi R) (total left : ℕ) (jobs0 jobs : Dict (Job Q R))
      (held : Held total jobs0 jobs left) where
    -- What a loop over the times leaves.
    abbrev pub Chosen : Dict (List R) → Result (Dict (List R) × Addition Q R) → Type 0
    Chosen times out =
        (times' : Dict (List R)) × (s : Addition Q R) × (out ≡ ok (times', s))
        × Each (Measured jobs) times'
        × IsAddition jobs times' left s
        × (length times' ≤ length times)

    try_job-idle :
        (id : String) (job : Job Q R) (ts : List R) (times : Dict (List R)) (best : Addition Q R)
        → job.num_replicas ≡ pos 0
        → try_job fl left id (some ts) (some job) times best ≡ ok (erase job.uid times, best)
    unfolding try_job
    try_job-idle id job ts times best e = ground (arith, e)

    try_job-placed :
        (id : String) (job : Job Q R) (ts : List R) (times : Dict (List R)) (best : Addition Q R)
        (r : ℕ) (least : R × ℕ)
        → job.num_replicas ≡ pos (suc r)
        → try_more fl (suc left) 0 (pos (suc r)) ts (fl.max_float, 0) ≡ ok least
        → try_job fl left id (some ts) (some job) times best
          ≡ ok (
            times,
            if is_fewer job least.1 best
                then record { next = some (id, job); replicas = least.1 }
                else best,
          )
    unfolding try_job
    try_job-placed id job ts times best r least e found =
        rw
          (
            ap (λ n. eqb_ℤ n (pos 0)) e ∙ holds_some r,
            ap (λ n. try_more fl (suc left) 0 n ts (fl.max_float, 0)) e ∙ found,
          )
          refl

    try_job-Chosen :
        (id : String) (times : Dict (List R)) (best : Addition Q R)
        → Each (Measured jobs) times
        → IsAddition jobs times left best
        → Chosen times (try_job fl left id (lookup id times) (lookup id jobs) times best)
    unfolding try_job
    try_job-Chosen id times best measured h = elim (Option-cases (lookup id times)) [
      | inl missing ↦ (times, best, rw missing refl, measured, h, omega arith)
      | inr (ts, found) ↦
          let m = measured id ts found in
          let gang = held.gang id m.job m.there in
          rw (found, m.there)
            (elim gang [
              | idle none_held ↦ (
                erase m.job.uid times,
                best,
                try_job-idle id m.job ts times best (none_held.1),
                erase-Each _ m.job.uid times measured,
                erase-IsAddition jobs times left best m.job.uid m.job
                    (ap (λ k. lookup k jobs) (held.own_uid id m.job m.there) ∙ m.there)
                    (none_held.1) h,
                length-erase m.job.uid times,
              )
              | placed fields r parsed masters replicas sized small ↦
                  let (least, e, fits) =
                    try_more-Fits fl left r ts (suc left) 0 (fl.max_float, 0) (omega arith)
                      (omega arith, ground (arith, sized, m.sized, same_fields m fields parsed)) in
                  (
                    times,
                    _,
                    try_job-placed id m.job ts times best r least replicas e,
                    measured,
                    elim (Bool-cases (is_fewer m.job least.1 best)) [
                      | inl fewer ↦
                          rw fewer
                            (add id m.job ts r refl (m.there) found replicas (fits.1) (fits.0))
                      | inr more ↦ rw more h
                    ],
                    omega arith,
                  )
            ])
    ]

    pub choose-Chosen :
        (ids : List String) (times : Dict (List R)) (best : Addition Q R)
        → Each (Measured jobs) times
        → IsAddition jobs times left best
        → Chosen times (choose fl ids jobs left times best)
    unfolding choose
    choose-Chosen [] times best measured h = (times, best, refl, measured, h, omega arith)
    choose-Chosen (id ∷ ids) times best measured h =
        let (times', best', e, measured', h', fewer) = try_job-Chosen id times best measured h in
        let (times'', out, e', measured'', h'', fewer') =
          choose-Chosen ids times' best' measured' h' in
        (times'', out, rw e e', measured'', h'', omega arith)
