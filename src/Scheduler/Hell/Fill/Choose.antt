-- ===== src/Scheduler/Hell/Fill/Choose.antt =====
-- One job that a round of the fill loop visits: what it needs, and what the choice is then.
use mathlib.Core.Option
use pinta_scheduler.Prelude.{
  ltb, ℕ, suc, ◌≤◌, String, ◌≡◌, refl, sym, ap, subst, ◌∙◌, ◌⊎◌, inl, inr, true, false, Option,
  none, some, List, arith, str_eq, str_eq_iff, if◌then◌else◌, Bool-cases,
}
use pinta_scheduler.Prelude.Int.{pos, eqb_ℤ}
use pinta_scheduler.Dict.{Dict, lookup, erase}
use pinta_scheduler.Dict.Laws.{lookup-erase, Each}
use pinta_scheduler.Controller.Result.{Result, ok}
use pinta_scheduler.Scheduler.Hell.Ratios.{FloatApi, Job}
use pinta_scheduler.Scheduler.Hell.Fill.{Addition, try_more, is_fewer, try_job}
use pinta_scheduler.Scheduler.Hell.Fill.Pick.{holds_some}
use pinta_scheduler.Scheduler.Hell.Fill.Fewest.{some-none}
use pinta_scheduler.Controller.Result.{err, panic, ok_inj, ◌>>=◌}

zero_not_suc : (r : ℕ) → pos 0 ≡ pos (suc r) → ⊥
zero_not_suc r e = cc

-- A job has no replica or some.
abbrev pub IsCounted : {Q R : Type 0} → Job Q R → Type 0
IsCounted ji = (ji.num_replicas ≡ pos 0) ⊎ ((r : ℕ) × (ji.num_replicas ≡ pos (suc r)))

module _ {Q R : Type 0} (fl : FloatApi R) (jobs : Dict (Job Q R)) (left : ℕ) where
  -- What the job under an id needs to come to its least remaining time.
  pub record Needs (id : String) (times : Dict (List R)) (t : R) (more : ℕ) : Type 0 where
    pub job : Job Q R
    pub there : lookup id jobs ≡ some job
    pub ts : List R
    pub has : lookup id times ≡ some ts
    pub r : ℕ
    pub replicas : job.num_replicas ≡ pos (suc r)
    pub best : try_more fl (suc left) 0 (pos (suc r)) ts (fl.max_float, 0) ≡ ok (t, more)

  -- The choice is the old one, or the job under an id with the replicas that it needs.
  abbrev pub From : Dict (List R) → Addition Q R → Addition Q R → Type 0
  From times best out =
      (out ≡ best)
      ⊎ ((id : String) × (t : R) × (out.next
            ≡ Option.map (λ (ji : Job Q R). (id, ji)) (lookup id jobs))
          × Needs id times t out.replicas)

module _ {Q R : Type 0} (fl : FloatApi R) (jobs : Dict (Job Q R)) (left : ℕ)
    (own_uid : Each (λ k (ji : Job Q R). ji.uid ≡ k) jobs)
    (counted : Each (λ k ji. IsCounted ji) jobs) where
  pub record Tried (id : String) (times : Dict (List R)) (best : Addition Q R)
      (out : Dict (List R) × Addition Q R) : Type 0 where
    pub fewer : out.1.replicas ≤ best.replicas
    pub fewest : (t : R) (more : ℕ) → Needs fl jobs left id times t more → out.1.replicas ≤ more
    pub from : From fl jobs left times best out.1
    pub back :
        (k : String) (t : R) (more : ℕ)
        → Needs fl jobs left k out.0 t more
        → Needs fl jobs left k times t more
    pub kept :
        (k : String) (t : R) (more : ℕ)
        → Needs fl jobs left k times t more
        → Needs fl jobs left k out.0 t more

  -- The job under an id that needs replicas has some.
  idle-Needs :
      (id : String) (times : Dict (List R)) (t : R) (more : ℕ) (job : Job Q R)
      → lookup id jobs ≡ some job
      → job.num_replicas ≡ pos 0
      → Needs fl jobs left id times t more
      → ⊥
  idle-Needs id times t more job there idle n =
      let same : n.job ≡ job = ground (arith, n.there, there) in
      zero_not_suc n.r (sym idle ∙ ap (λ (x : Job Q R). x.num_replicas) (sym same) ∙ n.replicas)

  erase-Tried :
      (id : String) (job : Job Q R) (times : Dict (List R)) (best : Addition Q R)
      → lookup id jobs ≡ some job
      → job.num_replicas ≡ pos 0
      → Tried id times best (erase job.uid times, best)
  erase-Tried id job times best there idle = record {
    fewer = omega arith;
    fewest = λ t more n. absurd (idle-Needs id times t more job there idle n);
    from = inl refl;
    back = λ k t more n. record {
      job = n.job;
      there = n.there;
      ts = n.ts;
      has = ground (arith, lookup-erase k job.uid times, n.has);
      r = n.r;
      replicas = n.replicas;
      best = n.best;
    };
    kept = λ k t more n. elim (Bool-cases (str_eq job.uid k)) [
      | inl same ↦
          let at_k : lookup k jobs ≡ some job =
            ground (arith, same, str_eq_iff job.uid k, own_uid id job there, there) in
          absurd (idle-Needs k times t more job at_k idle n)
      | inr other ↦ record {
        job = n.job;
        there = n.there;
        ts = n.ts;
        has = ground (arith, other, lookup-erase k job.uid times, n.has);
        r = n.r;
        replicas = n.replicas;
        best = n.best;
      }
    ];
  }

  abbrev replaced : String → Job Q R → ℕ → Addition Q R → Addition Q R
  replaced id job more best =
      if is_fewer job more best then record { next = some (id, job); replicas = more } else best

  replaced_fewer :
      (id : String) (job : Job Q R) (more : ℕ) (best : Addition Q R)
      → ((replaced id job more best).replicas ≤ best.replicas)
        × ((replaced id job more best).replicas ≤ more)
  replaced_fewer id job more best = elim (Bool-cases (ltb more best.replicas)) [
    | inl fewer ↦ ground (arith, fewer)
    | inr other ↦ ground (arith, other)
  ]

  placed-Tried :
      (id : String) (job : Job Q R) (ts : List R) (times : Dict (List R)) (best : Addition Q R)
      (least : R × ℕ) (r : ℕ)
      → job.num_replicas ≡ pos (suc r)
      → lookup id jobs ≡ some job
      → lookup id times ≡ some ts
      → try_more fl (suc left) 0 job.num_replicas ts (fl.max_float, 0) ≡ ok least
      → Tried id times best (times, replaced id job least.1 best)
  placed-Tried id job ts times best least r counts_r there has tried = record {
    fewer = (replaced_fewer id job least.1 best).0;
    fewest = λ t more n.
        let same_job : n.job ≡ job = ground (arith, n.there, there) in
        let same_times : n.ts ≡ ts = ground (arith, n.has, has) in
        let counts : pos (suc n.r) ≡ job.num_replicas =
          sym n.replicas ∙ ap (λ (x : Job Q R). x.num_replicas) same_job in
        let same_least : (t, more) ≡ least = ok_inj (
          sym n.best
          ∙ ap (λ m. try_more fl (suc left) 0 m n.ts (fl.max_float, 0)) counts
          ∙ ap (λ l. try_more fl (suc left) 0 job.num_replicas l (fl.max_float, 0)) same_times
          ∙ tried) in
        subst (λ m. (replaced id job least.1 best).replicas ≤ m)
          (sym (ap (λ (x : R × ℕ). x.1) same_least)) (replaced_fewer id job least.1 best).1;
    from = elim (Bool-cases (is_fewer job least.1 best)) [
      | inr other ↦ rw other (inl refl)
      | inl fewer ↦
          rw fewer
            (inr (id, least.0, sym (ap (Option.map (λ (ji : Job Q R). (id, ji))) there), needs))
    ];
    back = λ k t more n. n;
    kept = λ k t more n. n;
  }
    where
      needs : Needs fl jobs left id times least.0 least.1
      needs = record {
        job = job;
        there = there;
        ts = ts;
        has = has;
        r = r;
        replicas = counts_r;
        best = ap (λ n. try_more fl (suc left) 0 n ts (fl.max_float, 0)) (sym counts_r) ∙ tried;
      }

  pub try_job-Tried :
      (id : String) (ts : Option (List R)) (job : Option (Job Q R)) (times : Dict (List R))
      (best : Addition Q R) (out : Dict (List R) × Addition Q R)
      → lookup id times ≡ ts
      → lookup id jobs ≡ job
      → try_job fl left id ts job times best ≡ ok out
      → Tried id times best out
  unfolding try_job
  try_job-Tried id none job times best out has there e =
      subst (Tried id times best) (ok_inj e) (record {
        fewer = omega arith;
        fewest = λ t more n. absurd (some-none (sym (n.has) ∙ has));
        from = inl refl;
        back = λ k t more n. n;
        kept = λ k t more n. n;
      })
  try_job-Tried id (some ts) none times best out has there e = absurd cc
  try_job-Tried id (some ts) (some job) times best out has there e = elim (counted id job there) [
    | inl idle ↦
        let is_idle : eqb_ℤ job.num_replicas (pos 0) ≡ true = rw idle refl in
        subst (Tried id times best) (ok_inj (sym (rw is_idle refl) ∙ e))
          (erase-Tried id job times best there idle)
    | inr (r, some_held) ↦
        let placed : eqb_ℤ job.num_replicas (pos 0) ≡ false =
          ap (λ n. eqb_ℤ n (pos 0)) some_held ∙ holds_some r in
        try_placed r some_held (try_more fl (suc left) 0 job.num_replicas ts (fl.max_float, 0)) refl
          (sym (rw placed refl) ∙ e)
  ]
    where
      try_placed :
          (n : ℕ)
          → job.num_replicas ≡ pos (suc n)
          → (r : Result (R × ℕ))
          → try_more fl (suc left) 0 job.num_replicas ts (fl.max_float, 0) ≡ r
          → (r >>= λ least. ok (
            times,
            if is_fewer job least.1 best
                then record { next = some (id, job); replicas = least.1 }
                else best,
          ))
            ≡ ok out
          → Tried id times best out
      try_placed n some_held (ok least) tried ends =
          subst (Tried id times best) (ok_inj ends)
            (placed-Tried id job ts times best least n some_held there has tried)
      try_placed n some_held (err x) tried ends = absurd cc
      try_placed n some_held panic tried ends = absurd cc
