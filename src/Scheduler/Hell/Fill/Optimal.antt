-- ===== src/Scheduler/Hell/Fill/Optimal.antt =====
-- The additional replicas that a round of the fill loop picks: no job that it visits needs fewer.
use mathlib.Core.Option
use pinta_scheduler.Prelude.{
  ℕ, suc, ◌≤◌, String, ◌≡◌, refl, sym, ap, subst, ◌∙◌, ◌⊎◌, inl, inr, true, none, some, List, [],
  ◌∷◌, arith, str_eq, str_eq_iff, Bool-cases,
}
use pinta_scheduler.Prelude.Int.{pos}
use pinta_scheduler.Dict.{Dict, lookup}
use pinta_scheduler.Dict.Laws.{Each}
use pinta_scheduler.Controller.Result.{Result, ok}
use pinta_scheduler.Scheduler.Equi.Pass.{elem}
use pinta_scheduler.Scheduler.Hell.Ratios.{FloatApi, Job}
use pinta_scheduler.Scheduler.Hell.Place.Least.{FloatOrder, AllNumbers}
use pinta_scheduler.Scheduler.Hell.Fill.{Addition, try_job, choose}
use pinta_scheduler.Scheduler.Hell.Fill.Fewest.{IsBest, try_more_lem}
use pinta_scheduler.Controller.Result.{err, panic, ok_inj, ◌>>=◌}
use pinta_scheduler.Scheduler.Hell.Gang.{idle, placed, Held, Measured}
use pinta_scheduler.Scheduler.Hell.Fill.Pick.{nothing, choose-Chosen}
use pinta_scheduler.Scheduler.Hell.Fill.Choose.{IsCounted, Needs, From, try_job-Tried}

module _ {Q R : Type 0} (fl : FloatApi R) (jobs : Dict (Job Q R)) (left : ℕ)
    (own_uid : Each (λ k (ji : Job Q R). ji.uid ≡ k) jobs)
    (counted : Each (λ k ji. IsCounted ji) jobs) where
  -- What the visits of `ids` lead to.
  record Visited (ids : List String) (times : Dict (List R)) (best out : Addition Q R)
      : Type 0 where
    fewer : out.replicas ≤ best.replicas
    fewest :
        (id : String)
        → elem id ids ≡ true
        → (t : R) (more : ℕ) → Needs fl jobs left id times t more
        → out.replicas ≤ more
    from : From fl jobs left times best out

  choose-Visited :
      (ids : List String) (times : Dict (List R)) (best : Addition Q R)
      (out : Dict (List R) × Addition Q R)
      → choose fl ids jobs left times best ≡ ok out
      → Visited ids times best out.1
  unfolding choose
  choose-Visited [] times best out e =
      subst (Visited [] times best) (ap (λ (s : Dict (List R) × Addition Q R). s.1) (ok_inj e))
        (record { fewer = omega arith; fewest = λ id visited. absurd cc; from = inl refl })
  choose-Visited (id ∷ ids) times best out e =
      visit (choose-Visited ids) (try_job fl left id (lookup id times) (lookup id jobs) times best)
        refl e
    where
      visit :
          ((times : Dict (List R)) (best : Addition Q R) (out : Dict (List R) × Addition Q R)
            → choose fl ids jobs left times best ≡ ok out
            → Visited ids times best out.1)
          → (t : Result (Dict (List R) × Addition Q R))
          → try_job fl left id (lookup id times) (lookup id jobs) times best ≡ t
          → (t >>= λ s. choose fl ids jobs left s.0 s.1) ≡ ok out
          → Visited (id ∷ ids) times best out.1
      visit later (ok s) tried rest =
          let first =
            try_job-Tried fl jobs left own_uid counted id (lookup id times) (lookup id jobs) times
              best s refl refl tried in
          let others = later s.0 s.1 out rest in
          record {
            fewer = ground (arith, first.fewer, others.fewer);
            fewest = λ k visited t more n. elim (Bool-cases (str_eq id k)) [
              | inl same ↦
                  let at_id : k ≡ id = sym ((str_eq_iff id k).0 same) in
                  let few =
                    first.fewest t more (subst (λ k. Needs fl jobs left k times t more) at_id n) in
                  ground (arith, few, others.fewer)
              | inr other ↦ others.fewest k (cc (visited, other)) t more (first.kept k t more n)
            ];
            from = elim others.from [
              | inr (k, t, next, n) ↦ inr (k, t, next, first.back k t _ n)
              | inl same ↦ subst (From fl jobs left times best) (sym same) first.from
            ];
          }
      visit later (err x) tried rest = absurd cc
      visit later panic tried rest = absurd cc

-- The choice that a round starts with: math.MaxInt32 replicas, of no job.
abbrev pub no_addition : {Q R : Type 0} → Addition Q R
no_addition = record { next = none; replicas = 2147483647 }

module _ {Q R : Type 0} (fl : FloatApi R) (o : FloatOrder fl) where
  -- The job under an id has some replicas, and `best` are its least remaining time and the additional
  -- replicas that bring it there.
  pub record Improves (jobs : Dict (Job Q R)) (times : Dict (List R)) (left : ℕ) (id : String)
      (best : R × ℕ) : Type 0 where
    pub job : Job Q R
    pub there : lookup id jobs ≡ some job
    pub ts : List R
    pub has : lookup id times ≡ some ts
    pub r : ℕ
    pub replicas : job.num_replicas ≡ pos (suc r)
    pub is_best : IsBest fl o r ts (suc left) best

  module _ (total left : ℕ) (jobs0 jobs : Dict (Job Q R)) (held : Held total jobs0 jobs left)
      (times : Dict (List R)) (numbers : AllNumbers o times) where
    Held-IsCounted : Each (λ k (ji : Job Q R). IsCounted ji) jobs
    Held-IsCounted k ji there = elim (held.gang k ji there) [
      | idle none_held ↦ inl (none_held.1)
      | placed fields r parsed masters replicas sized small ↦ inr (r, replicas)
    ]

    Needs-Improves :
        (id : String) (t : R) (more : ℕ)
        → Needs fl jobs left id times t more
        → Improves jobs times left id (t, more)
    Needs-Improves id t more n =
        let (out, e, best) = try_more_lem fl o n.r n.ts (numbers id n.ts n.has) left in
        let same : out ≡ (t, more) = ok_inj (sym e ∙ n.best) in
        record {
          job = n.job;
          there = n.there;
          ts = n.ts;
          has = n.has;
          r = n.r;
          replicas = n.replicas;
          is_best = subst (λ b. IsBest fl o n.r n.ts (suc left) b) same best;
        }

    -- With measured jobs that hold all nodes but some, and remaining times that are no NaN, a round of
    -- the fill loop returns. For each job that it visits and that has replicas, there is a number of
    -- additional replicas that brings the job to its least remaining time, the first such, and the round
    -- picks no more than that. What it picks is such a number for the job that it picks, if it picks one.
    pub choose-fewest :
        (ids : List String)
        → Each (Measured jobs) times
        → (times' : Dict (List R)) × (s : Addition Q R) × (choose fl ids jobs left times no_addition
            ≡ ok (times', s))
          × ((s ≡ no_addition)
              ⊎ ((id : String) × (t : R) × (s.next
                    ≡ Option.map (λ (ji : Job Q R). (id, ji)) (lookup id jobs))
                  × Improves jobs times left id (t, s.replicas)))
          × ((id : String) (job : Job Q R) (ts : List R) (r : ℕ)
              → elem id ids ≡ true
              → lookup id jobs ≡ some job
              → lookup id times ≡ some ts
              → job.num_replicas ≡ pos (suc r)
              → (best : R × ℕ) × IsBest fl o r ts (suc left) best × (s.replicas ≤ best.1))
    choose-fewest ids measured =
        let (times', s, e, _, _, _) =
          choose-Chosen fl total left jobs0 jobs held ids times no_addition measured
            (nothing refl) in
        let v =
          choose-Visited fl jobs left held.own_uid Held-IsCounted ids times no_addition (times', s)
            e in
        (
          times',
          s,
          e,
          elim v.from [
            | inl same ↦ inl same
            | inr (id, t, next, n) ↦ inr (id, t, next, Needs-Improves id t s.replicas n)
          ],
          λ id job ts r visited there has replicas.
              let ((t, more), tried, best) = try_more_lem fl o r ts (numbers id ts has) left in
              (
                (t, more),
                best,
                v.fewest id visited t more (record {
                  job = job;
                  there = there;
                  ts = ts;
                  has = has;
                  r = r;
                  replicas = replicas;
                  best = tried;
                }),
              ),
        )
