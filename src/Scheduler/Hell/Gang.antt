-- ===== src/Scheduler/Hell/Gang.antt =====
-- What the two loops of hell.go keep: the nodes that the jobs hold, and that a job holds what it needs
-- or nothing.
use pinta_scheduler.Prelude.{
  ℕ, suc, ◌+◌, ◌≤◌, String, ◌≡◌, ap, ◌∙◌, inl, inr, some, List, arith, str_eq, str_eq_iff,
  Bool-cases, length,
}
use pinta_scheduler.Prelude.Int.{ℤ, pos, ◌+ℤ◌, +ℤ_parts, eq_of_parts}
use pinta_scheduler.Dict.{Dict, lookup, insert}
use pinta_scheduler.Dict.Laws.{lookup-insert, Each, insert-Each}
use pinta_scheduler.Dict.Sums.{sum_of, sum_of-insert}
use pinta_scheduler.Scheduler.Equi.Pass.{SameJobs}
use pinta_scheduler.Scheduler.Hell.Ratios.{HellFields, Job}
use pinta_scheduler.Scheduler.Hell.Place.{masters_of}

swap_used :
    (s s' a a' : ℤ) (left left' total : ℕ)
    → s' +ℤ a ≡ s +ℤ a'
    → s +ℤ pos left ≡ pos total
    → a' +ℤ pos left' ≡ a +ℤ pos left
    → s' +ℤ pos left' ≡ pos total
swap_used s s' a a' left left' total h k l = eq_of_parts _ _ (
    ground (
      arith,
      h,
      k,
      l,
      +ℤ_parts s' a,
      +ℤ_parts s a',
      +ℤ_parts s (pos left),
      +ℤ_parts a' (pos left'),
      +ℤ_parts a (pos left),
      +ℤ_parts s' (pos left'),
    ))

module _ {Q R : Type 0} where
  -- The nodes that a job holds.
  abbrev pub amount : Job Q R → ℤ
  amount ji = ji.num_masters +ℤ ji.num_replicas

  abbrev pub IsIdle : Job Q R → Type 0
  IsIdle ji = (ji.num_masters ≡ pos 0) × (ji.num_replicas ≡ pos 0)

  -- A job holds nothing, or the master that its type needs with at least one replica, of which there
  -- are no more than the throughputs given for it, and no more than the nodes that are not left.
  pub data Gang (total left : ℕ) (ji : Job Q R) : Type 0 where
    idle : IsIdle ji → Gang total left ji
    placed :
        (fields : HellFields R) (r : ℕ)
        → ji.custom_fields ≡ some fields
        → ji.num_masters ≡ pos (masters_of ji.type)
        → ji.num_replicas ≡ pos (suc r)
        → suc r ≤ length fields.throughput
        → suc r + left ≤ total
        → Gang total left ji

  -- The jobs hold all nodes but those that are left.
  pub record Held (total : ℕ) (jobs0 jobs : Dict (Job Q R)) (left : ℕ) : Type 0 where
    pub used : sum_of amount jobs +ℤ pos left ≡ pos total
    pub bound : left ≤ total
    pub own_uid : Each (λ k (ji : Job Q R). ji.uid ≡ k) jobs
    pub gang : Each (λ k ji. Gang total left ji) jobs
    pub same_jobs : SameJobs jobs0 jobs

  -- The job of a list of ratios or times, which are as many as its throughputs.
  pub record Measured (jobs : Dict (Job Q R)) (k : String) (rs : List R) : Type 0 where
    pub job : Job Q R
    pub there : lookup k jobs ≡ some job
    pub fields : HellFields R
    pub parsed : job.custom_fields ≡ some fields
    pub sized : length fields.throughput ≡ length rs

  Gang-fewer :
      (total left left' : ℕ) (ji : Job Q R)
      → left' ≤ left
      → Gang total left ji
      → Gang total left' ji
  Gang-fewer total left left' ji h (idle none_held) = idle none_held
  Gang-fewer total left left' ji h (placed fields r parsed masters replicas sized small) =
      placed fields r parsed masters replicas sized (omega arith)

  -- A write over a job that takes from the nodes that are left what it gives to the job.
  pub insert-Held :
      (total left left' : ℕ) (jobs0 jobs : Dict (Job Q R)) (id : String) (old new : Job Q R)
      → lookup id jobs ≡ some old
      → new.uid ≡ old.uid
      → left' ≤ left
      → amount new +ℤ pos left' ≡ amount old +ℤ pos left
      → Gang total left' new
      → Held total jobs0 jobs left
      → Held total jobs0 (insert id new jobs) left'
  insert-Held total left left' jobs0 jobs id old new there same fewer taken held h = record {
    used =
        swap_used _ _ (amount old) (amount new) left left' total
          (sum_of-insert amount id old new jobs there) h.used taken;
    bound = ground (arith, h.bound, fewer);
    own_uid = insert-Each _ id new jobs h.own_uid (same ∙ h.own_uid id old there);
    gang =
        insert-Each (λ k ji. Gang total left' ji) id new jobs
          (λ k ji e. Gang-fewer total left left' ji fewer (h.gang k ji e)) held;
    same_jobs =
        λ k. ground (arith, str_eq_iff id k, lookup-insert k id new jobs, there, h.same_jobs k);
  }

  -- The lists of ratios keep their jobs over a write that keeps the custom fields.
  pub insert-Measured :
      (jobs : Dict (Job Q R)) (id : String) (old new : Job Q R) (ratios : Dict (List R))
      → lookup id jobs ≡ some old
      → new.custom_fields ≡ old.custom_fields
      → Each (Measured jobs) ratios
      → Each (Measured (insert id new jobs)) ratios
  insert-Measured jobs id old new ratios there same h k rs e =
      let m = h k rs e in
      elim (Bool-cases (str_eq id k)) [
        | inl at_id ↦
            let old_is : old ≡ m.job = ground (arith, at_id, str_eq_iff id k, there, m.there) in
            record {
              job = new;
              there = ground (arith, at_id, lookup-insert k id new jobs);
              fields = m.fields;
              parsed = same ∙ ap (λ (x : Job Q R). x.custom_fields) old_is ∙ m.parsed;
              sized = m.sized;
            }
        | inr other ↦ record {
          job = m.job;
          there = ground (arith, other, lookup-insert k id new jobs, m.there);
          fields = m.fields;
          parsed = m.parsed;
          sized = m.sized;
        }
      ]
