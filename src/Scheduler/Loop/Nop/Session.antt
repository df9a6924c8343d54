-- ===== src/Scheduler/Loop/Nop/Session.antt =====
-- A round of the scheduler with the policy nop.
use pinta_scheduler.Prelude.{
  ℕ, String, ◌≡◌, refl, ap, subst, ◌∙◌, inl, inr, true, Option, none, some, [], arith, or_else,
  is_some, Option-cases,
}
use pinta_scheduler.Prelude.Int.{ℤ, eqb_ℤ→eq}
use pinta_scheduler.Scheduler.Outcome.{done}
use pinta_scheduler.Dict.{Dict, lookup, IsMap}
use pinta_scheduler.Dict.Laws.{Each}
use mathlib.Core.Option
use pinta_scheduler.Api.{PintaJob, last_status}
use pinta_scheduler.Info.Resource.{QuantityApi}
use pinta_scheduler.Info.Node.{NodeInfo}
use pinta_scheduler.Info.Job.{JobInfo, parse_custom_fields, clone}
use pinta_scheduler.Controller.Result.{ok}
use pinta_scheduler.Scheduler.Cache.{
  PintaCache, snapshot_job, snapshot_jobs, snapshot, snapshot_nodes,
}
use pinta_scheduler.Scheduler.Session.{
  update_job as close_job, update_all, is_unchanged, open_session,
}
use pinta_scheduler.Scheduler.Policies.{NopFields, nop}
use pinta_scheduler.Scheduler.Policies.Laws.{with_fields, nop_jobs_lem}
use pinta_scheduler.Scheduler.Loop.{run_policy}
use pinta_scheduler.Scheduler.Loop.Known.{IsKnown, snapshot_jobs-IsMap, lookup-snapshot}

pub decoded_fields : (o : Option NopFields) → is_some o ≡ true → (f : NopFields) × (o ≡ some f)
decoded_fields none e = absurd cc
decoded_fields (some f) e = (f, refl)

module _ {Q : Type 0} where
  -- The numbers of the last status of a job.
  abbrev pub numbers : JobInfo Q NopFields → Option (ℤ × ℤ)
  numbers ji =
      some ((last_status ji.job.status).num_masters, (last_status ji.job.status).num_replicas)

  abbrev pub given : JobInfo Q NopFields → NopFields → JobInfo Q NopFields
  given ji fields = record ji {
    num_masters = fields.num_masters;
    num_replicas = fields.num_replicas;
    custom_fields = some fields;
  }

  pub unchanged_numbers :
      (w : JobInfo Q NopFields) (f : NopFields)
      → is_unchanged (given w f) (last_status w.job.status) ≡ true
      → numbers w ≡ some (f.num_masters, f.num_replicas)
  unchanged_numbers w f e =
      let last = last_status w.job.status in
      let masters = eqb_ℤ→eq f.num_masters last.num_masters (ground (arith, e)) in
      let replicas = eqb_ℤ→eq f.num_replicas last.num_replicas (ground (arith, e)) in
      rw (masters, replicas) refl

  pub sends_nothing :
      (later : ℕ) (w x : JobInfo Q NopFields) (f : NopFields)
      → x ≡ given w f
      → is_unchanged (given w f) (last_status w.job.status) ≡ true
      → close_job later x ≡ none
  unfolding close_job
  sends_nothing later w x f e same = rw (e, same) refl

module _ {Q : Type 0} (unmarshal : String → Option NopFields) where
  -- What the annotation of a job decodes to.
  abbrev pub custom_fields_of : PintaJob Q → Option NopFields
  custom_fields_of job =
      unmarshal (or_else (lookup "pinta.qed.usc.edu/custom-fields" job.meta.annotations) "")

  abbrev pub AllDecoded : PintaCache Q NopFields → Type 0
  AllDecoded pc =
      Each (λ k (ji : JobInfo Q NopFields). is_some (custom_fields_of ji.job) ≡ true) pc.jobs

  -- The numbers of the annotation of a job.
  abbrev pub wanted : JobInfo Q NopFields → Option (ℤ × ℤ)
  wanted ji = Option.map (λ f. (f.num_masters, f.num_replicas)) (custom_fields_of ji.job)

  -- What the session gives to a job of the cache.
  abbrev pub decide : JobInfo Q NopFields → JobInfo Q NopFields
  decide ji = with_fields (snapshot_job unmarshal ji)

  snapshot_job-decoded :
      (ji : JobInfo Q NopFields) (fields : NopFields)
      → custom_fields_of ji.job ≡ some fields
      → snapshot_job unmarshal ji ≡ record ji { custom_fields = some fields }
  unfolding snapshot_job parse_custom_fields clone
  snapshot_job-decoded ji fields e = ground (arith, e)

  pub decide_lem :
      (ji : JobInfo Q NopFields) (fields : NopFields)
      → custom_fields_of ji.job ≡ some fields
      → decide ji ≡ given ji fields
  decide_lem ji fields e = rw (snapshot_job-decoded ji fields e) refl

  snapshot_job-parsed :
      (ji : JobInfo Q NopFields)
      → is_some (custom_fields_of ji.job) ≡ true
      → is_some (snapshot_job unmarshal ji).custom_fields ≡ true
  snapshot_job-parsed ji e = elim (Option-cases (custom_fields_of ji.job)) [
    | inl missing ↦ absurd (cc (missing, e))
    | inr (fields, found) ↦ rw (snapshot_job-decoded ji fields found) refl
  ]

  -- A round of the scheduler, up to the session's end.
  pub record Round (q : QuantityApi Q) (now : ℕ) (pc : PintaCache Q NopFields) : Type 0 where
    pub jobs : Dict (JobInfo Q NopFields)
    pub is_map : IsMap jobs
    pub at : (k : String) → lookup k jobs ≡ Option.map (λ ji. decide ji) (lookup k pc.jobs)
    pub ends : run_policy q now (nop unmarshal) pc ≡ done (update_all now jobs) tt

  map_twice :
      (o : Option (JobInfo Q NopFields))
      → Option.map with_fields (Option.map (λ ji. snapshot_job unmarshal ji) o)
        ≡ Option.map (λ ji. decide ji) o
  map_twice none = refl
  map_twice (some ji) = refl

  pub round :
      (q : QuantityApi Q) (now : ℕ) (pc : PintaCache Q NopFields) (nodes : Dict (NodeInfo Q))
      → IsKnown pc
      → AllDecoded pc
      → snapshot_nodes q pc.nodes [] ≡ ok nodes
      → Round q now pc
  unfolding run_policy snapshot open_session
  round q now pc nodes h decoded shown =
      let seen = snapshot_jobs unmarshal pc.jobs [] in
      let (jobs, e, m, numbers) =
        nop_jobs_lem seen (snapshot_jobs-IsMap unmarshal pc.jobs [] tt) (λ k ji there.
          elim (Option-cases (lookup k pc.jobs)) [
            | inl missing ↦ absurd (cc (there, missing, lookup-snapshot unmarshal pc k h))
            | inr (x, found) ↦
                subst (λ (y : JobInfo Q NopFields). is_some y.custom_fields ≡ true)
                  {x = snapshot_job unmarshal x} {y = ji}
                  (ground (arith, there, found, lookup-snapshot unmarshal pc k h))
                  (snapshot_job-parsed x (decoded k x found))
          ]) in
      record {
        jobs = jobs;
        is_map = m;
        at = λ k.
            numbers k
            ∙ ap (Option.map with_fields) (lookup-snapshot unmarshal pc k h)
            ∙ map_twice (lookup k pc.jobs);
        ends = rw (shown, e) refl;
      }
