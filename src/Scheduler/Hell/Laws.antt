-- ===== src/Scheduler/Hell/Laws.antt =====
-- `Execute` of the policy hell returns, and what it gives to the jobs.
use pinta_scheduler.Prelude.{
  ℕ, ◌<◌, String, ◌≡◌, refl, ◌∙◌, ◌⊎◌, inl, inr, none, some, List, arith, length,
}
use pinta_scheduler.Prelude.Int.{pos, two_31, zero_+ℤ}
use pinta_scheduler.Dict.{Dict, lookup}
use pinta_scheduler.Scheduler.Outcome.{done, panicked}
use pinta_scheduler.Scheduler.Session.{update_all}
use pinta_scheduler.Scheduler.Hell.Ratios.{FloatApi, Job, Pods, clear}
use pinta_scheduler.Scheduler.Hell.Gang.{idle, Held}
use pinta_scheduler.Scheduler.Hell.Place.Laws.{schedule-Scheduled}
use pinta_scheduler.Scheduler.Hell.Fill.Laws.{fill-Filled}
use pinta_scheduler.Scheduler.Hell.{execute}
use pinta_scheduler.Scheduler.Hell.Ratios.Ready.{
  IsReady, own_uid-IsReady, report-IsReady, clear-IsReady, measure-Measured,
}
use pinta_scheduler.Scheduler.Hell.Ratios.Unparsed.{
  report-Kept, report-IsUnparsed, clear-IsUnparsed, measure-unparsed,
}

module _ {Q R : Type 0} where
  -- With jobs under their own uids, of which the custom fields are parsed, and fewer than 2^31 nodes,
  -- `Execute` returns after at most one round more than there are nodes in the first loop, and than
  -- there are jobs in the second, in whatever orders they range over their maps. No uid comes or goes,
  -- and the masters and replicas add up to no more than the nodes. A job gets nothing, or the master
  -- that its type needs with at least one replica, and no more replicas than it has throughputs.
  pub execute-Held :
      (fl : FloatApi R) (pods : Pods) (fuel n : ℕ) (orders fill_orders : ℕ → List String)
      (jobs : Dict (Job Q R))
      → IsReady jobs
      → n < two_31
      → n < fuel
      → length jobs < fuel
      → (jobs' : Dict (Job Q R)) × (left : ℕ) × (execute fl pods fuel orders fill_orders jobs n
          ≡ done jobs' tt)
        × Held n jobs jobs' left
  unfolding execute
  execute-Held fl pods fuel n orders fill_orders jobs ready small enough enough_jobs =
      let (reported, e, ready', keys, size) = report-IsReady pods jobs ready in
      let (ready'', keys', size', all_idle, total) = clear-IsReady reported ready' in
      let cleared = clear reported in
      let (ratios, times, e', measured, timed, size'') = measure-Measured fl cleared ready'' in
      let (jobs', left, e'', held, timed') =
        schedule-Scheduled fl orders n jobs times small fuel 0 n cleared ratios enough (record {
          held = record {
            used = rw total (zero_+ℤ (pos n));
            bound = omega arith;
            own_uid = own_uid-IsReady cleared ready'';
            gang = λ k ji there. idle (all_idle k ji there);
            same_jobs = λ k. keys' k ∙ keys k;
          };
          measured = measured;
          timed = timed;
          fresh = λ k rs found ji there. all_idle k ji there;
        }) in
      let (jobs'', left', e''', held') =
        fill-Filled fl fill_orders n jobs small fuel 0 left jobs' times
          (ground (arith, size'', size', size, enough_jobs)) held timed' in
      (jobs'', left', rw (e, e', e'') e''', held')

  -- With a job of which the custom fields are not parsed `Execute` panics, whatever the other jobs, the
  -- nodes and the orders are. Closing the session then sends what it would send had the policy not run,
  -- or what it would send had the policy set the masters and replicas of all jobs to 0.
  pub execute-unparsed :
      (fl : FloatApi R) (pods : Pods) (fuel n : ℕ) (orders fill_orders : ℕ → List String)
      (jobs : Dict (Job Q R)) (id : String) (ji : Job Q R)
      → lookup id jobs ≡ some ji
      → ji.custom_fields ≡ none
      → (jobs' : Dict (Job Q R)) × (execute fl pods fuel orders fill_orders jobs n ≡ panicked jobs')
        × (((now : ℕ) → update_all now jobs' ≡ update_all now jobs)
            ⊎ ((now : ℕ) → update_all now jobs' ≡ update_all now (clear jobs)))
  unfolding execute
  execute-unparsed fl pods fuel n orders fill_orders jobs id ji there e =
      let (jobs', end, h) = report-Kept pods jobs in
      elim end [
        | inl broken ↦ (jobs', rw broken refl, inl h.same)
        | inr returned ↦
            let unparsed = report-IsUnparsed pods id jobs jobs' returned (ji, there, e) in
            (
              clear jobs',
              rw
                  (
                    returned,
                    measure-unparsed fl id (clear jobs') (clear-IsUnparsed id jobs' unparsed),
                  )
                  refl,
              inr h.same_clear,
            )
      ]
