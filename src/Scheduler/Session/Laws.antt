-- ===== src/Scheduler/Session/Laws.antt =====
-- What closing a session sends.
use pinta_scheduler.Prelude.{ℕ, String, ◌≡◌, none, some, arith}
use pinta_scheduler.Prelude.Int.{eqb_ℤ_refl}
use pinta_scheduler.Api.{PintaJob, last_status}
use pinta_scheduler.Info.Job.{JobInfo, new_job_info}
use pinta_scheduler.Scheduler.Session.{update_job}

module _ {Q F : Type 0} where
  -- A request that `updateJob` sends goes to the namespace of the job info, and puts one status on
  -- top of the history, with the numbers of the policy and the state that was the last one. Read
  -- back into the cache, the job that was sent asks for no further request.
  pub update_job_lem :
      (now later : ℕ) (uid : String) (ji : JobInfo Q F) (ns : String) (job : PintaJob Q)
      → update_job now ji ≡ some (ns, job)
      → (ns ≡ ji.namespace)
        × ((last_status job.status).state ≡ (last_status ji.job.status).state)
        × ((last_status job.status).num_masters ≡ ji.num_masters)
        × ((last_status job.status).num_replicas ≡ ji.num_replicas)
        × (update_job later (new_job_info {F = F} uid job) ≡ none)
  unfolding update_job new_job_info
  update_job_lem now later uid ji ns job e =
      ground (arith, e, eqb_ℤ_refl ji.num_masters, eqb_ℤ_refl ji.num_replicas)
