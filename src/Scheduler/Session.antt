-- ===== src/Scheduler/Session.antt =====
-- pkg/scheduler/session: the snapshot that a policy works on, and what is sent when it is closed.
pub mod Laws
use pinta_scheduler.Prelude.{
  ℕ, String, Option, none, some, List, [], ◌∷◌, Bool, true, false, ◌&&◌, if◌then◌else◌,
}
use pinta_scheduler.Prelude.Int.{ℤ, eqb_ℤ}
use pinta_scheduler.Dict.{Dict}
use pinta_scheduler.Api.{PintaJob, PintaJobStatus, last_status}
use pinta_scheduler.Info.Node.{NodeInfo}
use pinta_scheduler.Info.NodeType.{NodeTypeInfo}
use pinta_scheduler.Info.Job.{JobInfo}
use pinta_scheduler.Controller.JobCache.Nodes.{count_nodes}

-- The fields that policies use.
pub record Session (Q F : Type 0) : Type 0 where
  pub jobs : Dict (JobInfo Q F)
  pub nodes : Dict (NodeInfo Q)
  pub node_types : Dict (NodeTypeInfo Q)

unfoldable pub put_request :
    {Q : Type 0}
    → Option (String × PintaJob Q)
    → List (String × PintaJob Q)
    → List (String × PintaJob Q)
put_request none l = l
put_request (some r) l = r ∷ l

module _ {Q F : Type 0} where
  -- The loop over the nodes is that of `deleteNode` in the controller's cache: a node of a known type
  -- is added to it, and one of a new type makes it.
  unfoldable pub open_session : Dict (JobInfo Q F) → Dict (NodeInfo Q) → Session Q F
  open_session jobs nodes = record { jobs = jobs; nodes = nodes; node_types = count_nodes nodes [] }

  abbrev pub is_unchanged : JobInfo Q F → PintaJobStatus → Bool
  is_unchanged ji last =
      eqb_ℤ ji.num_masters last.num_masters && eqb_ℤ ji.num_replicas last.num_replicas

  -- The status that the session puts on top of the history: the state of the last one, with the
  -- numbers of the policy.
  abbrev pub with_numbers : ℕ → JobInfo Q F → PintaJob Q
  with_numbers now ji = record ji.job {
    status =
        record {
          state = (last_status ji.job.status).state;
          last_transition_time = now;
          num_masters = ji.num_masters;
          num_replicas = ji.num_replicas;
        }
        ∷ ji.job.status;
  }

  -- The job that `updateJob` sends to the API server, with its namespace, where it sends one.
  unfoldable pub update_job : ℕ → JobInfo Q F → Option (String × PintaJob Q)
  update_job now ji =
      if is_unchanged ji (last_status ji.job.status)
      then none
      else some (ji.namespace, with_numbers now ji)

  -- The requests of `UpdateAll`, in one order: the workers send them in parallel.
  unfoldable pub update_all : ℕ → Dict (JobInfo Q F) → List (String × PintaJob Q)
  unfolding put_request
  update_all now [] = []
  update_all now ((uid, ji) ∷ jobs) = put_request (update_job now ji) (update_all now jobs)
