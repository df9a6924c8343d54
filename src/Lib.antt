-- ===== src/Lib.antt =====
-- Pinta scheduler: a Kubernetes controller and a scheduler for machine-learning jobs.
-- A PintaJob is a custom resource. Its controller (pkg/controller) keeps a cache of PintaJobs,
-- Volcano jobs and nodes, and moves each PintaJob through its states: it builds the Volcano job that
-- runs it, and rescales that job when the scheduler changes the numbers of masters and replicas in
-- the last status. The scheduler (pkg/scheduler) opens a session on a snapshot of its own cache, lets
-- a policy set those numbers, and sends the jobs that changed when it closes the session.
-- Both use the views of the cluster in pkg/apis/info.
--
-- Parts:
--   Prelude, Dict    shared helpers: tests, lists and integers over the native numbers, and Go maps
--                    as association lists with the loops that write into a map while they range
--                    over another
--   Api              pkg/apis/pinta/v1/types.go, and what is read of Kubernetes and Volcano objects
--   Info.Resource    pkg/apis/info/resource_info.go: Resource with its sums (Arith), its order
--                    (Compare, Order), EqualStrict and Diff (Difference), conversions (Quantities)
--   Info.Device, Info.Node, Info.NodeType, Info.Job
--                    device_info.go, node_info.go, node_type_info.go and job_info.go beside it
--   Scheduler.Cache, Scheduler.Session
--                    pkg/scheduler/cache, with what the informers tell it (Notices), and
--                    pkg/scheduler/session
--   Scheduler.Outcome
--                    how a policy ends: with the jobs as they stand, after a panic too, since the
--                    session is closed all the same
--   Scheduler.Equi   the policy pkg/scheduler/policies/equi/equi.go
--   Scheduler.Hell   the policy pkg/scheduler/policies/hell/hell.go: what the jobs report (Ratios),
--                    the loop that schedules (Place), the one that fills (Fill), and what both keep
--                    (Gang)
--   Scheduler.Policies
--                    the policies nop and fcfs, and the registry of pkg/scheduler/session/interface.go
--                    that pkg/scheduler/policies/factory.go fills
--   Scheduler.Loop   pkg/scheduler/scheduler.go and util.go: a round, from the configuration to the
--                    requests of the session's end; rounds that follow each other, with what the API
--                    server stores and the informers tell in between (Settle), for the policies nop
--                    (Nop), equi (Equi) and hell after a panic (Release)
--   Controller.JobCache, with Nodes
--                    pkg/controller/cache: Get, Add, Update, Delete and the handlers of Volcano jobs,
--                    nodes, and the cleanup of deleted jobs
--   Controller.JobType
--                    pkg/controller/pintajob/type: BuildVCJob and ReconcileVCJob by job type, and
--                    the patching of pod specs (Pods)
--   Controller.Updater, Controller.State
--                    pkg/controller/pintajob/updater and state: one attempt of a worker on a job
--   Controller.Manager
--                    pkg/controller/pintajob: the handlers of informer events, of nodes too
--                    (NodeEvents), the loop of a worker (Worker) and its retries (Retries),
--                    and a Volcano job that is deleted under its PintaJob (Orphans)
--   Controller.Framework
--                    pkg/controller/framework: the registry of controllers
--   Lifecycle        the history of one job, which workers of the controller and sessions of the
--                    scheduler extend in turns
--   Metrics          pkg/metrics/recorder.go
--   Generator, Simulator
--                    pkg/generator/generator.go and pkg/simulator/simulator.go, which reads what the
--                    generator writes (Generated)
--   Samples          sample objects, with each theorem applied to some of them
--
-- How the code is modelled: a method that changes state is a function from the state to its result
-- and the new state. A result is a value, an error or a panic. The controller's job infos live in a
-- heap, since the queue of deleted jobs shares pointers with the map. The API server, the Kubernetes
-- quantities, the YAML decoder and the work queue are parameters or recorded calls. In the history of a
-- job the API server refuses what was made from an older version, as Kubernetes documents it. A
-- float64 amount is a whole number, which Add, Sub and FitDelta round to 53 digits (Prelude.Float)
-- and the other operations read as exact, as it is below 2^53. An int32 counter wraps at 32 bits
-- where the code increments or adds, and the number of nodes that equi has left at 64. A loop over
-- a Go map visits an association list; where the order decides the result, as in the policies equi
-- and hell, it is a parameter. The float64 operations of hell are parameters too, whose laws hold
-- for the values that are no NaN.
-- The loop of equi runs on fuel, one unit for each round over the jobs. Each round gives away at
-- least one node, so that as much fuel as there are nodes is enough. The loops of hell run on fuel
-- too: a round of the first gives away at least one node, and a round of the second is done with at
-- least one job, so that one unit more than there are nodes and jobs is enough.
--
-- Not modelled: the set-up of the controller, the timer of the scheduler, flags and commands, Multi
-- of a resource, logging, generated clients and vendored libraries.
pub mod Prelude
pub mod Dict
pub mod Api
pub mod Info
pub mod Scheduler
pub mod Controller
pub mod Metrics
pub mod Lifecycle
pub mod Generator
pub mod Simulator
pub mod Samples
