-- ===== src/Scheduler/Cache/Notices.antt =====
-- The methods of pkg/scheduler/cache that the informers call, with any object: `AddJob`, `UpdateJob`,
-- `DeleteJob`, `AddNode`, `UpdateNode` and `DeleteNode`. `newPintaCache` says which informer calls
-- which.
use mathlib.Core.Option
use pinta_scheduler.Prelude.{
  ◌≡◌, refl, ap, ◌∙◌, inl, inr, Option, none, some, List, [], ◌∷◌, arith, Bool, ◌&&◌, Option-cases,
  if◌then◌else◌,
}
use pinta_scheduler.Api.{PintaJob}
use pinta_scheduler.Info.Resource.{QuantityApi}
use pinta_scheduler.Info.Node.{Node}
use pinta_scheduler.Controller.Result.{Result, ok, panic}
use pinta_scheduler.Scheduler.Cache.{
  PintaCache, add_job, update_job, delete_job, add_node, update_node, delete_node,
}
use pinta_scheduler.Scheduler.Cache.Laws
use pinta_scheduler.Scheduler.Cache.Laws.{JobEvent, handle_job, handle_jobs}
use pinta_scheduler.Scheduler.Cache.Nodes
use pinta_scheduler.Scheduler.Cache.Nodes.{NodeEvent, handle_node, handle_nodes}

-- A value of interface type: a tombstone, cache.DeletedFinalStateUnknown, holds another one.
pub data Object (Q : Type 0) : Type 0 where
  a_job : PintaJob Q → Object Q
  a_node : Node Q → Object Q
  tombstone : Object Q → Object Q
  foreign : Object Q

-- What the informers of nodes and of PintaJobs tell.
pub data Notice (Q : Type 0) : Type 0 where
  node_added node_deleted job_added job_deleted : Object Q → Notice Q
  node_updated job_updated : Object Q → Object Q → Notice Q

-- Whether client-go makes a client set from the configuration, for the clients of Kubernetes, Volcano,
-- the PintaJobs and the events.
pub record Clients : Type 0 where
  pub kube_client : Bool
  pub vc_client : Bool
  pub pinta_client : Bool
  pub event_client : Bool

abbrev pub as_job : {Q : Type 0} → Object Q → Option (PintaJob Q)
as_job (a_job job) = some job
as_job _ = none

abbrev pub as_node : {Q : Type 0} → Object Q → Option (Node Q)
as_node (a_node node) = some node
as_node _ = none

-- The object that is gone.
abbrev pub gone : {Q : Type 0} → Object Q → Object Q
gone (tombstone o) = o
gone (a_job job) = a_job job
gone (a_node node) = a_node node
gone foreign = foreign

module _ {Q F : Type 0} where
  -- An error of any of the clients is a panic.
  unfoldable pub new_pinta_cache : Clients → Result (PintaCache Q F)
  new_pinta_cache clients =
      if clients.kube_client && clients.vc_client && clients.pinta_client && clients.event_client
      then ok (record { nodes = []; jobs = [] })
      else panic

  unfoldable pub on_add_job : Object Q → PintaCache Q F → PintaCache Q F
  on_add_job obj pc = elim (as_job obj) [ none ↦ pc | some job ↦ add_job job pc ]

  unfoldable pub on_update_job : Object Q → Object Q → PintaCache Q F → PintaCache Q F
  on_update_job old_obj new_obj pc = elim (as_job old_obj) [
    | none ↦ pc
    | some old ↦ elim (as_job new_obj) [ none ↦ pc | some new ↦ update_job old new pc ]
  ]

  unfoldable pub on_delete_job : Object Q → PintaCache Q F → PintaCache Q F
  on_delete_job obj pc = elim (as_job (gone obj)) [ none ↦ pc | some job ↦ delete_job job pc ]

  module _ (q : QuantityApi Q) where
    unfoldable pub on_add_node : Object Q → PintaCache Q F → PintaCache Q F
    on_add_node obj pc = elim (as_node obj) [ none ↦ pc | some node ↦ add_node q node pc ]

    unfoldable pub on_update_node : Object Q → Object Q → PintaCache Q F → PintaCache Q F
    on_update_node old_obj new_obj pc = elim (as_node old_obj) [
      | none ↦ pc
      | some old ↦ elim (as_node new_obj) [ none ↦ pc | some new ↦ (update_node q new pc).1 ]
    ]

    unfoldable pub on_delete_node : Object Q → PintaCache Q F → PintaCache Q F
    on_delete_node obj pc = elim (as_node (gone obj)) [
      | none ↦ pc
      | some node ↦ (delete_node q node pc).1
    ]

    -- The handler that is registered for a notice.
    unfoldable pub notify : Notice Q → PintaCache Q F → PintaCache Q F
    unfolding on_add_job on_update_job on_delete_job on_add_node on_update_node on_delete_node
    notify (node_added o) pc = on_add_node o pc
    notify (node_updated old new) pc = on_update_node old new pc
    notify (node_deleted o) pc = on_delete_node o pc
    notify (job_added o) pc = on_add_job o pc
    notify (job_updated old new) pc = on_update_job old new pc
    notify (job_deleted o) pc = on_delete_job o pc

    unfoldable pub notify_all : List (Notice Q) → PintaCache Q F → PintaCache Q F
    notify_all [] pc = pc
    notify_all (e ∷ es) pc = notify_all es (notify e pc)

-- The event on jobs that a notice is; none where an object has another type.
abbrev pub job_event : {Q : Type 0} → Notice Q → Option (JobEvent Q)
job_event (job_added o) = Option.map Laws.put (as_job o)
job_event (job_updated old new) = elim (as_job old) [
  | none ↦ none
  | some o ↦ Option.map (Laws.change o) (as_job new)
]
job_event (job_deleted o) = Option.map Laws.remove (as_job (gone o))
job_event _ = none

abbrev pub node_event : {Q : Type 0} → Notice Q → Option (NodeEvent Q)
node_event (node_added o) = Option.map Nodes.put (as_node o)
node_event (node_updated old new) = elim (as_node old) [
  | none ↦ none
  | some o ↦ Option.map Nodes.change (as_node new)
]
node_event (node_deleted o) = Option.map Nodes.remove (as_node (gone o))
node_event _ = none

abbrev pub put_event {ℓ} : {E : Type ℓ} → Option E → List E → List E
put_event none es = es
put_event (some e) es = e ∷ es

-- The events on jobs among the notices, in their order.
abbrev pub job_events : {Q : Type 0} → List (Notice Q) → List (JobEvent Q)
job_events [] = []
job_events (e ∷ es) = put_event (job_event e) (job_events es)

abbrev pub node_events : {Q : Type 0} → List (Notice Q) → List (NodeEvent Q)
node_events [] = []
node_events (e ∷ es) = put_event (node_event e) (node_events es)

module _ {Q F : Type 0} (q : QuantityApi Q) where
  handle_node_then_job :
      (n : NodeEvent Q) (j : JobEvent Q) (pc : PintaCache Q F)
      → handle_job j (handle_node q n pc) ≡ handle_node q n (handle_job j pc)
  unfolding handle_job handle_node add_job update_job delete_job add_node update_node delete_node
  handle_node_then_job (Nodes.put node) (Laws.put job) pc = ground arith
  handle_node_then_job (Nodes.put node) (Laws.change old new) pc = ground arith
  handle_node_then_job (Nodes.put node) (Laws.remove job) pc = refl
  handle_node_then_job (Nodes.change node) (Laws.put job) pc = ground arith
  handle_node_then_job (Nodes.change node) (Laws.change old new) pc = ground arith
  handle_node_then_job (Nodes.change node) (Laws.remove job) pc = ground arith
  handle_node_then_job (Nodes.remove node) (Laws.put job) pc = ground arith
  handle_node_then_job (Nodes.remove node) (Laws.change old new) pc = ground arith
  handle_node_then_job (Nodes.remove node) (Laws.remove job) pc = ground arith

  handle_node_last :
      (n : NodeEvent Q) (js : List (JobEvent Q)) (pc : PintaCache Q F)
      → handle_jobs js (handle_node q n pc) ≡ handle_node q n (handle_jobs js pc)
  unfolding handle_jobs
  handle_node_last n [] pc = refl
  handle_node_last n (j ∷ js) pc =
      ap (handle_jobs js) (handle_node_then_job n j pc) ∙ handle_node_last n js (handle_job j pc)

  abbrev after_job : Option (JobEvent Q) → PintaCache Q F → PintaCache Q F
  after_job none pc = pc
  after_job (some e) pc = handle_job e pc

  abbrev after_node : Option (NodeEvent Q) → PintaCache Q F → PintaCache Q F
  after_node none pc = pc
  after_node (some e) pc = handle_node q e pc

  notify_lem :
      (e : Notice Q) (pc : PintaCache Q F)
      → notify q e pc ≡ after_node (node_event e) (after_job (job_event e) pc)
  unfolding notify on_add_job on_update_job on_delete_job on_add_node on_update_node on_delete_node
      handle_job handle_node
  notify_lem (node_added o) pc = elim (Option-cases (as_node o)) [
    | inl other ↦ ground (arith, other)
    | inr (node, same) ↦ ground (arith, same)
  ]
  notify_lem (node_updated old new) pc = elim (Option-cases (as_node old)) [
    | inl other ↦ ground (arith, other)
    | inr (node, same) ↦ elim (Option-cases (as_node new)) [
      | inl other ↦ ground (arith, same, other)
      | inr (node', same') ↦ ground (arith, same, same')
    ]
  ]
  notify_lem (node_deleted o) pc = elim (Option-cases (as_node (gone o))) [
    | inl other ↦ ground (arith, other)
    | inr (node, same) ↦ ground (arith, same)
  ]
  notify_lem (job_added o) pc = elim (Option-cases (as_job o)) [
    | inl other ↦ ground (arith, other)
    | inr (job, same) ↦ ground (arith, same)
  ]
  notify_lem (job_updated old new) pc = elim (Option-cases (as_job old)) [
    | inl other ↦ ground (arith, other)
    | inr (job, same) ↦ elim (Option-cases (as_job new)) [
      | inl other ↦ ground (arith, same, other)
      | inr (job', same') ↦ ground (arith, same, same')
    ]
  ]
  notify_lem (job_deleted o) pc = elim (Option-cases (as_job (gone o))) [
    | inl other ↦ ground (arith, other)
    | inr (job, same) ↦ ground (arith, same)
  ]

  put_node :
      (e : Option (NodeEvent Q)) (es : List (NodeEvent Q)) (js : List (JobEvent Q))
      (pc : PintaCache Q F)
      → handle_nodes q es (handle_jobs js (after_node e pc))
        ≡ handle_nodes q (put_event e es) (handle_jobs js pc)
  unfolding handle_nodes
  put_node none es js pc = refl
  put_node (some e) es js pc = ap (handle_nodes q es) (handle_node_last e js pc)

  put_job :
      (e : Option (JobEvent Q)) (js : List (JobEvent Q)) (pc : PintaCache Q F)
      → handle_jobs js (after_job e pc) ≡ handle_jobs (put_event e js) pc
  unfolding handle_jobs
  put_job none js pc = refl
  put_job (some e) js pc = refl

  -- However the notices of the two informers come in between each other, the cache is the one that all
  -- events on jobs and then all events on nodes lead to. A notice with an object of another type, or a
  -- tombstone without a job or a node, changes nothing.
  pub notify_all_lem :
      (es : List (Notice Q)) (pc : PintaCache Q F)
      → notify_all q es pc ≡ handle_nodes q (node_events es) (handle_jobs (job_events es) pc)
  unfolding notify_all handle_nodes handle_jobs
  notify_all_lem [] pc = refl
  notify_all_lem (e ∷ es) pc =
      ap (notify_all q es) (notify_lem e pc)
      ∙ notify_all_lem es (after_node (node_event e) (after_job (job_event e) pc))
      ∙ put_node (node_event e) (node_events es) (job_events es) (after_job (job_event e) pc)
      ∙ ap (handle_nodes q (node_events (e ∷ es))) (put_job (job_event e) (job_events es) pc)
