-- ===== src/Scheduler/Loop/Laws.antt =====
-- The policy that a round loads, and the rounds of the policy fcfs.
use pinta_scheduler.Prelude.{
  ℕ, String, ◌≡◌, refl, sym, ap, ◌∙◌, ◌⊎◌, inl, inr, Option, none, some, List, [], ◌∷◌, arith, Bool,
  true, false, is_some, str_eq, if◌then◌else◌, Option-cases,
}
use mathlib.Core.Option
use pinta_scheduler.Scheduler.Outcome.{done}
use pinta_scheduler.Dict.{Dict, lookup, insert}
use pinta_scheduler.Info.Resource.{QuantityApi}
use pinta_scheduler.Info.Node.{NodeInfo}
use pinta_scheduler.Controller.Result.{Result, ok}
use pinta_scheduler.Scheduler.Cache.{PintaCache, snapshot, snapshot_nodes}
use pinta_scheduler.Scheduler.Cache.Laws.{JobEvent, handle_jobs}
use pinta_scheduler.Scheduler.Session.{open_session}
use pinta_scheduler.Scheduler.Policies.{nop, fcfs}
use pinta_scheduler.Scheduler.Loop.{run_policy}
use pinta_scheduler.Scheduler.Loop.Known.{IsKnown, handle_jobs-IsKnown, no_jobs-IsKnown}
use pinta_scheduler.Scheduler.Loop.Settle.{nodes-handle_jobs}
use pinta_scheduler.Scheduler.Loop.Quiet.{snapshot-quiet}
use pinta_scheduler.Controller.Result.{panic}
use pinta_scheduler.Scheduler.Equi.Pass.{elem}
use pinta_scheduler.Scheduler.Policies.{Policy, Env, init, get_policy, register_policy, hell, equi}
use pinta_scheduler.Scheduler.Policies.Laws.{init-OwnNames}
use pinta_scheduler.Scheduler.Loop.{Host, scheduler_conf, load_scheduler_conf, load_policy}

module _ {Q : Type 0} where
  -- From any cache that job events lead to, with nodes that a snapshot can show, a round with the
  -- policy fcfs returns and sends nothing.
  pub run_policy-fcfs :
      (q : QuantityApi Q) (unmarshal : String → Option (Unit {0})) (now : ℕ)
      (es : List (JobEvent Q)) (nodes usable : Dict (NodeInfo Q))
      → snapshot_nodes q nodes [] ≡ ok usable
      → run_policy q now (fcfs unmarshal) (handle_jobs es (record { nodes = nodes; jobs = [] }))
        ≡ done [] tt
  unfolding run_policy snapshot open_session
  run_policy-fcfs q unmarshal now es nodes usable shown =
      let pc : PintaCache Q (Unit {0}) = handle_jobs es (record { nodes = nodes; jobs = [] }) in
      let h : IsKnown pc =
        handle_jobs-IsKnown es (record { nodes = nodes; jobs = [] }) (no_jobs-IsKnown nodes) in
      rw
        (
          nodes-handle_jobs es (record { nodes = nodes; jobs = [] }),
          shown,
          snapshot-quiet unmarshal now pc h,
        )
        refl

module _ {Q : Type 0} where
  abbrev or_panic : Option (Policy Q) → Result (Policy Q)
  or_panic none = panic
  or_panic (some p) = ok p

  load_policy-decoded :
      (host : Host) (policies : Dict (Policy Q)) (path name : String)
      → host.unmarshal (scheduler_conf host path) ≡ some name
      → load_policy host policies path ≡ or_panic (get_policy (host.trim_space name) policies)
  unfolding load_policy load_scheduler_conf
  load_policy-decoded host policies path name e = ground (arith, e)

  get_policy-init :
      {R : Type 0} (env : Env R) (name : String)
      → get_policy {Q = Q} name (init env) ≡ (
          if str_eq "nop" name
          then some (nop env.nop_fields)
          else if str_eq "fcfs" name
          then some (fcfs env.fcfs_fields)
          else if str_eq "equi" name
          then some (equi env.equi_fields env.fuel env.orders)
          else if str_eq "hell" name
          then some (hell env.hell_fields env.float env.pods env.fuel env.orders env.fill_orders)
          else none)
  unfolding get_policy init register_policy lookup insert
  get_policy-init env name = refl

-- The name that the configuration gives, without white space around it, if it decodes.
abbrev pub configured : Host → String → Option String
configured host path = Option.map host.trim_space (host.unmarshal (scheduler_conf host path))

abbrev pub is_known : Option String → Bool
is_known none = false
is_known (some name) = elem name ("nop" ∷ "fcfs" ∷ "equi" ∷ "hell" ∷ [])

module _ (Q : Type 0) {R : Type 0} (host : Host) (env : Env R) (path : String) where
  load_policy-undecoded :
      host.unmarshal (scheduler_conf host path) ≡ none
      → load_policy host (init {Q = Q} env) path ≡ panic
  unfolding load_policy load_scheduler_conf
  load_policy-undecoded e = ground (arith, e)

  get_policy-known :
      (name : String) → is_some (get_policy {Q = Q} name (init env)) ≡ is_known (some name)
  get_policy-known name = rw (get_policy-init {Q = Q} env name) (ground arith)

  -- The scheduler loads a policy where the configuration decodes to the name of one of the four
  -- policies, but for white space around it, and then the policy of that name. Where the configuration
  -- does not decode, or gives another name, the scheduler panics.
  pub load_policy_lem :
      ((name : String) × (policy : Policy Q) × (configured host path ≡ some name)
        × (is_known (some name) ≡ true)
        × (load_policy host (init env) path ≡ ok policy)
        × (policy.name ≡ name))
      ⊎ ((is_known (configured host path) ≡ false)
          × (load_policy host (init {Q = Q} env) path ≡ panic))
  load_policy_lem = elim (Option-cases (host.unmarshal (scheduler_conf host path))) [
    | inl undecoded ↦ inr (rw undecoded refl, load_policy-undecoded undecoded)
    | inr (text, e) ↦
        let name = host.trim_space text in
        let loaded = load_policy-decoded host (init {Q = Q} env) path text e in
        elim (Option-cases (get_policy {Q = Q} name (init env))) [
          | inl missing ↦ inr (
            rw e (sym (get_policy-known name) ∙ ap is_some missing),
            loaded ∙ ap or_panic missing,
          )
          | inr (policy, found) ↦ inl (
            name,
            policy,
            ap (Option.map host.trim_space) e,
            sym (get_policy-known name) ∙ ap is_some found,
            loaded ∙ ap or_panic found,
            init-OwnNames env name policy (unfold get_policy in found),
          )
        ]
  ]
