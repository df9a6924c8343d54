-- ===== src/Samples/Policies.antt =====
-- The theorems on the policies and the scheduler's rounds, at a few jobs. Whole numbers stand for the
-- float64 values of the policy hell.
use mathlib.Core.Option
use pinta_scheduler.Prelude.{
  ℕ, ◌≡◌, ◌<◌, refl, inl, inr, false, true, Bool, Option, none, some, List, [], ◌∷◌, String, arith,
  str_eq, str_eq_iff, if◌then◌else◌, ltb, ◌==◌, ◌/◌, map,
}
use pinta_scheduler.Prelude.Int.{pos, pos_part}
use pinta_scheduler.Scheduler.Outcome.{done}
use pinta_scheduler.Prelude.{◌⊎◌}
use pinta_scheduler.Dict.{Dict, lookup}
use pinta_scheduler.Api.{PintaJob, ps_worker, idle}
use pinta_scheduler.Samples.{Amount, amounts, job_in}
use pinta_scheduler.Samples.Scheduling.{both}
use pinta_scheduler.Info.Job.{new_job_info}
use pinta_scheduler.Controller.Result.{ok, panic}
use pinta_scheduler.Scheduler.Cache.{PintaCache, snapshot_nodes}
use pinta_scheduler.Scheduler.Cache.Laws.{put, handle_jobs}
use pinta_scheduler.Scheduler.Hell.Ratios.{FloatApi, HellFields, Job, Pods}
use pinta_scheduler.Scheduler.Hell.Gang.{Held}
use pinta_scheduler.Scheduler.Hell.Ratios.Ready.{IsReady}
use pinta_scheduler.Scheduler.Hell.Place.{Choice, choose, no_choice}
use pinta_scheduler.Scheduler.Hell.Place.Pick.{HasJobs, IsPick}
use pinta_scheduler.Scheduler.Hell.Place.Least.{FloatOrder, IsLeast, AllNumbers, choose_lem}
use pinta_scheduler.Scheduler.Hell.{execute}
use pinta_scheduler.Scheduler.Hell.Laws.{execute-Held}
use pinta_scheduler.Scheduler.Policies.{Policy, NopFields, Env, init, nop}
use pinta_scheduler.Scheduler.Loop.{Host, default_scheduler_conf, load_policy, run_policy}
use pinta_scheduler.Scheduler.Loop.Settle.{stored}
use pinta_scheduler.Scheduler.Loop.Nop.Session.{numbers, wanted}
use pinta_scheduler.Scheduler.Loop.Nop.{run_policy-settles}
use pinta_scheduler.Scheduler.Loop.Laws.{configured, is_known, load_policy_lem}

abbrev pub whole_numbers : FloatApi ℕ
whole_numbers = record {
  of_int = pos_part;
  div = λ a b. a / b;
  less = ltb;
  equal = λ a b. a == b;
  max_float = 1000000;
}

unfoldable pub whole_order : FloatOrder whole_numbers
whole_order = record {
  is_number = λ a. true;
  max_is_number = refl;
  less_asym = λ a b h k e. ground (arith, e);
  less_irrefl = λ a. ground arith;
  not_less_trans = λ a b c h k l e f. ground (arith, e, f);
  equal_not_less = λ a b e. ground (arith, e);
}

abbrev pub fields : HellFields ℕ
fields = record {
  batch_size = pos 10;
  iterations = pos 100;
  throughput = 5 ∷ 9 ∷ [];
  completed_iterations = pos 20;
}

abbrev pub train : String → Job Amount ℕ
train uid = record (new_job_info uid (job_in idle (pos 0))) { custom_fields = some fields }

abbrev pub trains : Dict (Job Amount ℕ)
trains = ("a", train "a") ∷ ("b", record (train "b") { type = ps_worker }) ∷ []

-- One pod answers.
abbrev pub pods : Pods
pods name namespace = some (pos 30)

trains-IsReady : IsReady trains
unfolding new_job_info
trains-IsReady = (refl, refl, (refl, refl, tt))

execute-Held_example :
    (jobs' : Dict (Job Amount ℕ)) × (left : ℕ) × (execute whole_numbers pods 4 both both trains 3
      ≡ done jobs' tt)
    × Held 3 trains jobs' left
unfolding new_job_info
execute-Held_example =
    execute-Held whole_numbers pods 4 3 both both trains trains-IsReady (omega arith) (omega arith)
      (omega arith)

abbrev unparsed : Job Amount ℕ
unparsed = new_job_info "c" (job_in idle (pos 0))

abbrev ratios : Dict (List ℕ)
ratios = ("a", 80 ∷ 45 ∷ []) ∷ ("b", 70 ∷ 35 ∷ []) ∷ []

trains_there : HasJobs trains ratios
unfolding lookup
trains_there k rs e = ground (arith, e)

all_numbers : AllNumbers whole_order ratios
unfolding whole_order
all_numbers k rs e = each rs
  where
    each : (rs : List ℕ) → pinta_scheduler.Prelude.All (λ r. whole_order.is_number r ≡ true) rs
    each [] = tt
    each (r ∷ rs) = (refl, each rs)

choose_lem_example :
    (c : Choice Amount ℕ) × (choose whole_numbers
        ("a" ∷ "b" ∷ [])
        trains
        ratios
        (pos 2)
        (no_choice whole_numbers)
      ≡ ok c)
    × IsPick whole_numbers.max_float trains ratios (pos 2) c
    × IsLeast whole_numbers whole_order ("a" ∷ "b" ∷ []) trains ratios (pos 2) c
choose_lem_example =
    choose_lem whole_numbers whole_order ("a" ∷ "b" ∷ []) trains ratios (pos 2) trains_there
      all_numbers

abbrev two_replicas : String → Option NopFields
two_replicas s = some (record { num_masters = pos 0; num_replicas = pos 2 })

pub no_nodes : snapshot_nodes amounts [] [] ≡ ok []
no_nodes = unfold snapshot_nodes in refl

abbrev cached : PintaCache Amount NopFields
cached = handle_jobs (put (job_in idle (pos 0)) ∷ []) (record { nodes = []; jobs = [] })

run_policy-settles_example :
    (rs : List (String × PintaJob Amount)) × (run_policy amounts 8 (nop two_replicas) cached
      ≡ done rs tt)
    × (run_policy amounts 9 (nop two_replicas) (handle_jobs (map stored rs) cached) ≡ done [] tt)
    × ((k : String)
        → Option.map numbers (lookup k (handle_jobs (map stored rs) cached).jobs)
          ≡ Option.map (wanted two_replicas) (lookup k cached.jobs))
run_policy-settles_example =
    run_policy-settles two_replicas amounts 8 9 (put (job_in idle (pos 0)) ∷ []) [] [] no_nodes
      (λ k ji e. refl)

-- A host without files, whose YAML library reads one name in the default configuration.
abbrev host : Host
host = record {
  unmarshal = λ s. if str_eq s default_scheduler_conf then some "nop" else none;
  read_file = λ file. none;
  trim_space = λ s. s;
}

-- The environment of the policies.
abbrev env : Env ℕ
env = record {
  nop_fields = two_replicas;
  fcfs_fields = λ s. some tt;
  equi_fields = λ s. some tt;
  hell_fields = λ s. some fields;
  float = whole_numbers;
  pods = pods;
  fuel = 4;
  orders = both;
  fill_orders = both;
}

load_policy_lem_example :
    ((name : String) × (policy : Policy Amount) × (configured host "/conf" ≡ some name)
      × (is_known (some name) ≡ true)
      × (load_policy host (init env) "/conf" ≡ ok policy)
      × (policy.name ≡ name))
    ⊎ ((is_known (configured host "/conf") ≡ false)
        × (load_policy host (init {Q = Amount} env) "/conf" ≡ panic))
load_policy_lem_example = load_policy_lem Amount host env "/conf"
