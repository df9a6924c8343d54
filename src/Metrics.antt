-- ===== src/Metrics.antt =====
-- pkg/metrics: the recorder of measurements of PintaJobs. The counters and the summary of the
-- Prometheus library are the counts and the observations it was given. The recorder stores times
-- only, so that its test for an entry of another type always passes.
pub mod Laws
use Prim.Native.String.{◌++◌ as str_append}
use pinta_scheduler.Prelude.{
  ℕ, zero, suc, ◌+◌, ◌-◌, ◌*◌, ◌%◌, ◌≤◌, ◌<◌, String, ◌≡◌, refl, sym, ap, subst, ◌∙◌, ◌≢◌, ◌↔◌, ◌⊎◌,
  inl, inr, Bool, true, false, not, ◌&&◌, ◌||◌, Option, none, some, List, [], ◌∷◌, ◌++◌, map, arith,
  str_eq, str_eq_iff, str_eq_refl, ltb, leb, ◌==◌, if◌then◌else◌, or_else, is_some, Bool-cases,
  Option-cases, length, get_elem?, set, length-append, All, length-set, get_elem?-set_self,
  get_elem?-set_ne, get_elem?-append_new, get_elem?-append_old, get_elem?-All,
}
use pinta_scheduler.Prelude.Int.{
  ℤ, pos, negsuc, pos_part, neg_part, ◌+ℤ◌, ◌-ℤ◌, ◌≤ℤ◌, ◌<ℤ◌, ltb_ℤ, leb_ℤ, eqb_ℤ, abs_ℤ, +ℤ_parts,
  -ℤ_parts, eq_of_parts, eqb_ℤ→eq, eqb_ℤ_refl, int_laws, wrap32, wrap32_small, two_31, +ℤ_zero,
  zero_+ℤ, -ℤ_zero, +ℤ_cancel, add_pos, sub_pos, is_positive,
}
use pinta_scheduler.Dict.{
  Dict, lookup, insert, erase, IsMap, or_some, write, range, after, range_new, entries, all_entries,
}
use pinta_scheduler.Dict.Laws.{
  lookup-nil, lookup-insert, lookup-erase, insert-IsMap, erase-IsMap, Each, insert-Each, erase-Each,
  lookup-range, range-IsMap, lookup-range_new, all_entries_iff,
}
use pinta_scheduler.Api.{PintaJobState, idle, completed}

-- The start times, and what was given to totalPintaJobs, succeededPintaJobs and pintaJobTime.
pub record Recorder : Type 0 where
  pub metrics : Dict ℤ
  pub total : ℕ
  pub succeeded : ℕ
  pub observed : List ℤ

unfoldable pub new_recorder : Recorder
new_recorder = record { metrics = []; total = 0; succeeded = 0; observed = [] }

-- The name of the status is "Idle" at each call.
unfoldable pub job_identity : String → String → String
job_identity ns name = str_append ns (str_append ":" (str_append name ":Idle"))

unfoldable pub entry_start : ℤ → String → Recorder → Recorder
entry_start now entry r = elim (lookup entry r.metrics) [
  | none ↦ record r { metrics = insert entry now r.metrics; total = suc r.total }
  | some start ↦ r
]

-- The time since the start of the entry: none is an error.
unfoldable pub entry_end : ℤ → String → Recorder → Option ℤ
entry_end now entry r = elim (lookup entry r.metrics) [
  | none ↦ none
  | some start ↦ some (now -ℤ start)
]

unfoldable pub pinta_job_status_sample : ℤ → String → Recorder → Recorder
pinta_job_status_sample now entry r = elim (entry_end now entry r) [
  | none ↦ r
  | some duration ↦ record r { succeeded = suc r.succeeded; observed = r.observed ++ duration ∷ [] }
]

unfoldable pub pinta_job_status_end : ℤ → String → Recorder → Recorder
unfolding pinta_job_status_sample
pinta_job_status_end now entry r =
    let r' = pinta_job_status_sample now entry r in record r' { metrics = erase entry r'.metrics }

unfoldable pub pinta_job_status_metric : ℤ → String → String → PintaJobState → Recorder → Recorder
unfolding entry_start pinta_job_status_end
pinta_job_status_metric now ns name idle r = entry_start now (job_identity ns name) r
pinta_job_status_metric now ns name completed r = pinta_job_status_end now (job_identity ns name) r
pinta_job_status_metric now ns name to_status r = r
