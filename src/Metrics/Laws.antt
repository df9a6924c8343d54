-- ===== src/Metrics/Laws.antt =====
-- What the recorder counts.
use pinta_scheduler.Prelude.{
  suc, ◌+◌, String, ◌≡◌, refl, sym, subst, inl, inr, none, some, List, [], ◌∷◌, ◌++◌, arith,
  Option-cases, length, length-append,
}
use pinta_scheduler.Prelude.Int.{ℤ, ◌-ℤ◌}
use pinta_scheduler.Dict.{lookup, insert, erase, IsMap}
use pinta_scheduler.Dict.Laws.{insert-IsMap, erase-IsMap}
use pinta_scheduler.Dict.Sizes.{length-erase_missing, length-erase_one, length-insert_new}
use pinta_scheduler.Api.{
  PintaJobState, empty, idle, scheduled, running, preempted, completed, failed, other,
}
use pinta_scheduler.Metrics.{
  Recorder, new_recorder, job_identity, entry_start, entry_end, pinta_job_status_sample,
  pinta_job_status_end, pinta_job_status_metric,
}

-- A job of a namespace and a name goes to a state, at some time.
pub record Move : Type 0 where
  pub time : ℤ
  pub namespace : String
  pub name : String
  pub to_status : PintaJobState

unfoldable pub record_moves : List Move → Recorder → Recorder
record_moves [] r = r
record_moves (m ∷ ms) r =
    record_moves ms (pinta_job_status_metric m.time m.namespace m.name m.to_status r)

-- Each job that was counted is waiting or was counted again.
record IsCounted (r : Recorder) : Type 0 where
  is_map : IsMap r.metrics
  total : length r.metrics + r.succeeded ≡ r.total
  observed : length r.observed ≡ r.succeeded

start_new :
    (now : ℤ) (entry : String) (r : Recorder)
    → lookup entry r.metrics ≡ none
    → entry_start now entry r
      ≡ record r { metrics = insert entry now r.metrics; total = suc r.total }
unfolding entry_start
start_new now entry r e = ground (arith, e)

start_known :
    (now start : ℤ) (entry : String) (r : Recorder)
    → lookup entry r.metrics ≡ some start
    → entry_start now entry r ≡ r
unfolding entry_start
start_known now start entry r e = ground (arith, e)

entry_start-IsCounted :
    (now : ℤ) (entry : String) (r : Recorder) → IsCounted r → IsCounted (entry_start now entry r)
entry_start-IsCounted now entry r h = elim (Option-cases (lookup entry r.metrics)) [
  | inl missing ↦ subst IsCounted (sym (start_new now entry r missing)) (record {
    is_map = insert-IsMap entry now r.metrics h.is_map;
    total = ground (arith, length-insert_new entry now r.metrics missing, h.total);
    observed = h.observed;
  })
  | inr (start, found) ↦ subst IsCounted (sym (start_known now start entry r found)) h
]

end_missing :
    (now : ℤ) (entry : String) (r : Recorder)
    → lookup entry r.metrics ≡ none
    → pinta_job_status_end now entry r ≡ record r { metrics = erase entry r.metrics }
unfolding pinta_job_status_end pinta_job_status_sample entry_end
end_missing now entry r e = ground (arith, e)

end_known :
    (now start : ℤ) (entry : String) (r : Recorder)
    → lookup entry r.metrics ≡ some start
    → pinta_job_status_end now entry r ≡ record r {
      metrics = erase entry r.metrics;
      succeeded = suc r.succeeded;
      observed = r.observed ++ (now -ℤ start) ∷ [];
    }
unfolding pinta_job_status_end pinta_job_status_sample entry_end
end_known now start entry r e = ground (arith, e)

pinta_job_status_end-IsCounted :
    (now : ℤ) (entry : String) (r : Recorder)
    → IsCounted r
    → IsCounted (pinta_job_status_end now entry r)
pinta_job_status_end-IsCounted now entry r h = elim (Option-cases (lookup entry r.metrics)) [
  | inl missing ↦ subst IsCounted (sym (end_missing now entry r missing)) (record {
    is_map = erase-IsMap entry r.metrics h.is_map;
    total = ground (arith, length-erase_missing entry r.metrics missing, h.total);
    observed = h.observed;
  })
  | inr (start, found) ↦ subst IsCounted (sym (end_known now start entry r found)) (record {
    is_map = erase-IsMap entry r.metrics h.is_map;
    total = ground (arith, length-erase_one entry r.metrics start h.is_map found, h.total);
    observed = ground (arith, length-append r.observed ((now -ℤ start) ∷ []), h.observed);
  })
]

record_moves-IsCounted :
    (ms : List Move) (r : Recorder) → IsCounted r → IsCounted (record_moves ms r)
unfolding record_moves pinta_job_status_metric
record_moves-IsCounted [] r h = h
record_moves-IsCounted (m ∷ ms) r h = record_moves-IsCounted ms _ (move m.to_status)
  where
    move : (s : PintaJobState) → IsCounted (pinta_job_status_metric m.time m.namespace m.name s r)
    move idle = entry_start-IsCounted m.time (job_identity m.namespace m.name) r h
    move completed = pinta_job_status_end-IsCounted m.time (job_identity m.namespace m.name) r h
    move empty = h
    move scheduled = h
    move running = h
    move preempted = h
    move failed = h
    move (other t) = h

-- After any moves of jobs the counter of all jobs is the number of jobs that wait for their end plus
-- the counter of succeeded jobs, which is the number of times that the summary observed.
pub record_moves_lem :
    (ms : List Move)
    → let r = record_moves ms new_recorder in
      (length r.metrics + r.succeeded ≡ r.total) × (length r.observed ≡ r.succeeded)
unfolding new_recorder
record_moves_lem ms =
    let h =
      record_moves-IsCounted ms new_recorder
        (record { is_map = tt; total = refl; observed = refl }) in
    (h.total, h.observed)
