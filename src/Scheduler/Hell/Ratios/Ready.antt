-- ===== src/Scheduler/Hell/Ratios/Ready.antt =====
-- The first three loops of `Execute` with jobs whose custom fields are parsed.
use Prim.Native.String.{◌++◌ as str_append}
use pinta_scheduler.Prelude.{
  ℕ, suc, String, ◌≡◌, refl, ap, ◌∙◌, inl, inr, true, Option, none, some, List, [], ◌∷◌, arith,
  str_eq, str_eq_iff, is_some, Bool-cases, Option-cases, length,
}
use pinta_scheduler.Prelude.Int.{ℤ, pos, ◌+ℤ◌}
use pinta_scheduler.Scheduler.Outcome.{done}
use pinta_scheduler.Dict.{Dict, lookup}
use pinta_scheduler.Dict.Laws.{Each}
use pinta_scheduler.Dict.Sums.{sum_of}
use pinta_scheduler.Scheduler.Equi.Pass.{SameJobs}
use pinta_scheduler.Scheduler.Hell.Ratios.{
  FloatApi, HellFields, Job, Pods, pod_suffix, put_report, report_one, report, clear, service_times,
  ratios_from, ratios_of, measure_one, measure, remaining_examples,
}
use pinta_scheduler.Scheduler.Hell.Gang.{amount, IsIdle, Measured}
use pinta_scheduler.Scheduler.Hell.{ok}

module _ {R : Type 0} where
  length-service_times :
      (fl : FloatApi R) (examples : R) (ts : List R)
      → length (service_times fl examples ts) ≡ length ts
  unfolding service_times
  length-service_times fl examples [] = refl
  length-service_times fl examples (t ∷ ts) = ap suc (length-service_times fl examples ts)

  length-ratios_from :
      (fl : FloatApi R) (i : ℕ) (first examples : R) (ts : List R)
      → length (ratios_from fl i first examples ts) ≡ length ts
  unfolding ratios_from
  length-ratios_from fl i first examples [] = refl
  length-ratios_from fl i first examples (t ∷ ts) =
      ap suc (length-ratios_from fl (suc i) first examples ts)

  length-ratios_of :
      (fl : FloatApi R) (examples : R) (ts : List R) → length (ratios_of fl examples ts) ≡ length ts
  unfolding ratios_of
  length-ratios_of fl examples [] = refl
  length-ratios_of fl examples (t ∷ ts) = length-ratios_from fl 0 t examples (t ∷ ts)

module _ {Q R : Type 0} where
  -- Every job stands under its uid, and its custom fields are parsed.
  abbrev pub IsReady : Dict (Job Q R) → Type 0
  IsReady [] = Unit
  IsReady ((id, ji) ∷ jobs) = (ji.uid ≡ id) × (is_some ji.custom_fields ≡ true) × IsReady jobs

  pub own_uid-IsReady :
      (jobs : Dict (Job Q R)) → IsReady jobs → Each (λ k (ji : Job Q R). ji.uid ≡ k) jobs
  unfolding lookup
  own_uid-IsReady [] h k ji e = absurd cc
  own_uid-IsReady ((id, x) ∷ jobs) h k ji e = elim (Bool-cases (str_eq id k)) [
    | inl same ↦ ground (arith, same, str_eq_iff id k, e, h.0)
    | inr other ↦ own_uid-IsReady jobs h.2 k ji (ground (arith, other, e))
  ]

  put_report-ready :
      (ji : Job Q R) (read : Option ℤ) (fields : Option (HellFields R))
      → is_some ji.custom_fields ≡ true
      → is_some fields ≡ true
      → (ji' : Job Q R) × (put_report ji read fields ≡ ok ji')
        × (ji'.uid ≡ ji.uid)
        × (is_some ji'.custom_fields ≡ true)
  unfolding put_report
  put_report-ready ji none fields h k = (ji, refl, refl, h)
  put_report-ready ji (some n) none h k = absurd cc
  put_report-ready ji (some n) (some fields) h k = (_, refl, refl, refl)

  report_one-ready :
      (pods : Pods) (ji : Job Q R) (suffix : Option String)
      → is_some ji.custom_fields ≡ true
      → (ji' : Job Q R) × (report_one pods ji suffix ≡ ok ji')
        × (ji'.uid ≡ ji.uid)
        × (is_some ji'.custom_fields ≡ true)
  unfolding report_one
  report_one-ready pods ji none h = (ji, refl, refl, h)
  report_one-ready pods ji (some suffix) h =
      put_report-ready ji (pods (str_append ji.name suffix) ji.namespace) ji.custom_fields h h

  pub report-IsReady :
      (pods : Pods) (jobs : Dict (Job Q R))
      → IsReady jobs
      → (jobs' : Dict (Job Q R)) × (report pods jobs ≡ done jobs' tt)
        × IsReady jobs'
        × SameJobs jobs jobs'
        × (length jobs' ≡ length jobs)
  unfolding report lookup
  report-IsReady pods [] h = ([], refl, h, λ k. refl, refl)
  report-IsReady pods ((id, ji) ∷ jobs) h =
      let (ji', e, same, parsed) = report_one-ready pods ji (pod_suffix ji.type) h.1 in
      let (jobs', e', ready, keys, size) = report-IsReady pods jobs h.2 in
      (
        (id, ji') ∷ jobs',
        rw (e, e') refl,
        (same ∙ h.0, parsed, ready),
        λ k. ground (arith, keys k),
        ap suc size,
      )

  pub clear-IsReady :
      (jobs : Dict (Job Q R))
      → IsReady jobs
      → IsReady (clear jobs)
        × SameJobs jobs (clear jobs)
        × (length (clear jobs) ≡ length jobs)
        × Each (λ k ji. IsIdle ji) (clear jobs)
        × (sum_of amount (clear jobs) ≡ pos 0)
  unfolding clear lookup sum_of ◌+ℤ◌
  clear-IsReady [] h = (tt, λ k. refl, refl, λ k ji e. absurd cc, refl)
  clear-IsReady ((id, ji) ∷ jobs) h =
      let (ready, keys, size, all_idle, total) = clear-IsReady jobs h.2 in
      (
        (h.0, h.1, ready),
        λ k. ground (arith, keys k),
        ap suc size,
        λ k x e. elim (Bool-cases (str_eq id k)) [
          | inl same ↦ ground (arith, same, e)
          | inr other ↦ all_idle k x (ground (arith, other, e))
        ],
        rw total refl,
      )

  Measured-cons :
      (id : String) (ji : Job Q R) (jobs : Dict (Job Q R)) (rest : Dict (List R)) (rs : List R)
      (fields : HellFields R)
      → ji.custom_fields ≡ some fields
      → length rs ≡ length fields.throughput
      → Each (Measured jobs) rest
      → Each (Measured ((id, ji) ∷ jobs)) ((id, rs) ∷ rest)
  unfolding lookup
  Measured-cons id ji jobs rest rs fields parsed sized h k ts e = elim (Bool-cases (str_eq id k)) [
    | inl same ↦ record {
      job = ji;
      there = rw same refl;
      fields = fields;
      parsed = parsed;
      sized = ground (arith, same, e, sized);
    }
    | inr other ↦
        let m = h k ts (ground (arith, other, e)) in
        record {
          job = m.job;
          there = rw other (m.there);
          fields = m.fields;
          parsed = m.parsed;
          sized = m.sized;
        }
  ]

  pub measure-Measured :
      (fl : FloatApi R) (jobs : Dict (Job Q R))
      → IsReady jobs
      → (ratios times : Dict (List R)) × (measure fl jobs ≡ ok (ratios, times))
        × Each (Measured jobs) ratios
        × Each (Measured jobs) times
        × (length times ≡ length jobs)
  unfolding measure measure_one lookup
  measure-Measured fl [] h = ([], [], refl, λ k rs e. absurd cc, λ k rs e. absurd cc, refl)
  measure-Measured fl ((id, ji) ∷ jobs) h = elim (Option-cases ji.custom_fields) [
    | inl missing ↦ absurd (cc (h.1, missing))
    | inr (fields, parsed) ↦
        let examples = fl.of_int (remaining_examples fields) in
        let (ratios, times, e, measured, timed, size) = measure-Measured fl jobs h.2 in
        (
          (id, ratios_of fl examples fields.throughput) ∷ ratios,
          (id, service_times fl examples fields.throughput) ∷ times,
          rw (parsed, e) refl,
          Measured-cons id ji jobs ratios _ fields parsed (length-ratios_of fl _ fields.throughput)
              measured,
          Measured-cons id ji jobs times _ fields parsed
              (length-service_times fl _ fields.throughput) timed,
          ap suc size,
        )
  ]
