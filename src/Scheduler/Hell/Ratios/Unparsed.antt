-- ===== src/Scheduler/Hell/Ratios/Unparsed.antt =====
-- The first three loops of `Execute` with a job whose custom fields are not parsed.
use Prim.Native.String.{◌++◌ as str_append}
use pinta_scheduler.Prelude.{
  ℕ, String, ◌≡◌, refl, sym, ap, subst, ◌∙◌, ◌⊎◌, inl, inr, Option, none, some, [], ◌∷◌, arith,
  str_eq, Bool-cases, Option-cases,
}
use pinta_scheduler.Prelude.Int.{ℤ, pos}
use pinta_scheduler.Dict.{Dict, lookup}
use pinta_scheduler.Scheduler.Outcome.{Outcome, done, panicked, unfinished, with_state}
use pinta_scheduler.Scheduler.Session.{update_job, update_all}
use pinta_scheduler.Scheduler.Hell.Ratios.{
  ok, panic, FloatApi, HellFields, Job, Pods, pod_suffix, put_report, report_one, report, clear,
  measure_one, measure,
}

module _ {Q R : Type 0} where
  -- A job info with the custom fields of another one.
  abbrev Reported : Job Q R → Job Q R → Type 0
  Reported ji ji' = ji' ≡ record ji { custom_fields = ji'.custom_fields }

  put_report-Reported :
      (ji : Job Q R) (read : Option ℤ) (fields : Option (HellFields R))
      → (put_report ji read fields ≡ panic)
        ⊎ ((ji' : Job Q R) × (put_report ji read fields ≡ ok ji') × Reported ji ji')
  unfolding put_report
  put_report-Reported ji none fields = inr (ji, refl, refl)
  put_report-Reported ji (some n) none = inl refl
  put_report-Reported ji (some n) (some fields) = inr (_, refl, refl)

  report_one-Reported :
      (pods : Pods) (ji : Job Q R) (suffix : Option String)
      → (report_one pods ji suffix ≡ panic)
        ⊎ ((ji' : Job Q R) × (report_one pods ji suffix ≡ ok ji') × Reported ji ji')
  unfolding report_one
  report_one-Reported pods ji none = inr (ji, refl, refl)
  report_one-Reported pods ji (some suffix) =
      put_report-Reported ji (pods (str_append ji.name suffix) ji.namespace) ji.custom_fields

  -- The jobs ask for the same requests as before, and would after the masters and replicas of all are
  -- set to 0.
  pub record Untouched (jobs jobs' : Dict (Job Q R)) : Type 0 where
    pub same : (now : ℕ) → update_all now jobs' ≡ update_all now jobs
    pub same_clear : (now : ℕ) → update_all now (clear jobs') ≡ update_all now (clear jobs)

  Untouched-refl : (jobs : Dict (Job Q R)) → Untouched jobs jobs
  Untouched-refl jobs = record { same = λ now. refl; same_clear = λ now. refl }

  update_job-Reported :
      (now : ℕ) (ji ji' : Job Q R) → Reported ji ji' → update_job now ji' ≡ update_job now ji
  unfolding update_job
  update_job-Reported now ji ji' e = ap (update_job now) e

  Untouched-cons :
      (id : String) (ji ji' : Job Q R) (jobs jobs' : Dict (Job Q R))
      → Reported ji ji'
      → Untouched jobs jobs'
      → Untouched ((id, ji) ∷ jobs) ((id, ji') ∷ jobs')
  unfolding update_all clear
  Untouched-cons id ji ji' jobs jobs' e h = record {
    same = λ now. rw (update_job-Reported now ji ji' e, h.same now) refl;
    same_clear = λ now.
        rw
          (
            update_job-Reported now (record ji { num_masters = pos 0; num_replicas = pos 0 })
                (record ji' { num_masters = pos 0; num_replicas = pos 0 })
                (ap (λ (x : Job Q R). record x { num_masters = pos 0; num_replicas = pos 0 }) e),
            h.same_clear now,
          )
          refl;
  }

  -- A job under `id` has no parsed custom fields.
  abbrev pub IsUnparsed : String → Dict (Job Q R) → Type 0
  IsUnparsed id jobs = (ji : Job Q R) × (lookup id jobs ≡ some ji) × (ji.custom_fields ≡ none)

  report_one-unparsed :
      (pods : Pods) (ji : Job Q R) (suffix : Option String)
      → ji.custom_fields ≡ none
      → (report_one pods ji suffix ≡ panic) ⊎ (report_one pods ji suffix ≡ ok ji)
  unfolding report_one put_report
  report_one-unparsed pods ji none e = inr refl
  report_one-unparsed pods ji (some suffix) e =
      elim (Option-cases (pods (str_append ji.name suffix) ji.namespace)) [
        | inl unread ↦ inr (ground (arith, unread))
        | inr (n, read) ↦ inl (rw (read, e) refl)
      ]

  -- The first loop writes nothing but custom fields, whether it panics or not.
  abbrev pub Kept : Dict (Job Q R) → Outcome (Dict (Job Q R)) (Unit {0}) → Type 0
  Kept jobs out =
      (jobs' : Dict (Job Q R)) × ((out ≡ panicked jobs') ⊎ (out ≡ done jobs' tt))
      × Untouched jobs jobs'

  Kept-cons :
      (id : String) (ji ji' : Job Q R) (jobs : Dict (Job Q R))
      (out : Outcome (Dict (Job Q R)) (Unit {0}))
      → Reported ji ji'
      → Kept jobs out
      → Kept ((id, ji) ∷ jobs) (with_state (λ jobs'. (id, ji') ∷ jobs') out)
  Kept-cons id ji ji' jobs out e (jobs', inl broken, h) =
      ((id, ji') ∷ jobs', inl (rw broken refl), Untouched-cons id ji ji' jobs jobs' e h)
  Kept-cons id ji ji' jobs out e (jobs', inr returned, h) =
      ((id, ji') ∷ jobs', inr (rw returned refl), Untouched-cons id ji ji' jobs jobs' e h)

  pub report-Kept : (pods : Pods) (jobs : Dict (Job Q R)) → Kept jobs (report pods jobs)
  unfolding report
  report-Kept pods [] = ([], inr refl, Untouched-refl [])
  report-Kept pods ((id, ji) ∷ jobs) = elim (report_one-Reported pods ji (pod_suffix ji.type)) [
    | inl broken ↦ ((id, ji) ∷ jobs, inl (rw broken refl), Untouched-refl _)
    | inr (ji', e, kept) ↦ rw e (Kept-cons id ji ji' jobs _ kept (report-Kept pods jobs))
  ]

  with_state-done :
      (f : Dict (Job Q R) → Dict (Job Q R)) (out : Outcome (Dict (Job Q R)) (Unit {0}))
      (jobs : Dict (Job Q R))
      → with_state f out ≡ done jobs tt
      → (jobs' : Dict (Job Q R)) × (out ≡ done jobs' tt) × (f jobs' ≡ jobs)
  with_state-done f (done s a) jobs e = (s, refl, cc)
  with_state-done f (panicked s) jobs e = absurd cc
  with_state-done f unfinished jobs e = absurd cc

  report-cons :
      (pods : Pods) (id : String) (ji ji' : Job Q R) (jobs : Dict (Job Q R))
      → report_one pods ji (pod_suffix ji.type) ≡ ok ji'
      → report pods ((id, ji) ∷ jobs) ≡ with_state (λ jobs'. (id, ji') ∷ jobs') (report pods jobs)
  unfolding report
  report-cons pods id ji ji' jobs e = rw e refl

  -- Where the first loop returns, a job that was not parsed is not.
  pub report-IsUnparsed :
      (pods : Pods) (id : String) (jobs jobs' : Dict (Job Q R))
      → report pods jobs ≡ done jobs' tt
      → IsUnparsed id jobs
      → IsUnparsed id jobs'
  unfolding report lookup
  report-IsUnparsed pods id [] jobs' e h = absurd (cc h.1)
  report-IsUnparsed pods id ((k, x) ∷ jobs) jobs' e (ji, there, unparsed) =
      elim (Bool-cases (str_eq k id)) [
        | inl same ↦
            let is_ji : x ≡ ji = ground (arith, same, there) in
            let x_unparsed : x.custom_fields ≡ none = rw is_ji unparsed in
            elim (report_one-unparsed pods x (pod_suffix x.type) x_unparsed) [
              | inl broken ↦ absurd (cc (e, broken))
              | inr kept ↦
                  let (rest, e', is_jobs) =
                    with_state-done (λ js. (k, x) ∷ js) (report pods jobs) jobs'
                      (sym (report-cons pods k x x jobs kept) ∙ e) in
                  subst (IsUnparsed id) is_jobs (x, rw same refl, x_unparsed)
            ]
        | inr other ↦ elim (report_one-Reported pods x (pod_suffix x.type)) [
          | inl broken ↦ absurd (cc (e, broken))
          | inr (x', kept, _) ↦
              let (rest, e', is_jobs) =
                with_state-done (λ js. (k, x') ∷ js) (report pods jobs) jobs'
                  (sym (report-cons pods k x x' jobs kept) ∙ e) in
              let (ji', there', unparsed') =
                report-IsUnparsed pods id jobs rest e'
                  (ji, ground (arith, other, there), unparsed) in
              subst (IsUnparsed id) is_jobs (ji', rw other there', unparsed')
        ]
      ]

  pub clear-IsUnparsed :
      (id : String) (jobs : Dict (Job Q R)) → IsUnparsed id jobs → IsUnparsed id (clear jobs)
  unfolding clear lookup
  clear-IsUnparsed id [] h = absurd (cc h.1)
  clear-IsUnparsed id ((k, x) ∷ jobs) (ji, there, e) = elim (Bool-cases (str_eq k id)) [
    | inl same ↦
        let is_ji : x ≡ ji = ground (arith, same, there) in
        (record x { num_masters = pos 0; num_replicas = pos 0 }, rw same refl, rw is_ji e)
    | inr other ↦
        let (ji', there', e') = clear-IsUnparsed id jobs (ji, ground (arith, other, there), e) in
        (ji', rw other there', e')
  ]

  pub measure-unparsed :
      (fl : FloatApi R) (id : String) (jobs : Dict (Job Q R))
      → IsUnparsed id jobs
      → measure fl jobs ≡ panic
  unfolding measure measure_one lookup
  measure-unparsed fl id [] h = absurd (cc h.1)
  measure-unparsed fl id ((k, x) ∷ jobs) (ji, there, e) = elim (Bool-cases (str_eq k id)) [
    | inl same ↦
        let is_ji : x ≡ ji = ground (arith, same, there) in
        let unparsed : x.custom_fields ≡ none = rw is_ji e in rw unparsed refl
    | inr other ↦
        let rest = measure-unparsed fl id jobs (ji, ground (arith, other, there), e) in
        elim (Option-cases x.custom_fields) [
          | inl missing ↦ rw missing refl
          | inr (fields, parsed) ↦ rw (parsed, rest) refl
        ]
  ]
