-- ===== src/Generator/Laws.antt =====
-- The jobs that the generator makes.
use Prim.Native.String.{◌++◌ as str_append}
use pinta_scheduler.Prelude.{
  ℕ, zero, suc, ◌+◌, ◌<◌, String, ◌≡◌, refl, ap, subst, ◌∙◌, inl, inr, true, Option, none, some,
  List, [], ◌∷◌, ◌++◌, arith, ltb, if◌then◌else◌, or_else, is_some, Option-cases, length, get_elem?,
  All, get_elem?-All, get_elem?-in_bounds,
}
use pinta_scheduler.Dict.{lookup}
use mathlib.Core.Option
use pinta_scheduler.Api.{PintaJob, Container}
use pinta_scheduler.Controller.Result.{ok}
use pinta_scheduler.Generator.{
  TextFields, Texts, EnvVar, other_env, env_of, put_env, with_containers, create_with,
  create_job_from_template, generate,
}

abbrev pub name_of : Texts → ℕ → String
name_of t id = str_append "pinta-job-simulation-" (t.itoa id)

module _ {ℓ} {A : Type ℓ} (g : A → String) (name : ℕ → String) where
  -- The names of `n` elements from a number on.
  abbrev pub AreNamed : ℕ → ℕ → List A → Type 0
  AreNamed id n xs =
      (i : ℕ) → Option.map g (get_elem? xs i) ≡ (if ltb i n then some (name (id + i)) else none)

  AreNamed-cons :
      (x : A) (xs : List A) (id n : ℕ)
      → g x ≡ name id
      → AreNamed (suc id) n xs
      → AreNamed id (suc n) (x ∷ xs)
  AreNamed-cons x xs id n e h zero =
      let same : id + 0 ≡ id = omega arith in rw same (ground (arith, e))
  AreNamed-cons x xs id n e h (suc i) =
      let same : id + suc i ≡ suc id + i = omega arith in rw same (h i ∙ ground arith)

module _ {Q : Type 0} (t : Texts) where
  abbrev pub decoded : PintaJob Q → Option TextFields
  decoded job =
      t.unmarshal (or_else (lookup "pinta.qed.usc.edu/custom-fields" job.meta.annotations) "")

  abbrev pub containers_of : PintaJob Q → List (Container Q)
  containers_of job = job.spec.replica.spec.containers

  -- The replica has a container, and the annotation decodes.
  abbrev pub IsTemplate : PintaJob Q → Type 0
  IsTemplate job = (0 < length (containers_of job)) × (is_some (decoded job) ≡ true)

  put_env_some :
      (added : List EnvVar) (cs : List (Container Q))
      → 0 < length cs
      → (cs' : List (Container Q)) × (put_env added cs ≡ ok cs')
  unfolding put_env
  put_env_some added [] h = absurd (omega arith)
  put_env_some added (c ∷ cs) h = (_, refl)

  create_with_lem :
      (template : PintaJob Q) (id : ℕ) (fields : TextFields) (cs : List (Container Q))
      → put_env (env_of t fields) (containers_of template) ≡ ok cs
      → create_with t template id (some fields) ≡ ok (with_containers (name_of t id) template cs)
  unfolding create_with
  create_with_lem template id fields cs e = rw e refl

  create_job_some :
      (template : PintaJob Q) (id : ℕ)
      → IsTemplate template
      → (job : PintaJob Q) × (create_job_from_template t template id ≡ ok job)
        × (job.meta.name ≡ name_of t id)
  unfolding create_job_from_template create_with
  create_job_some template id h = elim (Option-cases (decoded template)) [
    | inl missing ↦ absurd (cc (missing, h.1))
    | inr (fields, found) ↦
        let (cs, e) = put_env_some (env_of t fields) (containers_of template) h.0 in
        (
          with_containers (name_of t id) template cs,
          ap (create_with t template id) found ∙ create_with_lem template id fields cs e,
          refl,
        )
  ]

  module _ {R : Type 0} (plus : R → R → R) (templates : List (PintaJob Q)) (rand : ℕ → ℕ)
      (intervals : ℕ → R) (good : All IsTemplate templates)
      (in_range : (i : ℕ) → rand i < length templates) where
    generate_step :
        (n id : ℕ) (timestamp : R) (template job : PintaJob Q) (jobs : List (R × PintaJob Q))
        → get_elem? templates (rand id) ≡ some template
        → create_job_from_template t template id ≡ ok job
        → generate t plus n templates rand intervals (suc id) (plus timestamp (intervals id))
          ≡ ok jobs
        → generate t plus (suc n) templates rand intervals id timestamp
          ≡ ok ((timestamp, job) ∷ jobs)
    unfolding generate
    generate_step n id timestamp template job jobs chosen e e' = ground (arith, chosen, e, e')

    -- With templates that have a container and an annotation that decodes, and random indexes into them,
    -- `GenerateJobs` makes as many jobs as it is asked for, named by their numbers from the first on.
    pub generate_lem :
        (n id : ℕ) (timestamp : R)
        → (jobs : List (R × PintaJob Q)) × (generate t plus n templates rand intervals id timestamp
            ≡ ok jobs)
          × (length jobs ≡ n)
          × AreNamed (λ (e : R × PintaJob Q). e.1.meta.name) (name_of t) id n jobs
    unfolding generate
    generate_lem zero id timestamp = ([], refl, refl, λ i. ground arith)
    generate_lem (suc n) id timestamp =
        let (template, chosen) = get_elem?-in_bounds templates (rand id) (in_range id) in
        let (job, e, named) =
          create_job_some template id
            (get_elem?-All IsTemplate templates (rand id) template good chosen) in
        let (jobs, e', size, names) = generate_lem n (suc id) (plus timestamp (intervals id)) in
        (
          (timestamp, job) ∷ jobs,
          generate_step n id timestamp template job jobs chosen e e',
          ap suc size,
          AreNamed-cons (λ (e : R × PintaJob Q). e.1.meta.name) (name_of t) (timestamp, job) jobs id
              n named names,
        )

is_set_env : (t : Texts) (fields : TextFields) → other_env (env_of t fields) ≡ []
unfolding other_env
is_set_env t fields = refl

other_env-append : (xs ys : List EnvVar) → other_env (xs ++ ys) ≡ other_env xs ++ other_env ys
unfolding other_env
other_env-append [] ys = refl
other_env-append ((name, value) ∷ xs) ys = ground (arith, other_env-append xs ys)

other_env-twice : (xs : List EnvVar) → other_env (other_env xs) ≡ other_env xs
unfolding other_env
other_env-twice [] = refl
other_env-twice ((name, value) ∷ xs) = ground (arith, other_env-twice xs)

append-nil : (xs : List EnvVar) → xs ++ [] ≡ xs
append-nil [] = refl
append-nil (x ∷ xs) = ap (λ ys. x ∷ ys) (append-nil xs)

same_env :
    (t : Texts) (fields : TextFields) (env : List EnvVar)
    → other_env (other_env env ++ env_of t fields) ≡ other_env env
same_env t fields env =
    other_env-append (other_env env) (env_of t fields)
    ∙ ap (λ ys. other_env (other_env env) ++ ys) (is_set_env t fields)
    ∙ append-nil (other_env (other_env env))
    ∙ other_env-twice env

module _ {Q : Type 0} where
  put_env-again :
      (t : Texts) (fields : TextFields) (cs cs' : List (Container Q))
      → put_env (env_of t fields) cs ≡ ok cs'
      → put_env (env_of t fields) cs' ≡ ok cs'
  unfolding put_env
  put_env-again t fields [] cs' e = absurd cc
  put_env-again t fields (c ∷ cs) cs' e =
      let is_put : record c { env = other_env c.env ++ env_of t fields } ∷ cs ≡ cs' = cc in
      subst (λ xs. put_env (env_of t fields) xs ≡ ok xs) is_put
        (ap (λ env. ok (record c { env = env ++ env_of t fields } ∷ cs)) (same_env t fields c.env))

  -- A template with a container and an annotation that decodes makes a job, and that job, used as a
  -- template with the same number, makes itself: no variable is set twice.
  pub create_job_from_template_lem :
      (t : Texts) (template : PintaJob Q) (id : ℕ)
      → IsTemplate t template
      → (job : PintaJob Q) × (create_job_from_template t template id ≡ ok job)
        × (create_job_from_template t job id ≡ ok job)
  unfolding create_job_from_template
  create_job_from_template_lem t template id h = elim (Option-cases (decoded t template)) [
    | inl missing ↦ absurd (cc (missing, h.1))
    | inr (fields, found) ↦
        let (cs, e) = put_env_some t (env_of t fields) (containers_of t template) h.0 in
        let job = with_containers (name_of t id) template cs in
        (
          job,
          ap (create_with t template id) found ∙ create_with_lem t template id fields cs e,
          ap (create_with t job id) found
              ∙ create_with_lem t job id fields cs
                  (put_env-again t fields (containers_of t template) cs e),
        )
  ]
