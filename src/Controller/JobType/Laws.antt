-- ===== src/Controller/JobType/Laws.antt =====
-- Building and reconciling a Volcano job agree.
use pinta_scheduler.Prelude.{String, ◌≡◌, Bool, true, false, List, [], ◌∷◌, arith, str_eq_iff}
use pinta_scheduler.Prelude.Int.{ℤ, pos, eqb_ℤ→eq, eqb_ℤ_refl}
use pinta_scheduler.Api.{
  PintaJobType, PintaJob, symmetric, ps_worker, mpi, image_builder, other, TaskSpec, VcJob,
  last_status,
}
use pinta_scheduler.Controller.Result.{ok, is_ok}
use pinta_scheduler.Controller.JobType.{
  Translate, build_vc_job, build_by_type, reconcile_one, reconcile_two, reconcile_tasks,
  reconcile_vc_job, child_meta,
}

-- The name and the replicas of each task that a PintaJob asks for by its type and its last status.
unfoldable pub desired : {Q : Type 0} → PintaJobType → PintaJob Q → List (String × ℤ)
desired symmetric job = ("replica", (last_status job.status).num_replicas) ∷ []
desired mpi job =
    let status = last_status job.status in
    ("master", status.num_masters) ∷ ("replica", status.num_replicas) ∷ []
desired ps_worker job =
    let status = last_status job.status in
    ("ps", status.num_masters) ∷ ("worker", status.num_replicas) ∷ []
desired image_builder job = ("image-builder", pos 1) ∷ []
desired (other t) job = []

-- The name and the replicas of each task of a Volcano job.
abbrev pub shape : {Q : Type 0} → List (TaskSpec Q) → List (String × ℤ)
shape [] = []
shape (t ∷ ts) = (t.name, t.replicas) ∷ shape ts

-- The tasks with no replicas: what a change of the replicas keeps.
abbrev pub unscaled : {Q : Type 0} → List (TaskSpec Q) → List (TaskSpec Q)
unscaled [] = []
unscaled (t ∷ ts) = record t { replicas = pos 0 } ∷ unscaled ts

abbrev pub names : List (String × ℤ) → List String
names [] = []
names ((n, r) ∷ l) = n ∷ names l

-- A type that the program knows.
abbrev pub IsKnown : PintaJobType → Type 0
IsKnown (other t) = ⊥
IsKnown _ = Unit

module _ {Q : Type 0} where
  reconcile_one_lem :
      (name : String) (n : ℤ) (ts ts' : List (TaskSpec Q)) (c : Bool)
      → reconcile_one name n ts ≡ ok (ts', c)
      → (shape ts' ≡ (name, n) ∷ [])
        × (unscaled ts' ≡ unscaled ts)
        × (reconcile_one name n ts' ≡ ok (ts', false))
        × (c ≡ false → ts' ≡ ts)
  unfolding reconcile_one
  reconcile_one_lem name n [] ts' c e = cc
  reconcile_one_lem name n (t ∷ u ∷ ts) ts' c e = cc
  reconcile_one_lem name n (t ∷ []) [] c e = ground arith
  reconcile_one_lem name n (t ∷ []) (t' ∷ u' ∷ ts') c e = ground arith
  reconcile_one_lem name n (t ∷ []) (t' ∷ []) c e =
      ground (arith, str_eq_iff t.name name, eqb_ℤ→eq t.replicas n, eqb_ℤ_refl n)

  reconcile_two_lem :
      (first second : String) (n m : ℤ) (ts ts' : List (TaskSpec Q)) (c : Bool)
      → reconcile_two first n second m ts ≡ ok (ts', c)
      → (shape ts' ≡ (first, n) ∷ (second, m) ∷ [])
        × (unscaled ts' ≡ unscaled ts)
        × (reconcile_two first n second m ts' ≡ ok (ts', false))
        × (c ≡ false → ts' ≡ ts)
  unfolding reconcile_two
  reconcile_two_lem first second n m [] ts' c e = cc
  reconcile_two_lem first second n m (t ∷ []) ts' c e = cc
  reconcile_two_lem first second n m (t ∷ u ∷ v ∷ ts) ts' c e = cc
  reconcile_two_lem first second n m (t ∷ u ∷ []) [] c e = ground arith
  reconcile_two_lem first second n m (t ∷ u ∷ []) (t' ∷ []) c e = ground arith
  reconcile_two_lem first second n m (t ∷ u ∷ []) (t' ∷ u' ∷ v' ∷ ts') c e = ground arith
  reconcile_two_lem first second n m (t ∷ u ∷ []) (t' ∷ u' ∷ []) c e = ground (
    arith,
    str_eq_iff t.name first,
    str_eq_iff u.name second,
    eqb_ℤ→eq t.replicas n,
    eqb_ℤ→eq u.replicas m,
    eqb_ℤ_refl n,
    eqb_ℤ_refl m,
  )

  reconcile_tasks_lem :
      (ty : PintaJobType) (job : PintaJob Q) (ts ts' : List (TaskSpec Q)) (c : Bool)
      → reconcile_tasks ty job ts ≡ ok (ts', c)
      → (shape ts' ≡ desired ty job)
        × (unscaled ts' ≡ unscaled ts)
        × (reconcile_tasks ty job ts' ≡ ok (ts', false))
        × (c ≡ false → ts' ≡ ts)
  unfolding reconcile_tasks desired
  reconcile_tasks_lem symmetric job ts ts' c e = reconcile_one_lem _ _ ts ts' c e
  reconcile_tasks_lem image_builder job ts ts' c e = reconcile_one_lem _ _ ts ts' c e
  reconcile_tasks_lem mpi job ts ts' c e = reconcile_two_lem _ _ _ _ ts ts' c e
  reconcile_tasks_lem ps_worker job ts ts' c e = reconcile_two_lem _ _ _ _ ts ts' c e
  reconcile_tasks_lem (other t) job ts ts' c e = cc

  -- Where a Volcano job is reconciled, its tasks have the names and the replicas that the PintaJob asks
  -- for, nothing else of a task changes but its replicas, nothing else of the Volcano job but its tasks,
  -- and to reconcile the outcome again changes nothing.
  pub reconcile_vc_job_lem :
      (job : PintaJob Q) (vc vc' : VcJob Q) (c : Bool)
      → reconcile_vc_job job vc ≡ ok (vc', c)
      → (shape vc'.tasks ≡ desired job.spec.type job)
        × (unscaled vc'.tasks ≡ unscaled vc.tasks)
        × (vc' ≡ record vc { tasks = vc'.tasks })
        × (reconcile_vc_job job vc' ≡ ok (vc', false))
  unfolding reconcile_vc_job
  reconcile_vc_job_lem job vc vc' c e =
      ground (arith, reconcile_tasks_lem job.spec.type job vc.tasks vc'.tasks c)

  -- Where `ReconcileVCJob` reports no change, the Volcano job is as it was, and its tasks already had
  -- the names and the replicas that the PintaJob asks for.
  pub reconcile_vc_job-unchanged :
      (job : PintaJob Q) (vc vc' : VcJob Q)
      → reconcile_vc_job job vc ≡ ok (vc', false)
      → (vc' ≡ vc) × (shape vc.tasks ≡ desired job.spec.type job)
  unfolding reconcile_vc_job
  reconcile_vc_job-unchanged job vc vc' e =
      ground (arith, reconcile_tasks_lem job.spec.type job vc.tasks vc'.tasks false)

  reconcile_one_total :
      (name : String) (n : ℤ) (ts : List (TaskSpec Q))
      → names (shape ts) ≡ name ∷ []
      → is_ok (reconcile_one name n ts) ≡ true
  unfolding reconcile_one
  reconcile_one_total name n [] e = cc
  reconcile_one_total name n (t ∷ u ∷ ts) e = ground arith
  reconcile_one_total name n (t ∷ []) e = ground (arith, str_eq_iff t.name name)

  reconcile_two_total :
      (first second : String) (n m : ℤ) (ts : List (TaskSpec Q))
      → names (shape ts) ≡ first ∷ second ∷ []
      → is_ok (reconcile_two first n second m ts) ≡ true
  unfolding reconcile_two
  reconcile_two_total first second n m [] e = cc
  reconcile_two_total first second n m (t ∷ []) e = ground arith
  reconcile_two_total first second n m (t ∷ u ∷ v ∷ ts) e = ground arith
  reconcile_two_total first second n m (t ∷ u ∷ []) e =
      ground (arith, str_eq_iff t.name first, str_eq_iff u.name second)

  reconcile_tasks_total :
      (ty : PintaJobType) (job : PintaJob Q) (ts : List (TaskSpec Q))
      → IsKnown ty
      → names (shape ts) ≡ names (desired ty job)
      → is_ok (reconcile_tasks ty job ts) ≡ true
  unfolding reconcile_tasks desired
  reconcile_tasks_total symmetric job ts k e = reconcile_one_total _ _ ts e
  reconcile_tasks_total image_builder job ts k e = reconcile_one_total _ (pos 1) ts e
  reconcile_tasks_total mpi job ts k e = reconcile_two_total _ _ _ _ ts e
  reconcile_tasks_total ps_worker job ts k e = reconcile_two_total _ _ _ _ ts e
  reconcile_tasks_total (other t) job ts k e = absurd k

  -- A Volcano job whose tasks have the names that the PintaJob's type asks for is reconciled: no
  -- error, and no panic.
  pub reconcile_vc_job-total :
      (job : PintaJob Q) (vc : VcJob Q)
      → IsKnown job.spec.type
      → names (shape vc.tasks) ≡ names (desired job.spec.type job)
      → is_ok (reconcile_vc_job job vc) ≡ true
  unfolding reconcile_vc_job
  reconcile_vc_job-total job vc k e =
      ground (arith, reconcile_tasks_total job.spec.type job vc.tasks k e)

  reconcile_one-of_shape :
      (name : String) (n : ℤ) (ts : List (TaskSpec Q))
      → shape ts ≡ (name, n) ∷ []
      → reconcile_one name n ts ≡ ok (ts, false)
  unfolding reconcile_one
  reconcile_one-of_shape name n [] e = cc
  reconcile_one-of_shape name n (t ∷ u ∷ ts) e = ground arith
  reconcile_one-of_shape name n (t ∷ []) e = ground (arith, str_eq_iff t.name name, eqb_ℤ_refl n)

  reconcile_two-of_shape :
      (first second : String) (n m : ℤ) (ts : List (TaskSpec Q))
      → shape ts ≡ (first, n) ∷ (second, m) ∷ []
      → reconcile_two first n second m ts ≡ ok (ts, false)
  unfolding reconcile_two
  reconcile_two-of_shape first second n m [] e = cc
  reconcile_two-of_shape first second n m (t ∷ []) e = ground arith
  reconcile_two-of_shape first second n m (t ∷ u ∷ v ∷ ts) e = ground arith
  reconcile_two-of_shape first second n m (t ∷ u ∷ []) e =
      ground (arith, str_eq_iff t.name first, str_eq_iff u.name second, eqb_ℤ_refl n, eqb_ℤ_refl m)

  reconcile_tasks-of_shape :
      (ty : PintaJobType) (job : PintaJob Q) (ts : List (TaskSpec Q))
      → IsKnown ty
      → shape ts ≡ desired ty job
      → reconcile_tasks ty job ts ≡ ok (ts, false)
  unfolding reconcile_tasks desired
  reconcile_tasks-of_shape symmetric job ts k e = reconcile_one-of_shape _ _ ts e
  reconcile_tasks-of_shape image_builder job ts k e = reconcile_one-of_shape _ (pos 1) ts e
  reconcile_tasks-of_shape mpi job ts k e = reconcile_two-of_shape _ _ _ _ ts e
  reconcile_tasks-of_shape ps_worker job ts k e = reconcile_two-of_shape _ _ _ _ ts e
  reconcile_tasks-of_shape (other t) job ts k e = absurd k

  module _ (translate_resources : Translate Q) where
    build_by_type_lem :
        (ty : PintaJobType) (job : PintaJob Q) (vc : VcJob Q)
        → build_by_type translate_resources ty job ≡ ok vc
        → (shape vc.tasks ≡ desired ty job)
          × (vc.meta ≡ child_meta translate_resources job)
          × IsKnown ty
    unfolding build_by_type desired
    build_by_type_lem symmetric job vc e = ground arith
    build_by_type_lem mpi job vc e = ground arith
    build_by_type_lem ps_worker job vc e = ground arith
    build_by_type_lem image_builder job vc e = ground arith
    build_by_type_lem (other t) job vc e = cc

    -- A Volcano job that is built has the tasks that the PintaJob asks for, the PintaJob's name and
    -- namespace, and the PintaJob as its controller, and to reconcile it at once changes nothing.
    pub reconcile_vc_job-build_vc_job :
        (job : PintaJob Q) (vc : VcJob Q)
        → build_vc_job translate_resources job ≡ ok vc
        → (shape vc.tasks ≡ desired job.spec.type job)
          × (vc.meta ≡ child_meta translate_resources job)
          × (reconcile_vc_job job vc ≡ ok (vc, false))
    unfolding build_vc_job reconcile_vc_job
    reconcile_vc_job-build_vc_job job vc e =
        let (same, owned, known) = build_by_type_lem job.spec.type job vc e in
        (same, owned, rw (reconcile_tasks-of_shape job.spec.type job vc.tasks known same))
