-- ===== src/Info/Job.antt =====
-- pkg/apis/info/job_info.go: what the scheduler keeps of a PintaJob. `F` is the type of the custom
-- fields, which the YAML library decodes.
use pinta_scheduler.Prelude.{ℕ, String, Option, none, some, Bool, true, false, or_else}
use pinta_scheduler.Prelude.Int.{ℤ}
use pinta_scheduler.Dict.{lookup}
use pinta_scheduler.Api.{PintaJob, PintaJobType, last_status}

pub record JobInfo (Q F : Type 0) : Type 0 where
  pub uid : String
  pub name : String
  pub namespace : String
  pub type : PintaJobType
  pub num_masters : ℤ
  pub num_replicas : ℤ
  pub creation_timestamp : ℕ
  pub custom_fields : Option F
  pub job : PintaJob Q

module _ {Q F : Type 0} where
  unfoldable pub new_job_info : String → PintaJob Q → JobInfo Q F
  new_job_info uid job =
      let last = last_status job.status in
      record {
        uid = uid;
        name = job.meta.name;
        namespace = job.meta.namespace;
        type = job.spec.type;
        num_masters = last.num_masters;
        num_replicas = last.num_replicas;
        creation_timestamp = job.meta.creation_timestamp;
        custom_fields = none;
        job = job;
      }

  -- The decoder gives none on an error, and the job info is then as it was. An annotation that is
  -- missing reads as the empty string.
  unfoldable pub parse_custom_fields : (String → Option F) → JobInfo Q F → JobInfo Q F × Bool
  parse_custom_fields unmarshal ji =
      elim (unmarshal
        (or_else (lookup "pinta.qed.usc.edu/custom-fields" ji.job.meta.annotations) "")) [
          | none ↦ (ji, false)
          | some fields ↦ (record ji { custom_fields = some fields }, true)
        ]

  unfoldable pub clone : JobInfo Q F → JobInfo Q F
  clone ji = record {
    uid = ji.uid;
    name = ji.name;
    namespace = ji.namespace;
    type = ji.type;
    num_masters = ji.num_masters;
    num_replicas = ji.num_replicas;
    creation_timestamp = ji.creation_timestamp;
    custom_fields = ji.custom_fields;
    job = ji.job;
  }
