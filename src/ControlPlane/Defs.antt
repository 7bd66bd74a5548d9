-- ===== src/ControlPlane/Defs.antt =====
-- The records of src/control_plane/domain/models.py that the control plane keeps, its state, and
-- the reasons of the `ValueError`s that its methods raise.
use docker_volume_backup.Base.{
  ◌≡◌, refl, ◌⊎◌, inl, inr, ℕ, String, Bool, true, false, Option, List, Dict,
}
use docker_volume_backup.Json.{Fields}
use docker_volume_backup.Jobs.{JobRecord, Jobs}

pub data WorkerStatus : Type 0 where
  pending online offline disabled : WorkerStatus

abbrev pub is_online : WorkerStatus → Bool
is_online WorkerStatus.online = true
is_online _ = false

abbrev pub is_disabled : WorkerStatus → Bool
is_disabled WorkerStatus.disabled = true
is_disabled _ = false

pub record WorkerRecord : Type 0 where
  pub name : String
  pub host_name : String
  pub version : String
  pub labels : Dict String
  pub id : String
  pub status : WorkerStatus
  pub created_at : ℕ
  pub updated_at : ℕ
  pub last_seen_at : Option ℕ

pub record BackupTargetRecord : Type 0 where
  pub name : String
  pub worker_id : String
  pub compose_project : Option String
  pub volume_targets : List String
  pub backup_mode : String
  pub backup_strategy : String
  pub runtime_image : Option String
  pub runtime_command : Option String
  pub runtime_environment : Dict String
  pub runtime_volumes : Fields
  pub runtime_network_mode : Option String
  pub storage_profile_id : Option String
  pub retention_policy_id : Option String
  pub execution_policy_id : Option String
  pub restic_password_secret_id : Option String
  pub restore_defaults : Fields
  pub labels : Dict String
  pub enabled : Bool
  pub live_access_enabled : Bool
  pub cron_expression : Option String
  pub id : String
  pub created_at : ℕ
  pub updated_at : ℕ
  pub path_storage : Option String
  pub runtime_type : String
  pub namespace : Option String
  pub pvc_names : List String
  pub filesystem_paths : List String

-- What the service keeps in its worker, target and job repositories, and the jobs whose events it
-- published, oldest first.
pub record ControlPlane : Type 0 where
  pub workers : Dict WorkerRecord
  pub targets : Dict BackupTargetRecord
  pub jobs : Jobs
  pub published : List JobRecord

pub data Error : Type 0 where
  worker_not_found worker_not_eligible worker_is_disabled credential_not_found : Error
  target_not_found target_elsewhere target_disabled : Error
  job_not_found not_owner stale_token lease_expired not_in_progress job_canceled : Error
  bad_status not_cancellable active_jobs bad_payload sync_failed bad_label : Error

pub data Result {ℓ} (A : Type ℓ) : Type ℓ where
  ok : A → Result A
  err : Error → Result A

pub Result-cases {ℓ} :
    {A : Type ℓ} (r : Result A) → ((a : A) × (r ≡ ok a)) ⊎ ((e : Error) × (r ≡ err e))
Result-cases (ok a) = inl (a, refl)
Result-cases (err e) = inr (e, refl)

abbrev pub is_ok {ℓ} : {A : Type ℓ} → Result A → Bool
is_ok (ok a) = true
is_ok (err e) = false
