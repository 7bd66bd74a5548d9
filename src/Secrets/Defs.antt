-- ===== src/Secrets/Defs.antt =====
-- `SecretRecord`, `StorageProfileRecord` and `SettingsRecord` of
-- src/control_plane/domain/models.py, and the in-memory repositories that keep them.
use docker_volume_backup.Base.{
  ℕ, String, Bool, Option, List, Dict, get, put, pop, values, sort_by, present,
}
use docker_volume_backup.Json.{Fields}
use docker_volume_backup.ControlPlane.{BackupTargetRecord}

pub record SecretRecord : Type 0 where
  pub name : String
  pub scope : String
  pub secret_type : String
  pub ciphertext : String
  pub key_version : String
  pub metadata : Fields
  pub id : String
  pub created_at : ℕ
  pub updated_at : ℕ

pub record StorageProfileRecord : Type 0 where
  pub name : String
  pub backend_type : String
  pub environment : Dict String
  pub secret_refs : Dict String
  pub file_secret_refs : Dict String
  pub runtime_volumes : Fields
  pub labels : Dict String
  pub id : String
  pub created_at : ℕ
  pub updated_at : ℕ

pub record SettingsRecord : Type 0 where
  pub restic_repository_base : String
  pub restic_password_secret_id : Option String
  pub rclone_conf_secret_id : Option String
  pub global_cron_expression : Option String
  pub control_plane_public_url : String
  pub snapshot_explorer_listing_max_output_bytes : ℕ
  pub id : String
  pub updated_at : ℕ

-- The repositories that `find_secret_usages` reads.
pub record Catalog : Type 0 where
  pub secrets : Dict SecretRecord
  pub targets : Dict BackupTargetRecord
  pub profiles : Dict StorageProfileRecord
  pub settings : Option SettingsRecord

-- `InMemorySecretRepository.save`
unfoldable pub save_secret : SecretRecord → Dict SecretRecord → Dict SecretRecord
save_secret secret items = put secret.id secret items

-- `InMemorySecretRepository.delete`
unfoldable pub delete_stored_secret : String → Dict SecretRecord → Dict SecretRecord
delete_stored_secret secret_id items = pop secret_id items

-- `InMemorySecretRepository.list`
unfoldable pub list_secrets : Dict SecretRecord → List SecretRecord
list_secrets items = sort_by (λ secret. secret.created_at) (values items)

-- `InMemoryStorageProfileRepository.save`
unfoldable pub save_profile :
    StorageProfileRecord → Dict StorageProfileRecord → Dict StorageProfileRecord
save_profile profile items = put profile.id profile items

-- `InMemoryStorageProfileRepository.list`
unfoldable pub list_profiles : Dict StorageProfileRecord → List StorageProfileRecord
list_profiles items = sort_by (λ profile. profile.created_at) (values items)

-- `InMemoryStorageProfileRepository.delete`
unfoldable pub delete_profile :
    String → Dict StorageProfileRecord → Bool × Dict StorageProfileRecord
delete_profile profile_id items = (present (get profile_id items), pop profile_id items)
