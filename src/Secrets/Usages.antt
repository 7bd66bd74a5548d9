-- ===== src/Secrets/Usages.antt =====
-- `find_secret_usages` and `delete_secret`, of
-- src/control_plane/application/services/control_plane_service.py.
use docker_volume_backup.Base.{
  String, Bool, true, false, Option, none, some, List, [], ◌∷◌, ◌++◌, Dict, get, values, sort_by,
  str_eq, opt_eq,
}
use docker_volume_backup.ControlPlane.{BackupTargetRecord}
use docker_volume_backup.Secrets.Defs.{
  StorageProfileRecord, SettingsRecord, Catalog, list_profiles, delete_stored_secret,
}

-- What refers to the secret: a password, the rclone file, a variable or a file of a profile.
pub data UsageField : Type 0 where
  restic_password rclone_conf : UsageField
  env file : String → UsageField

pub data UsageType : Type 0 where
  target storage_profile settings : UsageType

pub record Usage : Type 0 where
  pub type : UsageType
  pub id : String
  pub name : String
  pub field : UsageField

abbrev one_if : Bool → Usage → List Usage
one_if true usage = usage ∷ []
one_if false usage = []

-- The loop over the targets.
unfoldable pub target_usages : String → List BackupTargetRecord → List Usage
target_usages secret_id [] = []
target_usages secret_id (t ∷ targets) =
    one_if (opt_eq t.restic_password_secret_id secret_id)
      (record { type = UsageType.target; id = t.id; name = t.name; field = restic_password })
    ++ target_usages secret_id targets

-- The loop over the references of a profile.
unfoldable pub reference_usages :
    String → StorageProfileRecord → (String → UsageField) → Dict String → List Usage
reference_usages secret_id profile field [] = []
reference_usages secret_id profile field ((name, ref_id) ∷ refs) =
    one_if (str_eq ref_id secret_id) (record {
      type = UsageType.storage_profile;
      id = profile.id;
      name = profile.name;
      field = field name;
    })
    ++ reference_usages secret_id profile field refs

-- The loop over the profiles.
unfoldable pub profile_usages : String → List StorageProfileRecord → List Usage
unfolding reference_usages
profile_usages secret_id [] = []
profile_usages secret_id (profile ∷ profiles) =
    (reference_usages secret_id profile env profile.secret_refs
      ++ reference_usages secret_id profile file profile.file_secret_refs)
    ++ profile_usages secret_id profiles

unfoldable pub settings_usages : String → Option SettingsRecord → List Usage
settings_usages secret_id none = []
settings_usages secret_id (some s) =
    one_if (opt_eq s.restic_password_secret_id secret_id) (record {
      type = UsageType.settings;
      id = "global";
      name = "Settings";
      field = restic_password;
    })
    ++ one_if (opt_eq s.rclone_conf_secret_id secret_id) (record {
      type = UsageType.settings;
      id = "global";
      name = "Settings";
      field = rclone_conf;
    })

-- `find_secret_usages`
unfoldable pub find_secret_usages : String → Catalog → List Usage
unfolding target_usages profile_usages settings_usages
find_secret_usages secret_id c =
    target_usages secret_id (sort_by (λ t. t.created_at) (values c.targets))
    ++ (profile_usages secret_id (list_profiles c.profiles) ++ settings_usages secret_id c.settings)

pub data Refusal : Type 0 where
  secret_not_found secret_in_use : Refusal

-- `delete_secret`: why it is refused, if it is, and the catalog after it.
unfoldable pub delete_secret : String → Catalog → Option Refusal × Catalog
unfolding find_secret_usages delete_stored_secret
delete_secret secret_id c = elim (get secret_id c.secrets) [
  | none ↦ (some secret_not_found, c)
  | some secret ↦ elim (find_secret_usages secret_id c) [
    | usage ∷ usages ↦ (some secret_in_use, c)
    | [] ↦ (none, record c { secrets = delete_stored_secret secret_id c.secrets })
  ]
]
