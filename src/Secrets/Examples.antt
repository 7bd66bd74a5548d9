-- ===== src/Secrets/Examples.antt =====
-- Secrets at a concrete catalog.
use docker_volume_backup.Base.{true, none, some, [], ◌∷◌, ◌≡◌, refl, str_eq}
use docker_volume_backup.Json.{empty}
use docker_volume_backup.Secrets.Defs.{SecretRecord, StorageProfileRecord, Catalog, list_profiles}
use docker_volume_backup.Secrets.Usages.{secret_in_use, delete_secret}
use docker_volume_backup.Secrets.Deletion.{all_references_resolve, delete_secret-resolves}

abbrev password : SecretRecord
password = record {
  name = "password";
  scope = "global";
  secret_type = "generic";
  ciphertext = "gAAAA";
  key_version = "v1";
  metadata = empty;
  id = "s1";
  created_at = 1;
  updated_at = 1;
}

abbrev profile : StorageProfileRecord
profile = record {
  name = "cloud";
  backend_type = "s3";
  environment = [];
  secret_refs = ("AWS_SECRET_ACCESS_KEY", "s1") ∷ [];
  file_secret_refs = [];
  runtime_volumes = empty;
  labels = [];
  id = "p1";
  created_at = 1;
  updated_at = 1;
}

abbrev catalog : Catalog
catalog = record {
  secrets = ("s1", password) ∷ ("s2", record password { id = "s2" }) ∷ [];
  targets = [];
  profiles = ("p1", profile) ∷ [];
  settings = none;
}

used : (delete_secret "s1" catalog).0 ≡ some secret_in_use
unfolding delete_secret list_profiles str_eq
used = refl

unused : (delete_secret "s2" catalog).0 ≡ none
unfolding delete_secret list_profiles str_eq
unused = refl

delete_secret-resolves_example : all_references_resolve (delete_secret "s2" catalog).1 ≡ true
unfolding list_profiles str_eq
delete_secret-resolves_example = delete_secret-resolves "s2" catalog refl
