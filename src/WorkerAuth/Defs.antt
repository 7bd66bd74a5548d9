-- ===== src/WorkerAuth/Defs.antt =====
-- `Credential`, `Enrollment`, `EnrollmentAttempt` and `WorkerAuthState`, and the tables of
-- credentials and nonces. A version is the number whose decimal text the source keeps.
use docker_volume_backup.Base.{
  ℕ, ◌==◌, ltb, String, Bool, false, ◌&&◌, Option, none, some, List, [], ◌∷◌, Dict, any_of, map,
  find_first, str_eq, if◌then◌else◌,
}

pub record Credential : Type 0 where
  pub worker_id : String
  pub version : ℕ
  pub secret_digest : String
  pub active : Bool
  pub revoked_at : Option ℕ

pub record Enrollment : Type 0 where
  pub worker_id : String
  pub secret_digest : String
  pub name : String
  pub host_name : String
  pub labels : Dict String
  pub expires_at : ℕ
  pub used : Bool

pub record EnrollmentAttempt : Type 0 where
  pub secret_digest : String
  pub attempt_id : String
  pub credential_digest : String
  pub worker_id : String
  pub credential_version : ℕ
  pub labels : Dict String

pub record Nonce : Type 0 where
  pub worker_id : String
  pub version : ℕ
  pub nonce : String

-- `_credentials` in insertion order, `_nonces`, `_enrollments` by the digest of their secret, and
-- `_enrollment_attempts` likewise.
pub record AuthState : Type 0 where
  pub credentials : List Credential
  pub nonces : List Nonce
  pub enrollments : Dict Enrollment
  pub attempts : Dict EnrollmentAttempt

-- The credential stands under the key `(worker_id, version)`.
abbrev pub has_key : String → ℕ → Credential → Bool
has_key worker_id version c = str_eq c.worker_id worker_id && c.version == version

-- `_get`
unfoldable pub get_credential : String → ℕ → List Credential → Option Credential
get_credential worker_id version credentials = find_first (has_key worker_id version) credentials

-- `_save`
unfoldable pub save_credential : Credential → List Credential → List Credential
save_credential c [] = c ∷ []
save_credential c (d ∷ credentials) =
    if has_key c.worker_id c.version d then c ∷ credentials else d ∷ save_credential c credentials

abbrev pub is_active_of : String → Credential → Bool
is_active_of worker_id c = str_eq c.worker_id worker_id && c.active

-- The first of the two with the higher version.
abbrev pub newer : Credential → Option Credential → Option Credential
newer c none = some c
newer c (some d) = if ltb c.version d.version then some d else some c

-- `_current`: of the worker's active credentials, the one with the highest version.
unfoldable pub current : String → List Credential → Option Credential
current worker_id [] = none
current worker_id (c ∷ credentials) =
    let rest = current worker_id credentials in
    if is_active_of worker_id c then newer c rest else rest

-- `c.status, c.revoked_at = "revoked", now`
abbrev pub revoked : ℕ → Credential → Credential
revoked now c = record c { active = false; revoked_at = some now }

abbrev pub revoked_at_key : String → ℕ → ℕ → Credential → Credential
revoked_at_key worker_id version now c = if has_key worker_id version c then revoked now c else c

-- The revocation of the credential under a key, which the dictionary and its reader share.
unfoldable pub revoke_key : String → ℕ → ℕ → List Credential → List Credential
revoke_key worker_id version now credentials =
    map (revoked_at_key worker_id version now) credentials

abbrev pub is_nonce : String → ℕ → String → Nonce → Bool
is_nonce worker_id version nonce n =
    str_eq n.worker_id worker_id && (n.version == version && str_eq n.nonce nonce)

-- `key in self._nonces`
unfoldable pub is_seen : String → ℕ → String → List Nonce → Bool
is_seen worker_id version nonce nonces = any_of (is_nonce worker_id version nonce) nonces
