-- ===== src/ControlPlane/Revoking.antt =====
-- What `revoke_worker` does to a worker, its targets and its credentials.
use docker_volume_backup.Base.{
  List, map, present, ◌⊎◌, inl, inr, Option-cases, false, none, any_of, ℕ, String, Bool, true, ◌&&◌,
  Option, some, [], ◌∷◌, ◌≡◌, refl, arith, get, get-put, str_eq, str_eq_refl,
}
use docker_volume_backup.WorkerAuth.{
  Credential, AuthState, has_key, is_active_of, get_credential, current, revoke_key, revoked_of,
  revoke, revoke_all,
}
use docker_volume_backup.ControlPlane.Defs.{
  credential_not_found, ok, WorkerStatus, WorkerRecord, ControlPlane, err,
}
use docker_volume_backup.ControlPlane.Workers.{
  save_worker, Version, every_version, current_version, unknown_version, numbered,
  revoke_credentials, revoke_worker,
}
use docker_volume_backup.ControlPlane.Revocation.{
  all_disabled, disable_targets-all_disabled, IsDisabled,
}

abbrev pub credentials_of : Option AuthState → List Credential
credentials_of none = []
credentials_of (some auth) = auth.credentials

-- The credentials that a revocation names, of those that there are when it is asked for: all of the
-- worker, the current one, or the one of a version.
abbrev pub names_key : String → Option Credential → Credential → Bool
names_key worker_id none c = false
names_key worker_id (some d) c = has_key worker_id d.version c

abbrev pub is_named : String → Version → List Credential → Credential → Bool
is_named worker_id every_version credentials c = str_eq c.worker_id worker_id
is_named worker_id current_version credentials c =
    names_key worker_id (current worker_id credentials) c
is_named worker_id unknown_version credentials c = false
is_named worker_id (numbered version) credentials c = has_key worker_id version c

-- Whether a revocation finds what it names.
abbrev pub names_some : String → Version → List Credential → Bool
names_some worker_id every_version credentials = true
names_some worker_id current_version credentials = any_of (is_active_of worker_id) credentials
names_some worker_id unknown_version credentials = false
names_some worker_id (numbered version) credentials = any_of (has_key worker_id version) credentials

revoke_key_leaves :
    (worker_id : String) (version now : ℕ) (credentials : List Credential)
    → any_of
        (λ c. has_key worker_id version c && c.active)
        (revoke_key worker_id version now credentials)
      ≡ false
unfolding revoke_key
revoke_key_leaves worker_id version now [] = refl
revoke_key_leaves worker_id version now (c ∷ credentials) =
    ground (arith, revoke_key_leaves worker_id version now credentials)

revoke_all_leaves :
    (worker_id : String) (now : ℕ) (credentials : List Credential)
    → any_of
        (λ c. str_eq c.worker_id worker_id && c.active)
        (map (revoked_of worker_id now) credentials)
      ≡ false
revoke_all_leaves worker_id now [] = refl
revoke_all_leaves worker_id now (c ∷ credentials) =
    ground (arith, revoke_all_leaves worker_id now credentials)

find_first-missing :
    (worker_id : String) (version : ℕ) (credentials : List Credential)
    → get_credential worker_id version credentials ≡ none
    → any_of (has_key worker_id version) credentials ≡ false
unfolding get_credential
find_first-missing worker_id version [] h = refl
find_first-missing worker_id version (c ∷ credentials) h =
    ground (arith, find_first-missing worker_id version credentials)

find_first-found :
    (worker_id : String) (version : ℕ) (credentials : List Credential) (c : Credential)
    → get_credential worker_id version credentials ≡ some c
    → (any_of (has_key worker_id version) credentials ≡ true) × (c.version ≡ version)
unfolding get_credential
find_first-found worker_id version [] c h = cc
find_first-found worker_id version (d ∷ credentials) c h =
    ground (arith, find_first-found worker_id version credentials c)

current-any_of :
    (worker_id : String) (credentials : List Credential)
    → present (current worker_id credentials) ≡ any_of (is_active_of worker_id) credentials
unfolding current
current-any_of worker_id [] = refl
current-any_of worker_id (c ∷ credentials) = ground (arith, current-any_of worker_id credentials)

-- What the revocation of credentials comes to.
revoke_credentials_cases :
    (worker_id : String) (version : Version) (now : ℕ) (a : AuthState)
    → let r = revoke_credentials worker_id version now a in
      ((r ≡ none) × (names_some worker_id version a.credentials ≡ false))
      ⊎ ((a' : AuthState) × (r ≡ some a')
          × (names_some worker_id version a.credentials ≡ true)
          × (any_of (λ c. is_named worker_id version a.credentials c && c.active) a'.credentials
              ≡ false))
unfolding revoke_credentials revoke revoke_all
revoke_credentials_cases worker_id every_version now a =
    inr (_, refl, refl, revoke_all_leaves worker_id now a.credentials)
revoke_credentials_cases worker_id unknown_version now a = inl (refl, refl)
revoke_credentials_cases worker_id current_version now a =
    let counted = current-any_of worker_id a.credentials in
    elim (Option-cases (current worker_id a.credentials)) [
      | inl absent ↦ inl (ground arith, ground arith)
      | inr (c, found) ↦ inr (
        record a { credentials = revoke_key worker_id c.version now a.credentials },
        ground arith,
        ground arith,
        rw found (revoke_key_leaves worker_id c.version now a.credentials),
      )
    ]
revoke_credentials_cases worker_id (numbered version) now a =
    elim (Option-cases (get_credential worker_id version a.credentials)) [
      | inl absent ↦ inl (ground arith, find_first-missing worker_id version a.credentials absent)
      | inr (c, found) ↦
          let (some_key, same) = find_first-found worker_id version a.credentials c found in
          inr (
            record a { credentials = revoke_key worker_id c.version now a.credentials },
            ground arith,
            some_key,
            rw same (revoke_key_leaves worker_id version now a.credentials),
          )
    ]

-- Revoking a known worker, with every credential of it, the current one, or the one of a version:
-- either the credential that is named is not there, and the call raises and changes nothing; or the
-- worker is disabled, with every target of it, and no credential that is named is active any more.
pub revoke_worker_lem :
    (worker_id : String) (version : Version) (now : ℕ) (s : ControlPlane) (auth : Option AuthState)
    (worker : WorkerRecord)
    → get worker_id s.workers ≡ some worker
    → worker.id ≡ worker_id
    → let r = revoke_worker worker_id version now s auth in
      let before = credentials_of auth in
      ((r ≡ (err credential_not_found, s, auth)) × (names_some worker_id version before ≡ false))
      ⊎ ((worker' : WorkerRecord) × (r.0 ≡ ok worker')
          × IsDisabled worker_id r.1
          × (all_disabled worker_id r.1.targets ≡ true)
          × (any_of (λ c. is_named worker_id version before c && c.active) (credentials_of r.2)
              ≡ false))
unfolding revoke_worker save_worker
revoke_worker_lem worker_id version now s none worker found own =
    let worker' = record worker { status = WorkerStatus.disabled; updated_at = now } in
    inr (
      worker',
      ground arith,
      (
        worker',
        ground (arith, get-put worker.id worker_id worker' s.workers, str_eq_refl worker_id),
        ground arith,
        ground arith,
      ),
      ground (arith, disable_targets-all_disabled worker_id now s.targets),
      ground arith,
    )
revoke_worker_lem worker_id version now s (some a) worker found own =
    let worker' = record worker { status = WorkerStatus.disabled; updated_at = now } in
    elim (revoke_credentials_cases worker_id version now a) [
      | inl (raised, absent) ↦ inl (rw (found, raised, revoke_worker) refl, absent)
      | inr (a', done, _, none_active) ↦ inr (
        worker',
        rw (found, done, revoke_worker) refl,
        (
          worker',
          rw (found, done, revoke_worker)
              (ground
                (arith, get-put worker.id worker_id worker' s.workers, str_eq_refl worker_id)),
          ground arith,
          ground arith,
        ),
        rw (found, done, revoke_worker) (disable_targets-all_disabled worker_id now s.targets),
        rw (found, done, revoke_worker) none_active,
      )
    ]
