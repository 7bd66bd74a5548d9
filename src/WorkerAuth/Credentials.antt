-- ===== src/WorkerAuth/Credentials.antt =====
-- `authenticate`, `rotate`, `revoke`, `revoke_all` and `delete_worker`. `none` is the `ValueError`,
-- which leaves the state as it was.
use docker_volume_backup.Base.{
  ℕ, ◌+◌, ◌*◌, leb, ltb, String, Bool, true, false, not, ◌&&◌, ◌||◌, Option, none, some, List, ◌∷◌,
  map, keep_if, length, ℤ, pos_part, neg_part, str_eq, codes, parse_int, text_length, if◌then◌else◌,
}
use docker_volume_backup.WorkerAuth.Defs.{
  Credential, Nonce, AuthState, get_credential, save_credential, current, revoked, revoke_key,
  is_seen,
}

-- What a worker signs; the `version` is `none` where the text is that of no number.
pub record Request : Type 0 where
  pub method : String
  pub path : String
  pub body : String
  pub timestamp : String
  pub nonce : String
  pub signed_worker_id : String
  pub version : Option ℕ
  pub signature : String

abbrev pub microseconds : ℕ
microseconds = 1000000

-- `abs(time.time() - int(timestamp)) <= 300`
abbrev pub is_fresh : ℕ → Option ℤ → Bool
is_fresh now none = false
is_fresh now (some t) =
    leb (now + neg_part t * microseconds) (pos_part t * microseconds + 300 * microseconds)
    && leb (pos_part t * microseconds) (now + neg_part t * microseconds + 300 * microseconds)

-- `verify` is `verify_request`, given the digest of the secret, the worker's id and its version.
unfoldable pub authenticate :
    (String → String → ℕ → Request → Bool) → String → Request → ℕ → AuthState → Option AuthState
unfolding parse_int get_credential is_seen
authenticate verify worker_id request now s =
    if str_eq worker_id "" || not (str_eq request.signed_worker_id worker_id)
    then none
    else if not (is_fresh now (parse_int (codes request.timestamp)))
    then none
    else elim request.version [
      | none ↦ none
      | some version ↦ elim (get_credential worker_id version s.credentials) [
        | none ↦ none
        | some c ↦
            if not c.active || not (verify c.secret_digest worker_id version request)
            then none
            else if str_eq request.nonce "" || is_seen worker_id version request.nonce s.nonces
            then none
            else let seen : Nonce = record {
              worker_id = worker_id;
              version = version;
              nonce = request.nonce;
            } in
              some (record s { nonces = seen ∷ s.nonces })
      ]
    ]

-- The credentials without the worker's current one, and the version of the next.
unfoldable pub retire : String → ℕ → List Credential → ℕ × List Credential
unfolding current revoke_key
retire worker_id now credentials = elim (current worker_id credentials) [
  | none ↦ (1, credentials)
  | some c ↦ (c.version + 1, revoke_key worker_id c.version now credentials)
]

abbrev pub new_credential : String → ℕ → String → Credential
new_credential worker_id version secret_digest = record {
  worker_id = worker_id;
  version = version;
  secret_digest = secret_digest;
  active = true;
  revoked_at = none;
}

-- What `rotate` and the completions of an enrollment do to the credentials.
unfoldable pub replace_current : String → String → ℕ → List Credential → ℕ × List Credential
unfolding retire save_credential
replace_current worker_id secret_digest now credentials =
    let (version, retired) = retire worker_id now credentials in
    (version, save_credential (new_credential worker_id version secret_digest) retired)

-- `len((secret or "").encode()) < 32`
abbrev pub is_short : String → Bool
is_short secret = ltb (text_length secret) 32

-- `rotate`: the new version, and the state; `digest` is `digest_secret`.
unfoldable pub rotate : (String → String) → String → String → ℕ → AuthState → Option (ℕ × AuthState)
unfolding replace_current
rotate digest worker_id secret now s =
    if is_short secret
    then none
    else let (version, credentials) = replace_current worker_id (digest secret) now s.credentials in
      some (version, record s { credentials = credentials })

-- `revoke`, of a version or else of the current one
unfoldable pub revoke : String → Option ℕ → ℕ → AuthState → Option AuthState
unfolding get_credential current revoke_key
revoke worker_id version now s =
    let found : Option Credential = elim version [
      | none ↦ current worker_id s.credentials
      | some v ↦ get_credential worker_id v s.credentials
    ] in
    elim found [
      | none ↦ none
      | some c ↦ some (record s { credentials = revoke_key worker_id c.version now s.credentials })
    ]

abbrev pub revoked_of : String → ℕ → Credential → Credential
revoked_of worker_id now c = if str_eq c.worker_id worker_id && c.active then revoked now c else c

-- `revoke_all`: how many it revokes, and the state
unfoldable pub revoke_all : String → ℕ → AuthState → ℕ × AuthState
revoke_all worker_id now s = (
  length (keep_if (λ c. str_eq c.worker_id worker_id && c.active) s.credentials),
  record s { credentials = map (revoked_of worker_id now) s.credentials },
)
