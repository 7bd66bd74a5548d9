-- ===== src/WorkerAuth/Enrollments.antt =====
-- `create_enrollment`, `complete`, `complete_v2` and `delete_worker`.
use docker_volume_backup.Base.{
  ℕ, ◌+◌, ◌*◌, ◌==◌, leb, ltb, String, Bool, true, false, not, ◌&&◌, ◌||◌, Option, none, some, [],
  ◌∷◌, Dict, get, put, keep_if, length, str_eq, codes, all_of, is_digit, text_length, ℤ, pos,
  pos_part, leb_ℤ, ◌>>=◌, if◌then◌else◌,
}
use docker_volume_backup.WorkerAuth.Defs.{
  Enrollment, EnrollmentAttempt, AuthState, current, save_credential,
}
use docker_volume_backup.WorkerAuth.Credentials.{
  is_short, new_credential, retire, replace_current, microseconds,
}

-- The enrollments without those of the worker that are not used, where `replace_pending` asks for it.
abbrev pub without_pending : Bool → String → Dict Enrollment → Dict Enrollment
without_pending false worker_id enrollments = enrollments
without_pending true worker_id enrollments =
    keep_if (λ (k, e). not (str_eq e.worker_id worker_id && not e.used)) enrollments

-- `create_enrollment`; `worker_id` is the argument of that name or a new uuid.
unfoldable pub create_enrollment :
    (String → String)
    → String
    → String
    → Dict String
    → String
    → String
    → ℤ
    → Bool
    → ℕ
    → AuthState
    → Option (Enrollment × AuthState)
create_enrollment digest name host_name labels secret worker_id ttl_minutes replace_pending now s =
    if leb_ℤ ttl_minutes (pos 0) || is_short secret
    then none
    else let e : Enrollment = record {
      worker_id = worker_id;
      secret_digest = digest secret;
      name = name;
      host_name = host_name;
      labels = labels;
      expires_at = now + pos_part ttl_minutes * 60 * microseconds;
      used = false;
    } in
      some (
        e,
        record s {
          enrollments =
              put e.secret_digest e (without_pending replace_pending worker_id s.enrollments);
        },
      )

-- What a completion answers.
pub record Completion : Type 0 where
  pub worker_id : String
  pub credential_version : ℕ
  pub name : String
  pub host_name : String
  pub labels : Dict String

-- `labels or e.labels`
abbrev pub labels_or : Dict String → Dict String → Dict String
labels_or [] old = old
labels_or (label ∷ labels) old = label ∷ labels

-- `e.used or e.expires_at < utcnow()`
abbrev pub is_spent : ℕ → Enrollment → Bool
is_spent now e = e.used || ltb e.expires_at now

abbrev pub completion : Enrollment → ℕ → Dict String → Completion
completion e version labels = record {
  worker_id = e.worker_id;
  credential_version = version;
  name = e.name;
  host_name = e.host_name;
  labels = labels;
}

-- `complete`; its `version` is given where the worker has no current credential.
unfoldable pub complete :
    (String → String) → String → ℕ → Dict String → ℕ → AuthState → Option (Completion × AuthState)
unfolding retire current save_credential
complete digest secret version labels now s = elim (get (digest secret) s.enrollments) [
  | none ↦ none
  | some e ↦
      let (next, retired) = retire e.worker_id now s.credentials in
      let given = elim (current e.worker_id s.credentials) as (λ _. ℕ) [
        | none ↦ version
        | some _ ↦ next
      ] in
      if is_spent now e
      then none
      else some (
        completion e given (labels_or labels e.labels),
        record s {
          credentials = save_credential (new_credential e.worker_id given e.secret_digest) retired;
          enrollments = put e.secret_digest (record e { used = true }) s.enrollments;
        },
      )
]

-- `_complete_v2_memory` after its enrollment is found good
unfoldable pub enroll :
    String → String → String → Dict String → Enrollment → ℕ → AuthState → Completion × AuthState
unfolding replace_current
enroll enrollment_digest attempt_id credential_digest labels e now s =
    let (version, credentials) = replace_current e.worker_id credential_digest now s.credentials in
    let result = labels_or labels e.labels in
    let attempt : EnrollmentAttempt = record {
      secret_digest = enrollment_digest;
      attempt_id = attempt_id;
      credential_digest = credential_digest;
      worker_id = e.worker_id;
      credential_version = version;
      labels = result;
    } in
    (
      completion e version result,
      record s {
        credentials = credentials;
        enrollments = put enrollment_digest (record e { used = true }) s.enrollments;
        attempts = put enrollment_digest attempt s.attempts;
      },
    )

-- `_replay_v2_attempt`
unfoldable pub replay_attempt :
    EnrollmentAttempt → String → String → String → AuthState → Option Completion
replay_attempt existing attempt_id credential_digest enrollment_digest s =
    if not (str_eq existing.attempt_id attempt_id)
      || not (str_eq existing.credential_digest credential_digest)
    then none
    else elim (get enrollment_digest s.enrollments) [
      | none ↦ none
      | some e ↦ some (record {
        worker_id = existing.worker_id;
        credential_version = existing.credential_version;
        name = e.name;
        host_name = e.host_name;
        labels = existing.labels;
      })
    ]

-- `_ATTEMPT_ID_RE`
abbrev pub is_attempt_id : String → Bool
is_attempt_id id =
    leb 12 (text_length id)
    && (leb (text_length id) 128
        && all_of
            (λ c.
              is_digit c
              || ((leb b'a' c && leb c b'z')
                  || ((leb b'A' c && leb c b'Z')
                      || (c == b'.' || (c == b'_' || (c == b':' || c == b'-'))))))
            (codes id))

-- `complete_v2`
unfoldable pub complete_v2 :
    (String → String)
    → String
    → String
    → String
    → Dict String
    → ℕ
    → AuthState
    → Option (Completion × AuthState)
unfolding enroll replay_attempt
complete_v2 digest secret attempt_id credential_secret labels now s =
    if is_short secret || (not (is_attempt_id attempt_id) || is_short credential_secret)
    then none
    else elim (get (digest secret) s.attempts) [
      | some existing ↦
          replay_attempt existing attempt_id (digest credential_secret) (digest secret) s >>= λ c.
          some (c, s)
      | none ↦ elim (get (digest secret) s.enrollments) [
        | none ↦ none
        | some e ↦
            if is_spent now e
            then none
            else some (enroll (digest secret) attempt_id (digest credential_secret) labels e now s)
      ]
    ]

-- The enrollment under the digest is the worker's.
abbrev pub is_enrolled_for : String → Option Enrollment → Bool
is_enrolled_for worker_id none = false
is_enrolled_for worker_id (some e) = str_eq e.worker_id worker_id

-- `delete_worker`: how many credentials it removes, and the state
unfoldable pub delete_worker : String → AuthState → ℕ × AuthState
delete_worker worker_id s = (
  length (keep_if (λ c. str_eq c.worker_id worker_id) s.credentials),
  record s {
    credentials = keep_if (λ c. not (str_eq c.worker_id worker_id)) s.credentials;
    nonces = keep_if (λ n. not (str_eq n.worker_id worker_id)) s.nonces;
    enrollments = keep_if (λ (k, e). not (str_eq e.worker_id worker_id)) s.enrollments;
    attempts = keep_if (λ (k, a). not (is_enrolled_for worker_id (get k s.enrollments))) s.attempts;
  },
)
