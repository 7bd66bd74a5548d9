-- ===== src/WorkerAuth/Retry.antt =====
-- An enrollment can be completed once, by one attempt, and its answer can be asked for again; a
-- worker whose credentials are all revoked is locked out.
use docker_volume_backup.Base.{
  ℕ, String, Bool, true, false, none, some, List, [], ◌∷◌, Dict, ◌≡◌, arith, map, get, get-put,
  str_eq_refl, Option-cases, inl, inr,
}
use docker_volume_backup.WorkerAuth.Defs.{
  Credential, Enrollment, EnrollmentAttempt, AuthState, get_credential,
}
use docker_volume_backup.WorkerAuth.Credentials.{
  Request, authenticate, replace_current, revoked_of, revoke_all,
}
use docker_volume_backup.WorkerAuth.Enrollments.{
  Completion, enroll, replay_attempt, complete_v2, labels_or,
}

module _ (digest : String → String) where
  again_enrolled :
      (d attempt_id credential_digest : String) (labels : Dict String) (e : Enrollment) (now : ℕ)
      (s : AuthState)
      → let done = enroll d attempt_id credential_digest labels e now s in
        (a : EnrollmentAttempt) × (get d done.1.attempts ≡ some a)
        × (replay_attempt a attempt_id credential_digest d done.1 ≡ some done.0)
  unfolding enroll replay_attempt
  again_enrolled d attempt_id credential_digest labels e now s =
      let (version, credentials) =
        replace_current e.worker_id credential_digest now s.credentials in
      let a : EnrollmentAttempt = record {
        secret_digest = d;
        attempt_id = attempt_id;
        credential_digest = credential_digest;
        worker_id = e.worker_id;
        credential_version = version;
        labels = labels_or labels e.labels;
      } in
      (
        a,
        ground (arith, get-put d d a s.attempts, str_eq_refl d),
        ground (
          arith,
          get-put d d (record e { used = true }) s.enrollments,
          str_eq_refl d,
          str_eq_refl attempt_id,
          str_eq_refl credential_digest,
        ),
      )

  -- A worker that did not hear the answer of its enrollment asks again, at any time and under any
  -- labels, and gets the same answer; the state does not change.
  pub retry_is_answered_alike :
      (secret attempt_id credential_secret : String) (labels labels' : Dict String) (now later : ℕ)
      (c : Completion) (s s' : AuthState)
      → complete_v2 digest secret attempt_id credential_secret labels now s ≡ some (c, s')
      → complete_v2 digest secret attempt_id credential_secret labels' later s' ≡ some (c, s')
  unfolding complete_v2
  retry_is_answered_alike secret attempt_id credential_secret labels labels' now later c s s' done =
      elim (Option-cases (get (digest secret) s.attempts)) [
        | inr (a, again) ↦
            elim (Option-cases
              (replay_attempt a attempt_id (digest credential_secret) (digest secret) s)) [
                | inl bad ↦ ground arith
                | inr (r, good) ↦ ground arith
              ]
        | inl first ↦ elim (Option-cases (get (digest secret) s.enrollments)) [
          | inl absent ↦ ground arith
          | inr (e, found) ↦
              let (a, kept, same) =
                again_enrolled (digest secret) attempt_id (digest credential_secret) labels e now
                  s in
              ground arith
        ]
      ]

-- No credential of the worker is active.
revoked_credential :
    (worker_id : String) (version now : ℕ) (credentials : List Credential) (c : Credential)
    → get_credential worker_id version (map (revoked_of worker_id now) credentials) ≡ some c
    → c.active ≡ false
unfolding get_credential
revoked_credential worker_id version now [] c h = ground arith
revoked_credential worker_id version now (d ∷ credentials) c h =
    ground (arith, revoked_credential worker_id version now credentials c)

-- After `revoke_all` no request of the worker is accepted, under any version and at any time.
pub revoke_all_locks_out :
    (verify : String → String → ℕ → Request → Bool) (worker_id : String) (request : Request)
    (now later : ℕ) (s : AuthState)
    → authenticate verify worker_id request later (revoke_all worker_id now s).1 ≡ none
unfolding authenticate revoke_all
revoke_all_locks_out verify worker_id request now later s = elim (Option-cases request.version) [
  | inl absent ↦ ground arith
  | inr (version, v) ↦
      elim (Option-cases
        (get_credential worker_id version (map (revoked_of worker_id now) s.credentials))) [
          | inl absent ↦ ground arith
          | inr (c, found) ↦
              ground (arith, revoked_credential worker_id version now s.credentials c found)
        ]
]
