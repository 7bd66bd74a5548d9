-- ===== src/WorkerAuth/Replay.antt =====
-- A signed request is accepted once.
use docker_volume_backup.Base.{
  ℕ, String, Bool, true, false, not, none, some, List, [], ◌∷◌, ◌≡◌, arith, keep_if, str_eq,
  str_eq_iff, str_eq_refl, Option-cases, inl, inr, get,
}
use docker_volume_backup.WorkerAuth.Defs.{Nonce, AuthState, is_seen}
use docker_volume_backup.WorkerAuth.Credentials.{Request, authenticate, rotate, revoke, revoke_all}
use docker_volume_backup.WorkerAuth.Enrollments.{
  create_enrollment, complete, enroll, complete_v2, replay_attempt, delete_worker,
}
use docker_volume_backup.WorkerAuth.Single.{
  Call, creates, completes, completes_v2, authenticates, rotates, revokes, revokes_all, deletes,
  History, start, then_call,
}

-- Removing the nonces of another worker leaves this one's.
seen_kept :
    (worker_id k nonce : String) (version : ℕ) (nonces : List Nonce)
    → str_eq worker_id k ≡ false
    → is_seen worker_id version nonce nonces ≡ true
    → is_seen worker_id version nonce (keep_if (λ n. not (str_eq n.worker_id k)) nonces) ≡ true
unfolding is_seen
seen_kept worker_id k nonce version [] h seen = seen
seen_kept worker_id k nonce version (n ∷ nonces) h seen =
    ground (arith, str_eq_iff n.worker_id worker_id, seen_kept worker_id k nonce version nonces h)

module _ (digest : String → String) (verify : String → String → ℕ → Request → Bool) where
  Call-is_seen :
      (worker_id nonce : String) (version : ℕ) {s s' : AuthState}
      → is_seen worker_id version nonce s.nonces ≡ true
      → Call digest verify (λ k. not (str_eq worker_id k)) s s'
      → is_seen worker_id version nonce s'.nonces ≡ true
  unfolding create_enrollment complete complete_v2 enroll authenticate rotate revoke revoke_all
      delete_worker is_seen
  Call-is_seen worker_id nonce version seen
        (creates name host_name labels secret k ttl_minutes replace_pending now e) =
      ground arith
  Call-is_seen worker_id nonce version {s} seen (completes secret v labels now e) =
      elim (Option-cases (get (digest secret) s.enrollments)) [
        | inl absent ↦ ground arith
        | inr (en, found) ↦ ground arith
      ]
  Call-is_seen worker_id nonce version {s} seen
        (completes_v2 secret attempt_id credential_secret labels now e) =
      elim (Option-cases (get (digest secret) s.attempts)) [
        | inr (a, again) ↦
            elim (Option-cases
              (replay_attempt a attempt_id (digest credential_secret) (digest secret) s)) [
                | inl bad ↦ ground arith
                | inr (r, good) ↦ ground arith
              ]
        | inl first ↦ ground arith
      ]
  Call-is_seen worker_id nonce version seen (authenticates k request now e) = ground arith
  Call-is_seen worker_id nonce version seen (rotates k secret now e) = ground arith
  Call-is_seen worker_id nonce version {s} seen (revokes k none now e) = ground arith
  Call-is_seen worker_id nonce version {s} seen (revokes k (some v) now e) = ground arith
  Call-is_seen worker_id nonce version seen (revokes_all k now e) = rw (← e) seen
  Call-is_seen worker_id nonce version {s} seen (deletes k allowed e) =
      rw (← e) (seen_kept worker_id k nonce version s.nonces (ground arith) seen)

  History-is_seen :
      (worker_id nonce : String) (version : ℕ) {s s' : AuthState}
      → is_seen worker_id version nonce s.nonces ≡ true
      → History digest verify (λ k. not (str_eq worker_id k)) s s'
      → is_seen worker_id version nonce s'.nonces ≡ true
  History-is_seen worker_id nonce version seen start = seen
  History-is_seen worker_id nonce version seen (then_call h c) =
      Call-is_seen worker_id nonce version (History-is_seen worker_id nonce version seen h) c

  accepted_is_seen :
      (worker_id : String) (request : Request) (version now : ℕ) (s s' : AuthState)
      → request.version ≡ some version
      → authenticate verify worker_id request now s ≡ some s'
      → is_seen worker_id version request.nonce s'.nonces ≡ true
  unfolding authenticate is_seen
  accepted_is_seen worker_id request version now s s' v accepted =
      ground (arith, str_eq_refl worker_id, str_eq_refl request.nonce)

  -- A request that was accepted is never accepted again, nor is any other of the same worker under
  -- the same version and nonce, whatever calls come between, unless the worker was deleted.
  pub replay_is_refused :
      (worker_id : String) (request again : Request) (version now later : ℕ) (s s' s'' : AuthState)
      → request.version ≡ some version
      → again.version ≡ some version
      → again.nonce ≡ request.nonce
      → authenticate verify worker_id request now s ≡ some s'
      → History digest verify (λ k. not (str_eq worker_id k)) s' s''
      → authenticate verify worker_id again later s'' ≡ none
  unfolding authenticate
  replay_is_refused worker_id request again version now later s s' s'' v v' same accepted h =
      ground (
        arith,
        History-is_seen worker_id request.nonce version
            (accepted_is_seen worker_id request version now s s' v accepted) h,
      )
