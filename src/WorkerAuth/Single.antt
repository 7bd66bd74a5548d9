-- ===== src/WorkerAuth/Single.antt =====
-- A worker has at most one active credential.
use docker_volume_backup.Base.{
  ℕ, suc, ◌≤◌, ◌<◌, String, Bool, true, not, Option, none, some, List, [], ◌∷◌, Dict, ◌≡◌, refl,
  arith, map, keep_if, ℤ, str_eq, str_eq_iff, Option-cases, inl, inr, if◌then◌else◌, get,
}
use docker_volume_backup.WorkerAuth.Defs.{
  Credential, Enrollment, AuthState, get_credential, save_credential, is_active_of, current,
  revoke_key,
}
use docker_volume_backup.WorkerAuth.Credentials.{
  Request, authenticate, new_credential, retire, replace_current, rotate, revoke, revoked_of,
  revoke_all,
}
use docker_volume_backup.WorkerAuth.Enrollments.{
  Completion, create_enrollment, complete, enroll, replay_attempt, complete_v2, delete_worker,
}

-- How many active credentials the worker has.
abbrev pub active_count : String → List Credential → ℕ
active_count worker_id [] = 0
active_count worker_id (c ∷ credentials) =
    if is_active_of worker_id c
    then suc (active_count worker_id credentials)
    else active_count worker_id credentials

abbrev pub IsSingle : List Credential → Type 0
IsSingle credentials = (worker_id : String) → active_count worker_id credentials ≤ 1

-- A save adds at most one active credential, of the worker that it names.
save_count :
    (worker_id : String) (c : Credential) (credentials : List Credential)
    → active_count worker_id (save_credential c credentials) ≤ (
        if is_active_of worker_id c
        then suc (active_count worker_id credentials)
        else active_count worker_id credentials)
unfolding save_credential
save_count worker_id c [] = ground arith
save_count worker_id c (d ∷ credentials) = ground (arith, save_count worker_id c credentials)

-- A revocation adds none.
revoke_count :
    (worker_id k : String) (version now : ℕ) (credentials : List Credential)
    → active_count worker_id (revoke_key k version now credentials)
      ≤ active_count worker_id credentials
unfolding revoke_key
revoke_count worker_id k version now [] = omega arith
revoke_count worker_id k version now (c ∷ credentials) =
    ground (arith, revoke_count worker_id k version now credentials)

no_current :
    (worker_id : String) (credentials : List Credential)
    → current worker_id credentials ≡ none
    → active_count worker_id credentials ≡ 0
unfolding current
no_current worker_id [] h = refl
no_current worker_id (c ∷ credentials) h = elim (Option-cases (current worker_id credentials)) [
  | inl rest ↦ ground (arith, no_current worker_id credentials)
  | inr (d, rest) ↦ ground arith
]

-- Revoking the current credential leaves fewer active ones.
current_count :
    (worker_id : String) (now : ℕ) (credentials : List Credential) (c : Credential)
    → current worker_id credentials ≡ some c
    → active_count worker_id (revoke_key worker_id c.version now credentials)
      < active_count worker_id credentials
unfolding current revoke_key
current_count worker_id now [] c h = ground arith
current_count worker_id now (d ∷ credentials) c h =
    elim (Option-cases (current worker_id credentials)) [
      | inl rest ↦ ground (arith, revoke_count worker_id worker_id c.version now credentials)
      | inr (e, rest) ↦ ground (
        arith,
        revoke_count worker_id worker_id c.version now credentials,
        current_count worker_id now credentials c,
      )
    ]

retire_count :
    (worker_id k : String) (now : ℕ) (credentials : List Credential)
    → IsSingle credentials
    → active_count worker_id (retire k now credentials).1 ≤ (if str_eq worker_id k then 0 else 1)
unfolding retire
retire_count worker_id k now credentials single = elim (Option-cases (current k credentials)) [
  | inl e ↦ ground (arith, no_current k credentials, single worker_id, str_eq_iff worker_id k)
  | inr (c, e) ↦ ground (
    arith,
    current_count k now credentials c,
    revoke_count worker_id k c.version now credentials,
    single worker_id,
    single k,
    str_eq_iff worker_id k,
  )
]

replace_current-IsSingle :
    (k secret_digest : String) (version now : ℕ) (credentials : List Credential)
    → IsSingle credentials
    → IsSingle
        (save_credential (new_credential k version secret_digest) (retire k now credentials).1)
replace_current-IsSingle k secret_digest version now credentials single worker_id = ground (
  arith,
  save_count worker_id (new_credential k version secret_digest) (retire k now credentials).1,
  retire_count worker_id k now credentials single,
  str_eq_iff worker_id k,
  str_eq_iff k worker_id,
)

keep_count :
    (worker_id : String) (p : Credential → Bool) (credentials : List Credential)
    → active_count worker_id (keep_if p credentials) ≤ active_count worker_id credentials
keep_count worker_id p [] = omega arith
keep_count worker_id p (c ∷ credentials) = ground (arith, keep_count worker_id p credentials)

revoke_all_count :
    (worker_id k : String) (now : ℕ) (credentials : List Credential)
    → active_count worker_id (map (revoked_of k now) credentials)
      ≤ active_count worker_id credentials
revoke_all_count worker_id k now [] = omega arith
revoke_all_count worker_id k now (c ∷ credentials) =
    ground (arith, revoke_all_count worker_id k now credentials)

module _ (digest : String → String) (verify : String → String → ℕ → Request → Bool)
    (deletable : String → Bool) where
  -- One call that is answered; a call that raises leaves the state as it is.
  pub data Call (s : AuthState) : AuthState → Type 0 where
    creates :
        (name host_name : String) (labels : Dict String) (secret worker_id : String)
        (ttl_minutes : ℤ) (replace_pending : Bool) (now : ℕ) {e : Enrollment} {s' : AuthState}
        → create_enrollment digest name host_name labels secret worker_id ttl_minutes
            replace_pending now s
          ≡ some (e, s')
        → Call s s'
    completes :
        (secret : String) (version : ℕ) (labels : Dict String) (now : ℕ) {c : Completion}
        {s' : AuthState}
        → complete digest secret version labels now s ≡ some (c, s')
        → Call s s'
    completes_v2 :
        (secret attempt_id credential_secret : String) (labels : Dict String) (now : ℕ)
        {c : Completion} {s' : AuthState}
        → complete_v2 digest secret attempt_id credential_secret labels now s ≡ some (c, s')
        → Call s s'
    authenticates :
        (worker_id : String) (request : Request) (now : ℕ) {s' : AuthState}
        → authenticate verify worker_id request now s ≡ some s'
        → Call s s'
    rotates :
        (worker_id secret : String) (now : ℕ) {version : ℕ} {s' : AuthState}
        → rotate digest worker_id secret now s ≡ some (version, s')
        → Call s s'
    revokes :
        (worker_id : String) (version : Option ℕ) (now : ℕ) {s' : AuthState}
        → revoke worker_id version now s ≡ some s'
        → Call s s'
    revokes_all :
        (worker_id : String) (now : ℕ) {s' : AuthState}
        → (revoke_all worker_id now s).1 ≡ s'
        → Call s s'
    deletes :
        (worker_id : String) {s' : AuthState}
        → deletable worker_id ≡ true
        → (delete_worker worker_id s).1 ≡ s'
        → Call s s'

  pub data History (s : AuthState) : AuthState → Type 0 where
    start : History s s
    then_call : {s' s'' : AuthState} → History s s' → Call s' s'' → History s s''

  Call-IsSingle : {s s' : AuthState} → IsSingle s.credentials → Call s s' → IsSingle s'.credentials
  unfolding create_enrollment complete complete_v2 enroll replace_current authenticate rotate revoke
      revoke_all delete_worker
  Call-IsSingle {s} single
        (creates name host_name labels secret worker_id ttl_minutes replace_pending now e) k =
      ground (arith, single k)
  Call-IsSingle {s} single (completes secret version labels now e) k =
      elim (Option-cases (get (digest secret) s.enrollments)) [
        | inl absent ↦ ground arith
        | inr (en, found) ↦ elim (Option-cases (current en.worker_id s.credentials)) [
          | inl first ↦ ground (
            arith,
            replace_current-IsSingle en.worker_id en.secret_digest version now s.credentials single
                k,
          )
          | inr (c, old) ↦ ground (
            arith,
            replace_current-IsSingle en.worker_id en.secret_digest
                (retire en.worker_id now s.credentials).0 now s.credentials single k,
          )
        ]
      ]
  Call-IsSingle {s} single (completes_v2 secret attempt_id credential_secret labels now e) k =
      elim (Option-cases (get (digest secret) s.attempts)) [
        | inr (a, again) ↦
            elim (Option-cases
              (replay_attempt a attempt_id (digest credential_secret) (digest secret) s)) [
                | inl bad ↦ ground (arith, single k)
                | inr (r, good) ↦ ground (arith, single k)
              ]
        | inl first ↦ elim (Option-cases (get (digest secret) s.enrollments)) [
          | inl absent ↦ ground arith
          | inr (en, found) ↦ ground (
            arith,
            replace_current-IsSingle en.worker_id (digest credential_secret)
                (retire en.worker_id now s.credentials).0 now s.credentials single k,
          )
        ]
      ]
  Call-IsSingle {s} single (authenticates worker_id request now e) k = ground (arith, single k)
  Call-IsSingle {s} single (rotates worker_id secret now e) k = ground (
    arith,
    replace_current-IsSingle worker_id (digest secret) (retire worker_id now s.credentials).0 now
        s.credentials single k,
  )
  Call-IsSingle {s} single (revokes worker_id none now e) k =
      elim (Option-cases (current worker_id s.credentials)) [
        | inl absent ↦ ground arith
        | inr (c, found) ↦
            ground (arith, single k, revoke_count k worker_id c.version now s.credentials)
      ]
  Call-IsSingle {s} single (revokes worker_id (some v) now e) k =
      elim (Option-cases (get_credential worker_id v s.credentials)) [
        | inl absent ↦ ground arith
        | inr (c, found) ↦
            ground (arith, single k, revoke_count k worker_id c.version now s.credentials)
      ]
  Call-IsSingle {s} single (revokes_all worker_id now e) k =
      rw (← e) (ground (arith, single k, revoke_all_count k worker_id now s.credentials))
  Call-IsSingle {s} single (deletes worker_id allowed e) k = rw (← e) (
      ground
        (arith, single k, keep_count k (λ c. not (str_eq c.worker_id worker_id)) s.credentials))

  -- From a state in which no worker has two active credentials, whatever calls follow, no worker has
  -- two, under any digest and any check of signatures.
  pub History-IsSingle :
      (s s' : AuthState) → IsSingle s.credentials → History s s' → IsSingle s'.credentials
  History-IsSingle s s' single start = single
  History-IsSingle s s'' single (then_call {s' = s'} h c) =
      Call-IsSingle (History-IsSingle s s' single h) c
