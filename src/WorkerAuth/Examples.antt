-- ===== src/WorkerAuth/Examples.antt =====
-- Enrollment and authentication of a concrete worker.
use docker_volume_backup.Base.{
  ℕ, String, Bool, true, false, Option, none, some, [], ◌∷◌, ◌≡◌, refl, arith, pos, str_eq,
  parse_int, strip,
}
use docker_volume_backup.WorkerAuth.Defs.{AuthState, current, save_credential, revoke_key}
use docker_volume_backup.WorkerAuth.Credentials.{Request, authenticate, rotate, revoke_all}
use docker_volume_backup.WorkerAuth.Enrollments.{Completion, create_enrollment, complete_v2}
use docker_volume_backup.WorkerAuth.Single.{
  IsSingle, completes_v2, rotates, authenticates, start, then_call, History-IsSingle,
}
use docker_volume_backup.WorkerAuth.Replay.{replay_is_refused}
use docker_volume_backup.WorkerAuth.Retry.{retry_is_answered_alike, revoke_all_locks_out}

abbrev digest : String → String
digest secret = secret

abbrev verify : String → String → ℕ → Request → Bool
verify secret_digest worker_id version request = str_eq request.signature secret_digest

abbrev enrollment_secret : String
enrollment_secret = "an enrollment secret of 32 bytes"

abbrev credential_secret : String
credential_secret = "a credential secret of 32 bytes!"

abbrev empty_state : AuthState
empty_state = record { credentials = []; nonces = []; enrollments = []; attempts = [] }

abbrev state_of : {A : Type 0} → Option (A × AuthState) → AuthState
state_of none = empty_state
state_of (some (a, s)) = s

abbrev invited : AuthState
invited = state_of (
    create_enrollment digest "nas" "nas.local" [] enrollment_secret "w1" (pos 30) false 1000000
      empty_state)

abbrev answer : Completion
answer = record {
  worker_id = "w1";
  credential_version = 1;
  name = "nas";
  host_name = "nas.local";
  labels = [];
}

abbrev enrolled : AuthState
enrolled =
    state_of
      (complete_v2 digest enrollment_secret "attempt-0001" credential_secret [] 2000000 invited)

enrolls :
    complete_v2 digest enrollment_secret "attempt-0001" credential_secret [] 2000000 invited
    ≡ some (answer, enrolled)
unfolding create_enrollment complete_v2 current save_credential str_eq
enrolls = refl

retry_is_answered_alike_example :
    complete_v2 digest enrollment_secret "attempt-0001" credential_secret [] 9000000 enrolled
    ≡ some (answer, enrolled)
retry_is_answered_alike_example =
    retry_is_answered_alike digest enrollment_secret "attempt-0001" credential_secret [] [] 2000000
      9000000 answer invited enrolled enrolls

abbrev request : Request
request = record {
  method = "GET";
  path = "/jobs";
  body = "";
  timestamp = "3";
  nonce = "n1";
  signed_worker_id = "w1";
  version = some 1;
  signature = credential_secret;
}

abbrev heard : AuthState
heard = record enrolled { nonces = record { worker_id = "w1"; version = 1; nonce = "n1" } ∷ [] }

accepts : authenticate verify "w1" request 3000000 enrolled ≡ some heard
unfolding create_enrollment complete_v2 authenticate current save_credential str_eq strip parse_int
accepts = refl

abbrev rotated : AuthState
rotated = state_of (rotate digest "w1" enrollment_secret 4000000 heard)

rotates-heard : rotate digest "w1" enrollment_secret 4000000 heard ≡ some (2, rotated)
unfolding create_enrollment complete_v2 rotate current revoke_key save_credential str_eq
rotates-heard = refl

replay_is_refused_example : authenticate verify "w1" request 5000000 rotated ≡ none
replay_is_refused_example =
    replay_is_refused digest verify "w1" request request 1 3000000 5000000 enrolled heard rotated
      refl refl refl accepts
      (then_call start (rotates "w1" enrollment_secret 4000000 rotates-heard))

revoke_all_locks_out_example :
    authenticate verify "w1" request 5000000 (revoke_all "w1" 4000000 enrolled).1 ≡ none
revoke_all_locks_out_example = revoke_all_locks_out verify "w1" request 4000000 5000000 enrolled

History-IsSingle_example : IsSingle rotated.credentials
unfolding create_enrollment
History-IsSingle_example =
    History-IsSingle digest verify (λ k. true) invited rotated (λ worker_id. omega arith)
      (then_call
        (then_call
          (then_call start
            (completes_v2 enrollment_secret "attempt-0001" credential_secret [] 2000000 enrolls))
          (authenticates "w1" request 3000000 accepts))
        (rotates "w1" enrollment_secret 4000000 rotates-heard))
