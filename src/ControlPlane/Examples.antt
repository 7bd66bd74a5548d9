-- ===== src/ControlPlane/Examples.antt =====
-- The control plane at concrete workers, targets and jobs: the theorems at inputs that meet their
-- hypotheses.
use docker_volume_backup.Base.{
  ◌⊎◌, ◌&&◌, if◌then◌else◌, pos, false, true, any_of, values, get, ℕ, String, Bool, Option, none,
  some, [], ◌∷◌, ◌≡◌, refl, arith, str_eq,
}
use docker_volume_backup.Json.{Fields, empty}
use docker_volume_backup.Jobs.{JobStatus, normalize, JobRecord, reconcile_expired_leases}
use docker_volume_backup.Jobs.Grants.{Holds}
use docker_volume_backup.Jobs.Invariant.{IsValid}
use docker_volume_backup.Jobs.Lifecycle.{Moves}
use docker_volume_backup.ControlPlane.Defs.{
  WorkerStatus, WorkerRecord, BackupTargetRecord, ControlPlane, worker_not_eligible,
  worker_is_disabled, sync_failed, credential_not_found, ok, err, is_ok,
}
use docker_volume_backup.ControlPlane.Workers.{
  heartbeat, every_version, numbered, save_worker, revoke_credentials, revoke_worker,
}
use docker_volume_backup.WorkerAuth.{Credential, AuthState, get_credential, revoke}
use docker_volume_backup.ControlPlane.Dispatch.{dispatch_job}
use docker_volume_backup.ControlPlane.Leases.{
  Texts, reconcile_expired_jobs, fetch_jobs_for_worker, renew_job_lease,
}
use docker_volume_backup.ControlPlane.Completion.{
  is_outcome, update_job_status, cancel_job, completion_refusal, completed_job, canceled_job,
}
use docker_volume_backup.ControlPlane.Progress.{update_job_progress, record_job_lease_diagnostic}
use docker_volume_backup.ControlPlane.Deletion.{delete_worker, is_active_job_of}
use docker_volume_backup.ControlPlane.Calls.{
  start, then_call, progresses, fetches, cancels, History-Moves,
}
use docker_volume_backup.ControlPlane.Completed.{
  completion_needs_lease, is_sync_failed, refused_completion_lem,
}
use docker_volume_backup.ControlPlane.Revoking.{
  credentials_of, names_some, is_named, revoke_worker_lem,
}
use docker_volume_backup.ControlPlane.Outcomes.{progress_needs_lease, canceled_is_final}
use docker_volume_backup.ControlPlane.Revocation.{
  delete_worker_lem, IsDisabled, all_disabled, IsDisabled-worker_gets_nothing,
}

abbrev texts : Texts
texts = record {
  lease_context = λ job context now. empty;
  completed = λ job summary context now. summary;
  bounded_lines = λ job lines. lines;
  mentions_pruning = λ job. false;
}

abbrev no_payload : BackupTargetRecord → Option Fields
no_payload target = none

abbrev synced : JobRecord → Bool
synced job = true

abbrev worker : WorkerRecord
worker = record {
  name = "nas";
  host_name = "nas.local";
  version = "1.0";
  labels = [];
  id = "w1";
  status = WorkerStatus.online;
  created_at = 1;
  updated_at = 1;
  last_seen_at = some 1;
}

abbrev running : JobRecord
running = record {
  worker_id = "w1";
  command = "restore.run";
  payload = empty;
  requested_by = "ui";
  target_id = none;
  trigger = "manual";
  id = "j1";
  status = JobStatus.in_progress;
  owner_worker_id = some "w1";
  lease_token = some "token";
  lease_issued_at = some 5;
  lease_expires_at = some 300000005;
  attempt_count = 1;
  result_summary = none;
  log_lines = [];
  submitted_at = 1;
  started_at = some 5;
  finished_at = none;
  updated_at = 5;
}

abbrev state : ControlPlane
state = record {
  workers = ("w1", worker) ∷ [];
  targets = [];
  jobs = ("j1", running) ∷ [];
  published = [];
}

abbrev stream : ℕ → String
stream n = "fresh"

state-IsValid : IsValid state.jobs
unfolding str_eq
state-IsValid = ground arith

abbrev finished : JobRecord
finished = record running {
  status = JobStatus.succeeded;
  updated_at = 100;
  result_summary = some empty;
  finished_at = some 100;
}

completion_needs_lease_example :
    let s' =
      (update_job_status 90 texts no_payload synced "w1" "j1" JobStatus.succeeded
        (some empty)
        []
        "token"
        none
        "j2"
        100
        state).1 in
    Holds "w1" "token" 100 running
    × (is_outcome finished.status ≡ true)
    × (get "j1" s'.jobs ≡ some finished)
    × (finished.status ≡ normalize JobStatus.succeeded)
    × (finished.finished_at ≡ some 100)
    × (finished.id ≡ running.id)
unfolding update_job_status completion_refusal completed_job str_eq
completion_needs_lease_example =
    completion_needs_lease 90 texts no_payload synced "w1" "j1" JobStatus.succeeded (some empty) []
      "token" none "j2" 100 state running finished state-IsValid refl refl refl

abbrev unsynced : JobRecord → Bool
unsynced job = false

-- The catalogue cannot be synced, and yet the job has succeeded.
refused_completion_lem_example :
    let s' =
      (update_job_status 90 texts no_payload unsynced "w1" "j1" JobStatus.succeeded
        (some empty)
        []
        "token"
        none
        "j2"
        100
        state).1 in
    ((s' ≡ state) × (is_sync_failed sync_failed ≡ false))
    ⊎ ((sync_failed ≡ sync_failed)
        × (job : JobRecord) × (job' : JobRecord) × (get "j1" state.jobs ≡ some job)
        × Holds "w1" "token" 100 job
        × (get "j1" s'.jobs ≡ (if str_eq "j1" "j1" then some job' else get "j1" state.jobs))
        × (job'.status ≡ JobStatus.succeeded)
        × (job'.finished_at ≡ some 100)
        × (job'.id ≡ job.id)
        × (s'.workers ≡ state.workers)
        × (s'.targets ≡ state.targets)
        × (s'.published ≡ state.published))
unfolding update_job_status completion_refusal str_eq
refused_completion_lem_example =
    refused_completion_lem 90 texts no_payload unsynced "w1" "j1" JobStatus.succeeded (some empty)
      [] "token" none "j2" 100 state sync_failed "j1" refl

abbrev stopped : ControlPlane
stopped = (cancel_job 90 texts "j1" 100 state).1

canceled_is_final_example :
    let completed =
      update_job_status 90 texts no_payload synced "w1" "j1" JobStatus.succeeded none [] "token"
        none "j2" 200 stopped in
    let renewed = renew_job_lease 90 texts "w1" "j1" "token" 200 stopped in
    (is_ok completed.0 ≡ false)
    × (completed.1 ≡ stopped)
    × (is_ok renewed.0 ≡ false)
    × (renewed.1 ≡ stopped)
unfolding cancel_job reconcile_expired_jobs reconcile_expired_leases str_eq
canceled_is_final_example =
    canceled_is_final 90 texts no_payload synced "w1" "j1" JobStatus.succeeded none [] "token" none
      "j2" 100 200 state (canceled_job 100 running) state-IsValid refl

abbrev reported : ControlPlane
reported =
    (update_job_progress 90 texts (λ job. none) "w1" "j1" (some (pos 1, empty, [])) "token"
      (some empty) 100 state).1

abbrev fetched : ControlPlane
fetched = (fetch_jobs_for_worker 90 texts "w1" stream 400000000 reported).1

History-Moves_example : Moves state.jobs (cancel_job 90 texts "j1" 500000000 fetched).1.jobs
History-Moves_example =
    History-Moves 90 texts no_payload state (cancel_job 90 texts "j1" 500000000 fetched).1
      state-IsValid
      (then_call
        (then_call
          (then_call start (
            progresses (λ job. none) "w1" "j1" (some (pos 1, empty, [])) "token" (some empty) 100
              refl))
          (fetches "w1" stream 400000000 refl))
        (cancels "j1" 500000000 refl))

abbrev credential : ℕ → Credential
credential version = record {
  worker_id = "w1";
  version = version;
  secret_digest = "digest";
  active = true;
  revoked_at = none;
}

abbrev auth : Option AuthState
auth = some (record {
  credentials = credential 1 ∷ credential 2 ∷ [];
  nonces = [];
  enrollments = [];
  attempts = [];
})

-- The first credential is revoked; the second is not asked for.
revoke_worker_lem_example :
    let r = revoke_worker "w1" (numbered 1) 100 state auth in
    let before = credentials_of auth in
    ((r ≡ (err credential_not_found, state, auth)) × (names_some "w1" (numbered 1) before ≡ false))
    ⊎ ((worker' : WorkerRecord) × (r.0 ≡ ok worker')
        × IsDisabled "w1" r.1
        × (all_disabled "w1" r.1.targets ≡ true)
        × (any_of (λ c. is_named "w1" (numbered 1) before c && c.active) (credentials_of r.2)
            ≡ false))
unfolding str_eq
revoke_worker_lem_example = revoke_worker_lem "w1" (numbered 1) 100 state auth worker refl refl

unknown_version_raises :
    revoke_worker "w1" (numbered 7) 100 state auth ≡ (err credential_not_found, state, auth)
unfolding revoke_worker revoke_credentials revoke get_credential str_eq
unknown_version_raises = refl

abbrev revoked : ControlPlane
revoked = (revoke_worker "w1" every_version 100 state none).1

revoked-IsDisabled : IsDisabled "w1" revoked
unfolding revoke_worker save_worker str_eq
revoked-IsDisabled =
    (record worker { status = WorkerStatus.disabled; updated_at = 100 }, refl, refl, refl)

IsDisabled-worker_gets_nothing_example :
    IsDisabled "w1" (heartbeat "w1" none none 200 revoked).1
    × (fetch_jobs_for_worker 90 texts "w1" stream 200 revoked ≡ (err worker_not_eligible, revoked))
    × (renew_job_lease 90 texts "w1" "j1" "token" 200 revoked ≡ (err worker_is_disabled, revoked))
    × (dispatch_job 90 "w1" "backup.run" empty "ui" none "manual" "j2" 200 revoked
        ≡ (err worker_not_eligible, revoked))
IsDisabled-worker_gets_nothing_example =
    IsDisabled-worker_gets_nothing 90 texts "w1" none none stream "j1" "token" "backup.run" empty
      "ui" none "manual" "j2" 200 revoked revoked-IsDisabled

-- The token is not the lease's.
progress_needs_lease_example :
    (is_ok
        (update_job_progress 90 texts
          (λ job. none)
          "w1"
          "j1"
          (some (pos 1, empty, []))
          "stale"
          none
          100
          state).0
      ≡ false)
    × ((update_job_progress 90 texts
          (λ job. none)
          "w1"
          "j1"
          (some (pos 1, empty, []))
          "stale"
          none
          100
          state).1
        ≡ state)
    × (is_ok (record_job_lease_diagnostic 90 texts "w1" "j1" "stale" none 100 state).0 ≡ false)
unfolding str_eq
progress_needs_lease_example =
    progress_needs_lease 90 texts (λ job. none) "w1" "j1" (some (pos 1, empty, [])) "stale" none 100
      state running refl refl

-- The job's lease has run out, so that the worker has no active job.
delete_worker_lem_example :
    let s' = (delete_worker 90 texts "w1" 400000000 state).1 in
    (get "w1" s'.workers ≡ none)
    × (any_of (is_active_job_of "w1") (values s'.jobs) ≡ false)
    × (all_disabled "w1" s'.targets ≡ true)
unfolding delete_worker reconcile_expired_jobs reconcile_expired_leases str_eq
delete_worker_lem_example = delete_worker_lem 90 texts "w1" 400000000 state refl
