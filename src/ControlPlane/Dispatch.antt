-- ===== src/ControlPlane/Dispatch.antt =====
-- The service's methods that submit jobs.
use docker_volume_backup.Base.{
  ℕ, String, Bool, not, ◌&&◌, ◌||◌, Option, none, some, [], ◌∷◌, ◌++◌, get, values, str_eq, opt_eq,
  any_of, codes, strip, lower, codes_eq, if◌then◌else◌,
}
use docker_volume_backup.Json.{Fields}
use docker_volume_backup.Jobs.{JobStatus, normalize, is_pending, is_in_progress, JobRecord, save}
use docker_volume_backup.ControlPlane.Defs.{
  BackupTargetRecord, ControlPlane, target_not_found, target_elsewhere, target_disabled,
  bad_payload, Result, ok, err,
}
use docker_volume_backup.ControlPlane.Workers.{require_eligible_worker}

-- `JobStatus.normalize(job.status) in (PENDING, IN_PROGRESS)`
abbrev pub is_active : JobRecord → Bool
is_active job = is_pending (normalize job.status) || is_in_progress (normalize job.status)

-- `_publish_job_event`, whose failures are only logged.
abbrev pub publish : JobRecord → ControlPlane → ControlPlane
publish job s = record s { published = s.published ++ job ∷ [] }

-- `str(trigger or "").strip().lower() in SCHEDULED_BACKUP_TRIGGERS`
unfoldable pub is_scheduled : String → Bool
unfolding strip
is_scheduled trigger =
    let word = lower (strip (codes trigger)) in
    codes_eq word (codes "schedule") || codes_eq word (codes "scheduled")

-- The record that `dispatch_job` makes; `fresh` is its `uuid4`.
unfoldable pub new_job :
    String → String → Fields → String → Option String → String → String → ℕ → JobRecord
new_job worker_id command payload requested_by target_id trigger fresh now = record {
  worker_id = worker_id;
  command = command;
  payload = payload;
  requested_by = requested_by;
  target_id = target_id;
  trigger = trigger;
  id = fresh;
  status = JobStatus.pending;
  owner_worker_id = none;
  lease_token = none;
  lease_issued_at = none;
  lease_expires_at = none;
  attempt_count = 0;
  result_summary = none;
  log_lines = [];
  submitted_at = now;
  started_at = none;
  finished_at = none;
  updated_at = now;
}

-- `dispatch_job`
unfoldable pub dispatch_job :
    ℕ
    → String
    → String
    → Fields
    → String
    → Option String
    → String
    → String
    → ℕ
    → ControlPlane
    → Result JobRecord × ControlPlane
unfolding new_job is_scheduled
dispatch_job grace worker_id command payload requested_by target_id trigger fresh now s =
    let new = new_job worker_id command payload requested_by target_id trigger fresh now in
    let submitted : Result JobRecord × ControlPlane =
      (ok new, record s { jobs = save new s.jobs }) in
    elim (require_eligible_worker grace now worker_id s) [
      | err e ↦ (err e, s)
      | ok worker ↦ elim target_id [
        | none ↦ submitted
        | some t ↦ elim (get t s.targets) [
          | none ↦ (err target_not_found, s)
          | some target ↦
              if not (str_eq target.worker_id worker_id)
              then (err target_elsewhere, s)
              else if str_eq command "backup.run" && (not target.enabled && is_scheduled trigger)
              then (err target_disabled, s)
              else submitted
        ]
      ]
    ]

-- `dispatch_backup_for_target`; `payload` is what `_build_backup_payload` returns, or `none` where
-- it raises.
unfoldable pub dispatch_backup_for_target :
    ℕ
    → (BackupTargetRecord → Option Fields)
    → String
    → String
    → String
    → String
    → ℕ
    → ControlPlane
    → Result JobRecord × ControlPlane
unfolding dispatch_job
dispatch_backup_for_target grace payload target_id requested_by trigger fresh now s =
    elim (get target_id s.targets) [
      | none ↦ (err target_not_found, s)
      | some target ↦
          if not target.enabled && is_scheduled trigger
          then (err target_disabled, s)
          else elim (payload target) [
            | none ↦ (err bad_payload, s)
            | some p ↦
                dispatch_job grace target.worker_id "backup.run" p requested_by (some target.id)
                  trigger fresh now s
          ]
    ]

-- `has_active_backup_for_target`
unfoldable pub has_active_backup_for_target : String → ControlPlane → Bool
has_active_backup_for_target target_id s =
    any_of
      (λ job. opt_eq job.target_id target_id && (str_eq job.command "backup.run" && is_active job))
      (values s.jobs)
