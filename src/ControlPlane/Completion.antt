-- ===== src/ControlPlane/Completion.antt =====
-- The service's methods that end jobs, and the catalogue sync that a completed job schedules.
use docker_volume_backup.Base.{
  ℕ, String, Bool, true, false, not, ◌&&◌, ◌||◌, Option, none, some, List, [], ◌∷◌, ◌++◌, get, put,
  values, str_eq, opt_eq, or_else, any_of, find_first, if◌then◌else◌,
}
use docker_volume_backup.Json.{text, Fields, set_default}
use docker_volume_backup.Jobs.{
  JobStatus, normalize, is_in_progress, JobRecord, list_jobs, save, summary_of, unexpired,
}
use docker_volume_backup.ControlPlane.Defs.{
  BackupTargetRecord, ControlPlane, Error, worker_not_found, target_not_found, job_not_found,
  not_owner, stale_token, lease_expired, not_in_progress, job_canceled, bad_status, not_cancellable,
  bad_payload, sync_failed, Result, ok, err,
}
use docker_volume_backup.ControlPlane.Workers.{require_eligible_worker}
use docker_volume_backup.ControlPlane.Dispatch.{publish, is_active, dispatch_job}
use docker_volume_backup.ControlPlane.Leases.{Texts, reconcile_expired_jobs}

abbrev pub is_canceled : JobStatus → Bool
is_canceled JobStatus.canceled = true
is_canceled _ = false

abbrev pub is_succeeded : JobStatus → Bool
is_succeeded JobStatus.succeeded = true
is_succeeded _ = false

-- `status in (SUCCEEDED, FAILED)`
abbrev pub is_outcome : JobStatus → Bool
is_outcome JobStatus.succeeded = true
is_outcome JobStatus.failed = true
is_outcome _ = false

-- `command in CATALOG_MUTATING_COMMANDS`
abbrev pub mutates_catalog : String → Bool
mutates_catalog command =
    str_eq command "backup.run"
    || (str_eq command "retention.run" || (str_eq command "forget" || str_eq command "prune"))

-- A waiting or running `snapshots.list` of the target by the worker.
abbrev pub is_active_sync : String → String → JobRecord → Bool
is_active_sync target_id worker_id job =
    opt_eq job.target_id target_id
    && (str_eq job.worker_id worker_id && (str_eq job.command "snapshots.list" && is_active job))

-- The checks of `update_job_status` on the job that it finds: the first that fails.
unfoldable pub completion_refusal : String → JobStatus → String → ℕ → JobRecord → Option Error
completion_refusal worker_id status token now job =
    if not (opt_eq job.owner_worker_id worker_id)
    then some not_owner
    else if is_canceled (normalize job.status)
    then some job_canceled
    else if not (is_in_progress (normalize job.status))
    then some not_in_progress
    else if not (str_eq (or_else job.lease_token "") token)
    then some stale_token
    else if not (unexpired now job.lease_expires_at)
    then some lease_expired
    else if not (is_outcome status)
    then some bad_status
    else none

module _ (grace : ℕ) (texts : Texts) (sync_payload : BackupTargetRecord → Option Fields) where
  -- `has_active_snapshot_sync_for_target`, for a known target
  unfoldable pub has_active_snapshot_sync : String → String → ControlPlane → Bool
  has_active_snapshot_sync target_id worker_id s =
      any_of (is_active_sync target_id worker_id) (values s.jobs)

  -- `dispatch_snapshot_sync_for_target`
  unfoldable pub dispatch_snapshot_sync_for_target :
      String → String → String → String → ℕ → ControlPlane → Result JobRecord × ControlPlane
  unfolding reconcile_expired_jobs dispatch_job list_jobs
  dispatch_snapshot_sync_for_target target_id requested_by trigger fresh now s =
      elim (get target_id s.targets) [
        | none ↦ (err target_not_found, s)
        | some target ↦ elim (require_eligible_worker grace now target.worker_id s) [
          | err e ↦ (err e, s)
          | ok worker ↦
              let s' = reconcile_expired_jobs grace texts now s in
              elim (find_first (is_active_sync target.id target.worker_id) (list_jobs s'.jobs)) [
                | some job ↦ (ok job, s')
                | none ↦ elim (sync_payload target) [
                  | none ↦ (err bad_payload, s')
                  | some p ↦
                      dispatch_job grace target.worker_id "snapshots.list" p requested_by
                        (some target.id) trigger fresh now s'
                ]
              ]
        ]
      ]

  -- `_schedule_snapshot_sync_after_mutation`, whose errors `update_job_status` only logs.
  unfoldable pub schedule_snapshot_sync : JobRecord → String → ℕ → ControlPlane → ControlPlane
  unfolding dispatch_snapshot_sync_for_target has_active_snapshot_sync reconcile_expired_jobs
  schedule_snapshot_sync job fresh now s =
      if not (is_succeeded (normalize job.status)) then s else elim job.target_id [
        | none ↦ s
        | some target_id ↦
            if str_eq target_id ""
              || not (mutates_catalog job.command || texts.mentions_pruning job)
            then s
            else elim (get target_id s.targets) [
              | none ↦ s
              | some target ↦
                  let s' = reconcile_expired_jobs grace texts now s in
                  if not (str_eq target.worker_id job.worker_id)
                  then s
                  else if has_active_snapshot_sync target.id target.worker_id s'
                  then s'
                  else (dispatch_snapshot_sync_for_target target.id "system" "automatic" fresh now
                      s').1
            ]
      ]

  -- What `update_job_status` stores.
  unfoldable pub completed_job :
      JobStatus → Option Fields → Option Fields → List String → ℕ → JobRecord → JobRecord
  completed_job status summary context lines now job =
      let ended = record job { status = status; updated_at = now } in
      let told = record ended { result_summary = texts.completed ended summary context now } in
      record told {
        log_lines = texts.bounded_lines told (job.log_lines ++ lines);
        finished_at = some now;
      }

  -- `update_job_status`. `synced` says whether the snapshots, the statistics and the explorer's
  -- metadata could be brought up to date from the result; a failure there is raised, when the job
  -- that the repository handed out, and holds, is changed already.
  unfoldable pub update_job_status :
      (JobRecord → Bool)
      → String
      → String
      → JobStatus
      → Option Fields
      → List String
      → String
      → Option Fields
      → String
      → ℕ
      → ControlPlane
      → Result JobRecord × ControlPlane
  unfolding completed_job schedule_snapshot_sync completion_refusal
  update_job_status synced worker_id job_id status summary lines token context fresh now s =
      elim (get worker_id s.workers) [
        | none ↦ (err worker_not_found, s)
        | some worker ↦ elim (get job_id s.jobs) [
          | none ↦ (err job_not_found, s)
          | some job ↦ elim (completion_refusal worker_id (normalize status) token now job) [
            | some e ↦ (err e, s)
            | none ↦
                let job' = completed_job (normalize status) summary context lines now job in
                let kept = record s { jobs = put job_id job' s.jobs } in
                let s' = publish job' (record s { jobs = save job' s.jobs }) in
                if is_succeeded (normalize status) && not (synced job')
                then (err sync_failed, kept)
                else (ok job', schedule_snapshot_sync job' fresh now s')
          ]
        ]
      ]

abbrev canceled_line : String
canceled_line = "Job canceled by operator before terminal worker completion."

abbrev lines_or_canceled : List String → List String
lines_or_canceled [] = canceled_line ∷ []
lines_or_canceled (line ∷ lines) = line ∷ lines

-- What `cancel_job` stores.
unfoldable pub canceled_job : ℕ → JobRecord → JobRecord
unfolding set_default
canceled_job now job = record job {
  status = JobStatus.canceled;
  updated_at = now;
  finished_at = some (or_else job.finished_at now);
  result_summary = some (
      set_default "message" (text canceled_line) (
        set_default "error" (text "job canceled")
          (set_default "recovery" (text "operator_canceled") (summary_of job))));
  log_lines = lines_or_canceled job.log_lines;
}

module _ (grace : ℕ) (texts : Texts) where
  -- `cancel_job`
  unfoldable pub cancel_job : String → ℕ → ControlPlane → Result JobRecord × ControlPlane
  unfolding canceled_job reconcile_expired_jobs
  cancel_job job_id now s =
      let s' = reconcile_expired_jobs grace texts now s in
      elim (get job_id s'.jobs) [
        | none ↦ (err job_not_found, s')
        | some job ↦
            let job' = canceled_job now job in
            if is_active job
            then (ok job', publish job' (record s' { jobs = save job' s'.jobs }))
            else (err not_cancellable, s')
      ]

  -- `is_job_cancelled`
  unfoldable pub is_job_cancelled : String → String → ℕ → ControlPlane → Result Bool × ControlPlane
  unfolding reconcile_expired_jobs
  is_job_cancelled worker_id job_id now s = elim (get worker_id s.workers) [
    | none ↦ (err worker_not_found, s)
    | some worker ↦
        let s' = reconcile_expired_jobs grace texts now s in
        elim (get job_id s'.jobs) [
          | none ↦ (err job_not_found, s')
          | some job ↦
              if not (str_eq job.worker_id worker_id)
              then (err not_owner, s')
              else if not (
                  opt_eq job.owner_worker_id worker_id
                  || elim job.owner_worker_id [ none ↦ true | some _ ↦ false ])
              then (err not_owner, s')
              else (ok (is_canceled (normalize job.status)), s')
        ]
  ]
