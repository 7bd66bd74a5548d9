-- ===== src/ControlPlane/Progress.antt =====
-- The service's methods that take a worker's progress and its diagnostics of a lease.
use docker_volume_backup.Base.{
  ℕ, ℤ, String, not, Option, none, some, List, get, opt_eq, or_else, str_eq, if◌then◌else◌,
}
use docker_volume_backup.Json.{Fields, obj, empty, assign}
use docker_volume_backup.Jobs.{
  JobRecord, Jobs, normalize, is_in_progress, save, summary_of, unexpired, update_progress,
}
use docker_volume_backup.ControlPlane.Defs.{
  ControlPlane, worker_not_found, job_not_found, not_owner, stale_token, lease_expired,
  not_in_progress, bad_payload, Result, ok, err,
}
use docker_volume_backup.ControlPlane.Dispatch.{publish}
use docker_volume_backup.ControlPlane.Leases.{Texts, reconcile_expired_jobs}

-- The job with the lease context that the worker reported.
abbrev pub with_context : Fields → ℕ → JobRecord → JobRecord
with_context context now job = record job {
  result_summary = some (assign "lease_context" (obj context) (summary_of job));
  updated_at = now;
}

module _ (grace : ℕ) (texts : Texts) where
  -- `record_job_lease_diagnostic`
  unfoldable pub record_job_lease_diagnostic :
      String → String → String → Option Fields → ℕ → ControlPlane → Result JobRecord × ControlPlane
  unfolding reconcile_expired_jobs save assign
  record_job_lease_diagnostic worker_id job_id token context now s =
      elim (get worker_id s.workers) [
        | none ↦ (err worker_not_found, s)
        | some worker ↦ elim (get job_id s.jobs) [
          | none ↦ (err job_not_found, s)
          | some job ↦
              let job' = with_context (texts.lease_context job context now) now job in
              if not (opt_eq job.owner_worker_id worker_id)
              then (err not_owner, s)
              else if not (str_eq (or_else job.lease_token "") token)
              then (err stale_token, s)
              else if not (is_in_progress (normalize job.status))
              then (err not_in_progress, s)
              else if not (unexpired now job.lease_expires_at)
              then (err lease_expired, reconcile_expired_jobs grace texts now s)
              else (ok job', publish job' (record s { jobs = save job' s.jobs }))
        ]
      ]

  -- The summary that the service passes on to the repository; `storage` is the job's context of its
  -- storage, where it has one.
  pub progress_context : Option Fields → Option Fields → ℕ → JobRecord → Option Fields
  unfolding assign
  progress_context none none now job = none
  progress_context (some storage) none now job = some (assign "storage_context" (obj storage) empty)
  progress_context none (some context) now job =
      some (assign "lease_context" (obj (texts.lease_context job (some context) now)) empty)
  progress_context (some storage) (some context) now job = some (
      assign "lease_context" (obj (texts.lease_context job (some context) now))
        (assign "storage_context" (obj storage) empty))

  -- `update_job_progress`. `report` is what `_validate_progress_payload` returns, with the percentage
  -- cut to 99.9, or `none` where it raises; `storage` is what `_safe_storage_context` finds.
  unfoldable pub update_job_progress :
      (JobRecord → Option Fields)
      → String
      → String
      → Option (ℤ × Fields × List String)
      → String
      → Option Fields
      → ℕ
      → ControlPlane
      → Result JobRecord × ControlPlane
  unfolding update_progress save assign progress_context
  update_job_progress storage worker_id job_id report token context now s =
      elim (get worker_id s.workers) [
        | none ↦ (err worker_not_found, s)
        | some worker ↦ elim (get job_id s.jobs) [
          | none ↦ (err job_not_found, s)
          | some job ↦
              if not (opt_eq job.owner_worker_id worker_id)
              then (err not_owner, s)
              else if not (str_eq (or_else job.lease_token "") token)
              then (err stale_token, s)
              else if not (unexpired now job.lease_expires_at)
              then (err lease_expired, s)
              else elim report [
                | none ↦ (err bad_payload, s)
                | some (sequence, progress, lines) ↦
                    if not (is_in_progress (normalize job.status))
                    then (ok job, s)
                    else let noted : Jobs = elim context [
                      | none ↦ s.jobs
                      | some c ↦
                          save (with_context (texts.lease_context job (some c) now) now job) s.jobs
                    ] in
                      let updated =
                        update_progress job_id worker_id token sequence progress lines
                          (progress_context (storage job) context now job) now noted in
                      elim updated.0 [
                        | none ↦ (err stale_token, record s { jobs = updated.1 })
                        | some job' ↦ (ok job', publish job' (record s { jobs = updated.1 }))
                      ]
              ]
        ]
      ]
