-- ===== src/ControlPlane/Outcomes.antt =====
-- Who may end a job, and what an ended job can no longer do.
use docker_volume_backup.Base.{
  ◌&&◌, ℤ, ℕ, String, Bool, false, Option, some, List, ◌≡◌, arith, get, get-put, str_eq,
  str_eq_refl, opt_eq, or_else, Option-cases, inl, inr,
}
use docker_volume_backup.Json.{Fields}
use docker_volume_backup.Jobs.{JobStatus, JobRecord, save, unexpired}
use docker_volume_backup.Jobs.Invariant.{IsValid, get-IsConsistent}
use docker_volume_backup.ControlPlane.Defs.{BackupTargetRecord, ControlPlane, ok, is_ok}
use docker_volume_backup.ControlPlane.Leases.{Texts, reconcile_expired_jobs, renew_job_lease}
use docker_volume_backup.ControlPlane.Progress.{update_job_progress, record_job_lease_diagnostic}
use docker_volume_backup.ControlPlane.Completion.{
  completion_refusal, update_job_status, canceled_job, cancel_job,
}
use docker_volume_backup.ControlPlane.Lifecycle.{reconcile_expired_jobs-Moves}

module _ (grace : ℕ) (texts : Texts) where
  -- From a worker that does not own the job, or under another token, or after the lease has run out,
  -- progress and lease diagnostics are refused, and the progress changes nothing.
  pub progress_needs_lease :
      (storage : JobRecord → Option Fields) (worker_id job_id : String)
      (report : Option (ℤ × Fields × List String)) (token : String) (context : Option Fields)
      (now : ℕ) (s : ControlPlane) (job : JobRecord)
      → get job_id s.jobs ≡ some job
      → ((opt_eq job.owner_worker_id worker_id
            && (str_eq (or_else job.lease_token "") token && unexpired now job.lease_expires_at))
          ≡ false)
      → (is_ok
            (update_job_progress grace texts storage worker_id job_id report token context now s).0
          ≡ false)
        × ((update_job_progress grace texts storage worker_id job_id report token context now s).1
            ≡ s)
        × (is_ok (record_job_lease_diagnostic grace texts worker_id job_id token context now s).0
            ≡ false)
  unfolding update_job_progress record_job_lease_diagnostic
  progress_needs_lease storage worker_id job_id report token context now s job found refused =
      (ground arith, ground arith, ground arith)

module _ (grace : ℕ) (texts : Texts) where
  canceled_stored :
      (job_id : String) (now : ℕ) (s : ControlPlane) (job : JobRecord)
      → IsValid s.jobs
      → (cancel_job grace texts job_id now s).0 ≡ ok job
      → (get job_id (cancel_job grace texts job_id now s).1.jobs ≡ some job)
        × (job.status ≡ JobStatus.canceled)
  unfolding cancel_job save canceled_job
  canceled_stored job_id now s job v done =
      let s' = reconcile_expired_jobs grace texts now s in
      let m = reconcile_expired_jobs-Moves grace texts now s v in
      elim (Option-cases (get job_id s'.jobs)) [
        | inl unknown ↦ ground arith
        | inr (old, found) ↦
            let (c, at_id) = get-IsConsistent job_id s'.jobs old m.0 found in
            let job' = record (canceled_job now old) { status = JobStatus.canceled } in
            ground (arith, at_id, get-put old.id job_id job' s'.jobs, str_eq_refl job_id)
      ]

  -- A canceled job is out of its worker's hands: after a cancellation that is answered, no worker
  -- under any token, at any time, completes the job or renews its lease, and the attempt changes
  -- nothing.
  pub canceled_is_final :
      (sync_payload : BackupTargetRecord → Option Fields) (synced : JobRecord → Bool)
      (worker_id job_id : String) (status : JobStatus) (summary : Option Fields)
      (lines : List String) (token : String) (context : Option Fields) (fresh : String)
      (now later : ℕ) (s : ControlPlane) (job : JobRecord)
      → IsValid s.jobs
      → (cancel_job grace texts job_id now s).0 ≡ ok job
      → let s' = (cancel_job grace texts job_id now s).1 in
        let completed =
          update_job_status grace texts sync_payload synced worker_id job_id status summary lines
            token context fresh later s' in
        let renewed = renew_job_lease grace texts worker_id job_id token later s' in
        (is_ok completed.0 ≡ false)
        × (completed.1 ≡ s')
        × (is_ok renewed.0 ≡ false)
        × (renewed.1 ≡ s')
  unfolding update_job_status completion_refusal renew_job_lease
  canceled_is_final sync_payload synced worker_id job_id status summary lines token context fresh
        now later s job v done =
      let (found, ended) = canceled_stored job_id now s job v done in
      (ground arith, ground arith, ground arith, ground arith)
