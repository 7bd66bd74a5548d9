-- ===== src/ControlPlane/Calls.antt =====
-- Histories of the control plane: any sequence of calls of its methods on jobs.
use docker_volume_backup.Base.{ℤ, Bool, ℕ, String, Option, none, List, ◌≡◌, get}
use docker_volume_backup.Json.{Fields}
use docker_volume_backup.Jobs.{JobStatus, JobRecord}
use docker_volume_backup.Jobs.Invariant.{IsValid}
use docker_volume_backup.Jobs.Lifecycle.{Moves, Moves-refl, Moves-trans}
use docker_volume_backup.ControlPlane.Defs.{BackupTargetRecord, ControlPlane}
use docker_volume_backup.ControlPlane.Dispatch.{dispatch_job}
use docker_volume_backup.ControlPlane.Leases.{
  Texts, reconcile_expired_jobs, fetch_jobs_for_worker, renew_job_lease,
}
use docker_volume_backup.ControlPlane.Completion.{update_job_status, cancel_job}
use docker_volume_backup.ControlPlane.Progress.{update_job_progress, record_job_lease_diagnostic}
use docker_volume_backup.ControlPlane.Reported.{
  update_job_progress-Moves, record_job_lease_diagnostic-Moves,
}
use docker_volume_backup.ControlPlane.Lifecycle.{
  reconcile_expired_jobs-Moves, fetch_jobs_for_worker-Moves, renew_job_lease-Moves,
  dispatch_job-Moves,
}
use docker_volume_backup.ControlPlane.Ending.{update_job_status-Moves, cancel_job-Moves}

module _ (grace : ℕ) (texts : Texts) (sync_payload : BackupTargetRecord → Option Fields) where
  -- One call, by any worker or operator at any time; a new job gets an id that no job has.
  pub data Call (s : ControlPlane) : ControlPlane → Type 0 where
    dispatches :
        (worker_id command : String) (payload : Fields) (requested_by : String)
        (target_id : Option String) (trigger fresh : String) (now : ℕ) {s' : ControlPlane}
        → get fresh s.jobs ≡ none
        → s'
          ≡ (dispatch_job grace worker_id command payload requested_by target_id trigger fresh now
              s).1
        → Call s s'
    reconciles :
        (now : ℕ) {s' : ControlPlane} → s' ≡ reconcile_expired_jobs grace texts now s → Call s s'
    fetches :
        (worker_id : String) (tokens : ℕ → String) (now : ℕ) {s' : ControlPlane}
        → s' ≡ (fetch_jobs_for_worker grace texts worker_id tokens now s).1
        → Call s s'
    renews :
        (worker_id job_id token : String) (now : ℕ) {s' : ControlPlane}
        → s' ≡ (renew_job_lease grace texts worker_id job_id token now s).1
        → Call s s'
    completes :
        (synced : JobRecord → Bool) (worker_id job_id : String) (status : JobStatus)
        (summary : Option Fields) (lines : List String) (token : String) (context : Option Fields)
        (fresh : String) (now : ℕ) {s' : ControlPlane}
        → get fresh s.jobs ≡ none
        → s'
          ≡ (update_job_status grace texts sync_payload synced worker_id job_id status summary lines
              token context fresh now s).1
        → Call s s'
    progresses :
        (storage : JobRecord → Option Fields) (worker_id job_id : String)
        (report : Option (ℤ × Fields × List String)) (token : String) (context : Option Fields)
        (now : ℕ) {s' : ControlPlane}
        → s'
          ≡ (update_job_progress grace texts storage worker_id job_id report token context now s).1
        → Call s s'
    diagnoses :
        (worker_id job_id token : String) (context : Option Fields) (now : ℕ) {s' : ControlPlane}
        → s' ≡ (record_job_lease_diagnostic grace texts worker_id job_id token context now s).1
        → Call s s'
    cancels :
        (job_id : String) (now : ℕ) {s' : ControlPlane}
        → s' ≡ (cancel_job grace texts job_id now s).1
        → Call s s'

  pub data History (s : ControlPlane) : ControlPlane → Type 0 where
    start : History s s
    then_call : {s' s'' : ControlPlane} → History s s' → Call s' s'' → History s s''

  Call-Moves : {s s' : ControlPlane} → IsValid s.jobs → Call s s' → Moves s.jobs s'.jobs
  Call-Moves {s} v
        (dispatches worker_id command payload requested_by target_id trigger fresh now new e) =
      rw e (
        dispatch_job-Moves grace worker_id command payload requested_by target_id trigger fresh now
          s v new)
  Call-Moves {s} v (reconciles now e) = rw e (reconcile_expired_jobs-Moves grace texts now s v)
  Call-Moves {s} v (fetches worker_id tokens now e) =
      rw e (fetch_jobs_for_worker-Moves grace texts worker_id tokens now s v)
  Call-Moves {s} v (renews worker_id job_id token now e) =
      rw e (renew_job_lease-Moves grace texts worker_id job_id token now s v)
  Call-Moves {s} v
        (completes synced worker_id job_id status summary lines token context fresh now new e) =
      rw e (
        update_job_status-Moves grace texts sync_payload synced worker_id job_id status summary
          lines token context fresh now s v new)
  Call-Moves {s} v (progresses storage worker_id job_id report token context now e) =
      rw e (
        update_job_progress-Moves grace texts storage worker_id job_id report token context now s v)
  Call-Moves {s} v (diagnoses worker_id job_id token context now e) =
      rw e (record_job_lease_diagnostic-Moves grace texts worker_id job_id token context now s v)
  Call-Moves {s} v (cancels job_id now e) = rw e (cancel_job-Moves grace texts job_id now s v)

  -- Over any history of dispatches, fetches, renewals, progress reports, lease diagnostics,
  -- completions, cancellations and reconciliations, from a valid queue: the queue stays valid, no job is lost, and each job only
  -- moves from waiting to running to one final status, which it keeps.
  pub History-Moves : (s s' : ControlPlane) → IsValid s.jobs → History s s' → Moves s.jobs s'.jobs
  History-Moves s s' v start = Moves-refl s.jobs v
  History-Moves s s'' v (then_call {s' = s'} h c) =
      let m = History-Moves s s' v h in Moves-trans s.jobs s'.jobs s''.jobs m (Call-Moves m.0 c)
