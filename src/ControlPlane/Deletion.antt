-- ===== src/ControlPlane/Deletion.antt =====
-- `delete_worker`, but for the credentials and the metadata of the worker, which other
-- repositories keep.
use docker_volume_backup.Base.{
  ℕ, String, Bool, true, false, ◌&&◌, ◌||◌, none, some, get, pop, values, any_of, str_eq, opt_eq,
  if◌then◌else◌,
}
use docker_volume_backup.Jobs.{JobRecord}
use docker_volume_backup.ControlPlane.Defs.{ControlPlane, active_jobs, Result, ok, err}
use docker_volume_backup.ControlPlane.Workers.{disable_targets_for_worker}
use docker_volume_backup.ControlPlane.Dispatch.{is_active}
use docker_volume_backup.ControlPlane.Leases.{Texts, reconcile_expired_jobs}

-- A waiting or running job of the worker.
abbrev pub is_active_job_of : String → JobRecord → Bool
is_active_job_of worker_id job =
    is_active job && (str_eq job.worker_id worker_id || opt_eq job.owner_worker_id worker_id)

module _ (grace : ℕ) (texts : Texts) where
  -- `delete_worker`; the error is the `WorkerDeletionConflict`.
  unfoldable pub delete_worker : String → ℕ → ControlPlane → Result Bool × ControlPlane
  unfolding reconcile_expired_jobs disable_targets_for_worker
  delete_worker worker_id now s = elim (get worker_id s.workers) [
    | none ↦ (ok false, s)
    | some worker ↦
        let s' = reconcile_expired_jobs grace texts now s in
        if any_of (is_active_job_of worker_id) (values s'.jobs) then (err active_jobs, s') else (
          ok true,
          record s' {
            targets = disable_targets_for_worker worker_id now s'.targets;
            workers = pop worker_id s'.workers;
          },
        )
  ]
