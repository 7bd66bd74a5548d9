-- ===== src/ControlPlane/Revocation.antt =====
-- What a revoked worker can no longer do.
use docker_volume_backup.Base.{
  false, none, any_of, values, get-pop, ℕ, String, Bool, true, not, ◌&&◌, Option, some, [], ◌∷◌,
  ◌≡◌, refl, arith, Dict, get, get-put, str_eq, str_eq_refl,
}
use docker_volume_backup.Json.{Fields}
use docker_volume_backup.ControlPlane.Defs.{
  ok, WorkerStatus, WorkerRecord, BackupTargetRecord, ControlPlane, worker_not_eligible,
  worker_is_disabled, err,
}
use docker_volume_backup.ControlPlane.Workers.{
  worker_status, save_worker, require_eligible_worker, heard, heartbeat, disabled_for,
  disable_targets_for_worker,
}
use docker_volume_backup.ControlPlane.Dispatch.{dispatch_job}
use docker_volume_backup.ControlPlane.Deletion.{is_active_job_of, delete_worker}
use docker_volume_backup.ControlPlane.Leases.{
  reconcile_expired_jobs, Texts, fetch_jobs_for_worker, renew_job_lease,
}

-- Whether every target of the worker is disabled.
abbrev pub all_disabled : String → Dict BackupTargetRecord → Bool
all_disabled worker_id [] = true
all_disabled worker_id ((k, target) ∷ targets) =
    not (str_eq target.worker_id worker_id && target.enabled) && all_disabled worker_id targets

pub disable_targets-all_disabled :
    (worker_id : String) (now : ℕ) (targets : Dict BackupTargetRecord)
    → all_disabled worker_id (disable_targets_for_worker worker_id now targets) ≡ true
unfolding disable_targets_for_worker disabled_for
disable_targets-all_disabled worker_id now [] = refl
disable_targets-all_disabled worker_id now ((k, target) ∷ targets) =
    ground (arith, disable_targets-all_disabled worker_id now targets)

-- A worker that is stored under its own id as disabled.
abbrev pub IsDisabled : String → ControlPlane → Type 0
IsDisabled worker_id s =
    (worker : WorkerRecord) × (get worker_id s.workers ≡ some worker)
    × (worker.id ≡ worker_id)
    × (worker.status ≡ WorkerStatus.disabled)

-- A disabled worker stays disabled whatever it reports, and gets nothing: no job, no renewal, and
-- no job is submitted to it.
pub IsDisabled-worker_gets_nothing :
    (grace : ℕ) (texts : Texts) (worker_id : String) (version : Option String)
    (labels : Option (Dict String)) (tokens : ℕ → String) (job_id token command : String)
    (payload : Fields) (requested_by : String) (target_id : Option String) (trigger fresh : String)
    (now : ℕ) (s : ControlPlane)
    → IsDisabled worker_id s
    → IsDisabled worker_id (heartbeat worker_id version labels now s).1
      × (fetch_jobs_for_worker grace texts worker_id tokens now s ≡ (err worker_not_eligible, s))
      × (renew_job_lease grace texts worker_id job_id token now s ≡ (err worker_is_disabled, s))
      × (dispatch_job grace worker_id command payload requested_by target_id trigger fresh now s
          ≡ (err worker_not_eligible, s))
unfolding heartbeat save_worker heard fetch_jobs_for_worker renew_job_lease dispatch_job
    require_eligible_worker worker_status
IsDisabled-worker_gets_nothing grace texts worker_id version labels tokens job_id token command
      payload requested_by target_id trigger fresh now s (worker, found, own, off) =
    let worker' = heard version labels now worker in
    (
      (
        worker',
        ground (arith, get-put worker.id worker_id worker' s.workers, str_eq_refl worker_id),
        ground arith,
        ground arith,
      ),
      ground arith,
      ground arith,
      ground arith,
    )

-- A worker that `delete_worker` deletes is gone, no job waits or runs for it, and every target of
-- it is disabled.
pub delete_worker_lem :
    (grace : ℕ) (texts : Texts) (worker_id : String) (now : ℕ) (s : ControlPlane)
    → (delete_worker grace texts worker_id now s).0 ≡ ok true
    → let s' = (delete_worker grace texts worker_id now s).1 in
      (get worker_id s'.workers ≡ none)
      × (any_of (is_active_job_of worker_id) (values s'.jobs) ≡ false)
      × (all_disabled worker_id s'.targets ≡ true)
unfolding delete_worker
delete_worker_lem grace texts worker_id now s deleted =
    let s' = reconcile_expired_jobs grace texts now s in
    (
      ground (arith, get-pop worker_id worker_id s'.workers, str_eq_refl worker_id),
      ground arith,
      ground (arith, disable_targets-all_disabled worker_id now s'.targets),
    )
