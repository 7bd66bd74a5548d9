-- ===== src/ControlPlane/Submission.antt =====
-- The service's other methods that submit jobs or choose a worker; each `payload` argument is what
-- the target's payload builder returns, or `none` where it raises.
use docker_volume_backup.Base.{
  ℕ, String, Bool, Option, none, some, List, [], ◌++◌, any_of, ◌∷◌, keep_if, not, get, find_first,
  str_eq, if◌then◌else◌,
}
use docker_volume_backup.Json.{Fields}
use docker_volume_backup.Jobs.{JobRecord}
use docker_volume_backup.ControlPlane.Defs.{
  WorkerRecord, is_online, BackupTargetRecord, ControlPlane, target_not_found, bad_payload, Result,
  ok, err,
}
use docker_volume_backup.ControlPlane.Workers.{worker_status, list_workers}
use docker_volume_backup.ControlPlane.Dispatch.{dispatch_job}
use docker_volume_backup.ControlPlane.Leases.{Texts, fetch_jobs_for_worker}

-- `_select_online_worker`
unfoldable pub select_online_worker : ℕ → ℕ → ControlPlane → Option WorkerRecord
unfolding worker_status list_workers
select_online_worker grace now s =
    find_first (λ worker. is_online (worker_status grace now worker)) (list_workers s.workers)

-- `command in interactive`
abbrev pub is_interactive : String → Bool
is_interactive command =
    any_of (λ c. str_eq c command)
      ("snapshots.list" ∷ "snapshot.ls" ∷ "snapshot.search" ∷ "snapshot.find" ∷ "snapshot.dump"
        ∷ "snapshot.about" ∷ "stats.get" ∷ [])

-- `sorted(jobs, key=lambda job: job.command not in interactive)`, which is stable
abbrev pub interactive_first : List JobRecord → List JobRecord
interactive_first jobs =
    keep_if (λ job. is_interactive job.command) jobs
    ++ keep_if (λ job. not (is_interactive job.command)) jobs

-- `fetch_interactive_jobs_for_worker`
unfoldable pub fetch_interactive_jobs_for_worker :
    ℕ → Texts → String → (ℕ → String) → ℕ → ControlPlane → Result (List JobRecord) × ControlPlane
unfolding fetch_jobs_for_worker
fetch_interactive_jobs_for_worker grace texts worker_id tokens now s =
    let (r, s') = fetch_jobs_for_worker grace texts worker_id tokens now s in
    (elim r [ ok jobs ↦ ok (interactive_first jobs) | err e ↦ err e ], s')

-- What the methods below share: the target is found, its payload built, and the job dispatched.
unfoldable pub dispatch_for_target :
    ℕ
    → (BackupTargetRecord → Option Fields)
    → String
    → String
    → String
    → String
    → String
    → ℕ
    → ControlPlane
    → Result JobRecord × ControlPlane
unfolding dispatch_job
dispatch_for_target grace payload command trigger target_id requested_by fresh now s =
    elim (get target_id s.targets) [
      | none ↦ (err target_not_found, s)
      | some target ↦ elim (payload target) [
        | none ↦ (err bad_payload, s)
        | some p ↦
            dispatch_job grace target.worker_id command p requested_by (some target.id) trigger
              fresh now s
      ]
    ]

module _ (grace : ℕ) (payload : BackupTargetRecord → Option Fields) where
  -- `dispatch_restore_for_target`
  unfoldable pub dispatch_restore_for_target :
      Bool → String → String → String → ℕ → ControlPlane → Result JobRecord × ControlPlane
  unfolding dispatch_for_target
  dispatch_restore_for_target dry_run target_id requested_by fresh now s =
      dispatch_for_target grace payload (if dry_run then "restore.dry_run" else "restore.run")
        "manual" target_id requested_by fresh now s

  -- `dispatch_stats_for_target`
  unfoldable pub dispatch_stats_for_target :
      String → String → String → ℕ → ControlPlane → Result JobRecord × ControlPlane
  unfolding dispatch_for_target
  dispatch_stats_for_target target_id requested_by fresh now s =
      dispatch_for_target grace payload "stats.get" "manual" target_id requested_by fresh now s

  -- `dispatch_retention_for_target`
  unfoldable pub dispatch_retention_for_target :
      String → String → String → ℕ → ControlPlane → Result JobRecord × ControlPlane
  unfolding dispatch_for_target
  dispatch_retention_for_target target_id requested_by fresh now s =
      dispatch_for_target grace payload "retention.run" "manual" target_id requested_by fresh now s

  -- `dispatch_snapshot_about`, whose `payload` stands for its checks of the ids, too, and whose
  -- answer is drawn from the job
  unfoldable pub dispatch_snapshot_about :
      String → String → String → ℕ → ControlPlane → Result JobRecord × ControlPlane
  unfolding dispatch_for_target
  dispatch_snapshot_about target_id requested_by fresh now s =
      dispatch_for_target grace payload "snapshot.about" "interactive" target_id requested_by fresh
        now s
