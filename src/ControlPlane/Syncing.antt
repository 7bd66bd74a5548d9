-- ===== src/ControlPlane/Syncing.antt =====
-- The catalogue sync after a completion: what it does to the jobs.
use docker_volume_backup.Base.{
  ℕ, String, Option, none, some, ◌≡◌, ◌⊎◌, arith, get, find_first, Option-cases, inl, inr,
}
use docker_volume_backup.Json.{Fields}
use docker_volume_backup.Jobs.{JobRecord, list_jobs}
use docker_volume_backup.Jobs.Invariant.{IsValid}
use docker_volume_backup.Jobs.Lifecycle.{Moves, Moves-refl, Moves-trans}
use docker_volume_backup.ControlPlane.Defs.{BackupTargetRecord, ControlPlane, Result-cases}
use docker_volume_backup.ControlPlane.Workers.{require_eligible_worker}
use docker_volume_backup.ControlPlane.Leases.{Texts, reconcile_expired_jobs}
use docker_volume_backup.ControlPlane.Completion.{
  is_active_sync, dispatch_snapshot_sync_for_target, schedule_snapshot_sync,
}
use docker_volume_backup.ControlPlane.Lifecycle.{
  AddsNone-reconcile, reconcile_expired_jobs-Moves, dispatch_job-Moves,
}

module _ (grace : ℕ) (texts : Texts) (sync_payload : BackupTargetRecord → Option Fields) where
  dispatch_snapshot_sync-Moves :
      (target_id requested_by trigger fresh : String) (now : ℕ) (s : ControlPlane)
      → IsValid s.jobs
      → get fresh s.jobs ≡ none
      → Moves s.jobs
          (dispatch_snapshot_sync_for_target grace texts sync_payload target_id requested_by trigger
            fresh now s).1.jobs
  unfolding dispatch_snapshot_sync_for_target
  dispatch_snapshot_sync-Moves target_id requested_by trigger fresh now s v missing =
      elim (Option-cases (get target_id s.targets)) [
        | inl unknown ↦ rw (unknown, dispatch_snapshot_sync_for_target) (Moves-refl s.jobs v)
        | inr (target, known) ↦
            elim (Result-cases (require_eligible_worker grace now target.worker_id s)) [
              | inr (e, refused) ↦
                  rw (known, refused, dispatch_snapshot_sync_for_target) (Moves-refl s.jobs v)
              | inl (worker, eligible) ↦
                  let s' = reconcile_expired_jobs grace texts now s in
                  let m = reconcile_expired_jobs-Moves grace texts now s v in
                  elim (Option-cases
                    (find_first (is_active_sync target.id target.worker_id) (list_jobs s'.jobs))) [
                      | inr (job, old) ↦
                          rw (known, eligible, old, dispatch_snapshot_sync_for_target) m
                      | inl new ↦ elim (Option-cases (sync_payload target)) [
                        | inl bad ↦
                            rw (known, eligible, new, bad, dispatch_snapshot_sync_for_target) m
                        | inr (p, built) ↦
                            rw (known, eligible, new, built, dispatch_snapshot_sync_for_target)
                              (Moves-trans s.jobs s'.jobs _ m (
                                dispatch_job-Moves grace target.worker_id "snapshots.list" p
                                  requested_by (some target.id) trigger fresh now s' m.0
                                  (AddsNone-reconcile grace texts now s fresh missing)))
                      ]
                    ]
            ]
      ]

  -- The three ends of `_schedule_snapshot_sync_after_mutation`.
  pub schedule_cases :
      (job : JobRecord) (fresh : String) (now : ℕ) (s : ControlPlane) (target : BackupTargetRecord)
      (target_id : String)
      → job.target_id ≡ some target_id
      → get target_id s.targets ≡ some target
      → let r = schedule_snapshot_sync grace texts sync_payload job fresh now s in
        let s' = reconcile_expired_jobs grace texts now s in
        (r ≡ s)
        ⊎ (r ≡ s')
        ⊎ (r
            ≡ (dispatch_snapshot_sync_for_target grace texts sync_payload target.id "system"
                "automatic" fresh now s').1)
  unfolding schedule_snapshot_sync
  schedule_cases job fresh now s target target_id has known = ground arith

  pub schedule_idle :
      (job : JobRecord) (fresh : String) (now : ℕ) (s : ControlPlane)
      → (job.target_id ≡ none)
        ⊎ ((target_id : String) × (job.target_id ≡ some target_id)
            × (get target_id s.targets ≡ none))
      → schedule_snapshot_sync grace texts sync_payload job fresh now s ≡ s
  unfolding schedule_snapshot_sync
  schedule_idle job fresh now s (inl no_target) = ground arith
  schedule_idle job fresh now s (inr (target_id, has, unknown)) = ground arith

  pub schedule_snapshot_sync-Moves :
      (job : JobRecord) (fresh : String) (now : ℕ) (s : ControlPlane)
      → IsValid s.jobs
      → get fresh s.jobs ≡ none
      → Moves s.jobs (schedule_snapshot_sync grace texts sync_payload job fresh now s).jobs
  schedule_snapshot_sync-Moves job fresh now s v missing =
      let same = Moves-refl s.jobs v in
      elim (Option-cases job.target_id) [
        | inl no_target ↦ rw (schedule_idle job fresh now s (inl no_target)) same
        | inr (target_id, has) ↦ elim (Option-cases (get target_id s.targets)) [
          | inl unknown ↦ rw (schedule_idle job fresh now s (inr (target_id, has, unknown))) same
          | inr (target, known) ↦
              let s' = reconcile_expired_jobs grace texts now s in
              let m = reconcile_expired_jobs-Moves grace texts now s v in
              elim (schedule_cases job fresh now s target target_id has known) [
                | inl a ↦ rw a same
                | inr (inl b) ↦ rw b m
                | inr (inr c) ↦ rw c (
                    Moves-trans s.jobs s'.jobs _ m (
                      dispatch_snapshot_sync-Moves target.id "system" "automatic" fresh now s' m.0
                        (AddsNone-reconcile grace texts now s fresh missing)))
              ]
        ]
      ]
