-- ===== src/ControlPlane/Kept.antt =====
-- What the service's background work leaves alone: a job that has ended.
use docker_volume_backup.Base.{
  ℕ, String, false, Option, none, some, List, [], ◌∷◌, ◌≡◌, refl, ap, ◌∙◌, arith, get, get-put,
  str_eq, str_eq_iff, find_first, All, Option-cases, inl, inr,
}
use docker_volume_backup.Json.{Fields, obj, assign}
use docker_volume_backup.Jobs.{
  summary_of, normalize, is_in_progress, JobRecord, Jobs, list_jobs, save, is_expired,
  list_for_lease_context, update_lease_context,
}
use docker_volume_backup.Jobs.Cases.{map_job, reconciled, get-reconcile}
use docker_volume_backup.Jobs.Invariant.{IsValid}
use docker_volume_backup.ControlPlane.Defs.{BackupTargetRecord, ControlPlane, Result-cases}
use docker_volume_backup.ControlPlane.Workers.{require_eligible_worker}
use docker_volume_backup.ControlPlane.Dispatch.{new_job, dispatch_job}
use docker_volume_backup.ControlPlane.Leases.{
  Texts, expired_context, note_expired, capture_loop, reconcile_expired_jobs,
}
use docker_volume_backup.ControlPlane.Completion.{
  is_active_sync, dispatch_snapshot_sync_for_target, schedule_snapshot_sync,
}
use docker_volume_backup.ControlPlane.Lifecycle.{
  noted_jobs, jobs-reconcile_expired_jobs, reconcile_expired_jobs-Moves, AddsNone-reconcile,
  dispatch_job_cases,
}
use docker_volume_backup.ControlPlane.Syncing.{schedule_idle, schedule_cases}

-- No job of the list has the id `k`.
abbrev Without : String → List JobRecord → Type 0
Without k jobs = All (λ job. str_eq job.id k ≡ false) jobs

Without-missing :
    (k : String) (items : Jobs)
    → IsValid items
    → get k items ≡ none
    → Without k (list_for_lease_context items)
unfolding list_for_lease_context
Without-missing k [] v h = tt
Without-missing k ((j, job) ∷ items) v h =
    ground (arith, v.0, str_eq_iff j k, str_eq_iff job.id k, Without-missing k items v.3)

Without-ended :
    (k : String) (job : JobRecord) (items : Jobs)
    → IsValid items
    → get k items ≡ some job
    → is_in_progress (normalize job.status) ≡ false
    → Without k (list_for_lease_context items)
unfolding list_for_lease_context
Without-ended k job [] v h over = cc
Without-ended k job ((j, job') ∷ items) v h over = ground (
  arith,
  v.0,
  str_eq_iff j k,
  str_eq_iff job'.id k,
  Without-missing k items v.3,
  Without-ended k job items v.3,
)

module _ (grace : ℕ) (texts : Texts) (k : String) where
  note_expired-kept :
      (now : ℕ) (job : JobRecord) (s : ControlPlane)
      → str_eq job.id k ≡ false
      → get k (note_expired grace texts now job s).1.jobs ≡ get k s.jobs
  unfolding note_expired update_lease_context
  note_expired-kept now job s other = elim (Option-cases (get job.id s.jobs)) [
    | inl absent ↦ ground arith
    | inr (old, found) ↦
        let context = expired_context grace texts now job s in
        let noted = record old {
          result_summary = some (assign "lease_context" (obj context) (summary_of old));
        } in
        ground (arith, get-put job.id k noted s.jobs)
  ]

  capture_loop-kept :
      (now : ℕ) (jobs : List JobRecord) (s : ControlPlane)
      → Without k jobs
      → get k (capture_loop grace texts now jobs s).1.jobs ≡ get k s.jobs
  unfolding capture_loop
  capture_loop-kept now [] s w = refl
  capture_loop-kept now (job ∷ jobs) s w =
      capture_loop-kept now jobs (note_expired grace texts now job s).1 w.1
      ∙ note_expired-kept now job s w.0

not_expired :
    (now : ℕ) (job : JobRecord)
    → is_in_progress (normalize job.status) ≡ false
    → is_expired now job ≡ false
unfolding is_expired
not_expired now job over = ground arith

module _ (grace : ℕ) (texts : Texts) (k : String) (job : JobRecord) where
  pub reconcile-kept :
      (now : ℕ) (s : ControlPlane)
      → IsValid s.jobs
      → is_in_progress (normalize job.status) ≡ false
      → get k s.jobs ≡ some job
      → get k (reconcile_expired_jobs grace texts now s).jobs ≡ some job
  reconcile-kept now s v over found =
      let noted = noted_jobs grace texts now s in
      let still =
        capture_loop-kept grace texts k now (list_for_lease_context s.jobs) s
          (Without-ended k job s.jobs v found over) in
      ap (get k) (jobs-reconcile_expired_jobs grace texts now s)
      ∙ get-reconcile now k noted
      ∙ ap (map_job (reconciled now)) (still ∙ found)
      ∙ ground (arith, not_expired now job over)

  dispatch-kept :
      (worker_id command : String) (payload : Fields) (requested_by : String)
      (target_id : Option String) (trigger fresh : String) (now : ℕ) (s : ControlPlane)
      → get fresh s.jobs ≡ none
      → get k s.jobs ≡ some job
      → get k
          (dispatch_job grace worker_id command payload requested_by target_id trigger fresh now
            s).1.jobs
        ≡ some job
  unfolding save new_job
  dispatch-kept worker_id command payload requested_by target_id trigger fresh now s missing found =
      let new = new_job worker_id command payload requested_by target_id trigger fresh now in
      elim (dispatch_job_cases grace worker_id command payload requested_by target_id trigger fresh
        now s) [
          | inl same ↦ ap (get k) same ∙ found
          | inr added ↦
              ap (get k) added ∙ get-put fresh k new s.jobs ∙ ground (arith, str_eq_iff fresh k)
        ]

  module _ (sync_payload : BackupTargetRecord → Option Fields) where
    sync-kept :
        (target_id requested_by trigger fresh : String) (now : ℕ) (s : ControlPlane)
        → IsValid s.jobs
        → is_in_progress (normalize job.status) ≡ false
        → get fresh s.jobs ≡ none
        → get k s.jobs ≡ some job
        → get k
            (dispatch_snapshot_sync_for_target grace texts sync_payload target_id requested_by
              trigger fresh now s).1.jobs
          ≡ some job
    unfolding dispatch_snapshot_sync_for_target
    sync-kept target_id requested_by trigger fresh now s v over missing found =
        let s' = reconcile_expired_jobs grace texts now s in
        let still = reconcile-kept now s v over found in
        elim (Option-cases (get target_id s.targets)) [
          | inl unknown ↦ rw (unknown, dispatch_snapshot_sync_for_target) found
          | inr (target, known) ↦
              elim (Result-cases (require_eligible_worker grace now target.worker_id s)) [
                | inr (e, refused) ↦ rw (known, refused, dispatch_snapshot_sync_for_target) found
                | inl (worker, eligible) ↦
                    elim (Option-cases (
                      find_first (is_active_sync target.id target.worker_id) (list_jobs s'.jobs))) [
                        | inr (old, active) ↦
                            rw (known, eligible, active, dispatch_snapshot_sync_for_target) still
                        | inl new ↦ elim (Option-cases (sync_payload target)) [
                          | inl bad ↦
                              rw (known, eligible, new, bad, dispatch_snapshot_sync_for_target)
                                still
                          | inr (p, built) ↦
                              rw (known, eligible, new, built, dispatch_snapshot_sync_for_target)
                                (dispatch-kept target.worker_id "snapshots.list" p requested_by
                                  (some target.id) trigger fresh now s'
                                  (AddsNone-reconcile grace texts now s fresh missing) still)
                        ]
                      ]
              ]
        ]

    -- A job that does not run is kept as it is by the sync that follows a completion.
    pub schedule-kept :
        (done : JobRecord) (fresh : String) (now : ℕ) (s : ControlPlane)
        → IsValid s.jobs
        → is_in_progress (normalize job.status) ≡ false
        → get fresh s.jobs ≡ none
        → get k s.jobs ≡ some job
        → get k (schedule_snapshot_sync grace texts sync_payload done fresh now s).jobs ≡ some job
    schedule-kept done fresh now s v over missing found =
        let s' = reconcile_expired_jobs grace texts now s in
        let still = reconcile-kept now s v over found in
        elim (Option-cases done.target_id) [
          | inl no_target ↦
              rw (schedule_idle grace texts sync_payload done fresh now s (inl no_target)) found
          | inr (target_id, has) ↦ elim (Option-cases (get target_id s.targets)) [
            | inl unknown ↦
                rw
                  (schedule_idle grace texts sync_payload done fresh now s
                    (inr (target_id, has, unknown)))
                  found
            | inr (target, known) ↦
                elim (schedule_cases grace texts sync_payload done fresh now s target target_id has
                  known) [
                    | inl a ↦ rw a found
                    | inr (inl b) ↦ rw b still
                    | inr (inr c) ↦ rw c (
                        sync-kept target.id "system" "automatic" fresh now s'
                          (reconcile_expired_jobs-Moves grace texts now s v).0 over
                          (AddsNone-reconcile grace texts now s fresh missing) still)
                  ]
          ]
        ]
