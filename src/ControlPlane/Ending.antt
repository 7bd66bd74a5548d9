-- ===== src/ControlPlane/Ending.antt =====
-- Completion and cancellation: what they do to the jobs.
use docker_volume_backup.Base.{
  ℕ, String, Bool, true, not, ◌&&◌, Option, none, some, List, ◌≡◌, refl, ◌∙◌, arith, get, put,
  get-put, str_eq, str_eq_iff, opt_eq, or_else, Bool-cases, Option-cases, inl, inr,
}
use docker_volume_backup.Json.{Fields}
use docker_volume_backup.Jobs.{
  JobStatus, normalize, is_in_progress, JobRecord, Jobs, save, unexpired,
}
use docker_volume_backup.Jobs.Invariant.{IsConsistent, IsValid, put-IsValid, get-IsConsistent}
use docker_volume_backup.Jobs.Lifecycle.{leads, put-Follows, Moves, Moves-refl, Moves-trans}
use docker_volume_backup.ControlPlane.Defs.{BackupTargetRecord, ControlPlane}
use docker_volume_backup.ControlPlane.Dispatch.{is_active, publish}
use docker_volume_backup.ControlPlane.Leases.{Texts, reconcile_expired_jobs}
use docker_volume_backup.ControlPlane.Completion.{
  is_succeeded, completion_refusal, is_outcome, completed_job, update_job_status, canceled_job,
  cancel_job,
}
use docker_volume_backup.ControlPlane.Lifecycle.{reconcile_expired_jobs-Moves}
use docker_volume_backup.ControlPlane.Syncing.{schedule_snapshot_sync-Moves}

leads-outcome :
    (from to : JobStatus)
    → is_in_progress (normalize from) ≡ true
    → is_outcome (normalize to) ≡ true
    → leads from (normalize (normalize to)) ≡ true
leads-outcome from to running outcome = ground arith

-- What an accepted completion has shown.
pub accepted_facts :
    (worker_id : String) (status : JobStatus) (token : String) (now : ℕ) (job : JobRecord)
    → completion_refusal worker_id status token now job ≡ none
    → (opt_eq job.owner_worker_id worker_id ≡ true)
      × (is_in_progress (normalize job.status) ≡ true)
      × (str_eq (or_else job.lease_token "") token ≡ true)
      × (unexpired now job.lease_expires_at ≡ true)
      × (is_outcome status ≡ true)
unfolding completion_refusal
accepted_facts worker_id status token now job h = ground arith

canceled-IsConsistent :
    (now : ℕ) (job : JobRecord)
    → IsConsistent (record (canceled_job now job) { status = JobStatus.canceled })
unfolding canceled_job
canceled-IsConsistent now job = ground arith

leads-canceled :
    (job : JobRecord) → is_active job ≡ true → leads job.status JobStatus.canceled ≡ true
leads-canceled job active = ground arith

canceled-Moves :
    (now : ℕ) (job_id : String) (job : JobRecord) (items : Jobs)
    → IsValid items
    → get job_id items ≡ some job
    → is_active job ≡ true
    → Moves items (save (canceled_job now job) items)
unfolding save canceled_job
canceled-Moves now job_id job items v found active =
    let (c, at_id) = get-IsConsistent job_id items job v found in
    (
      put-IsValid job.id _ items v refl (canceled-IsConsistent now job),
      put-Follows job.id job _ items (rw at_id at found) (leads-canceled job active),
    )

module _ (grace : ℕ) (texts : Texts) (sync_payload : BackupTargetRecord → Option Fields) where
  completed-IsConsistent :
      (status : JobStatus) (summary context : Option Fields) (lines : List String) (now : ℕ)
      (job : JobRecord)
      → is_outcome (normalize status) ≡ true
      → IsConsistent
          (record (completed_job grace texts sync_payload
            (normalize status)
            summary
            context
            lines
            now
            job) { status = normalize (normalize status) })
  unfolding completed_job
  completed-IsConsistent status summary context lines now job h = ground arith

  -- What a completion saves, before the catalogue sync.
  pub completed-Moves :
      (status : JobStatus) (summary context : Option Fields) (lines : List String) (now : ℕ)
      (job_id : String) (job : JobRecord) (items : Jobs)
      → IsValid items
      → get job_id items ≡ some job
      → is_in_progress (normalize job.status) ≡ true
      → is_outcome (normalize status) ≡ true
      → Moves items (
          save
            (completed_job grace texts sync_payload
              (normalize status)
              summary
              context
              lines
              now
              job)
            items)
  unfolding save completed_job
  completed-Moves status summary context lines now job_id job items v found running outcome =
      let (c, at_id) = get-IsConsistent job_id items job v found in
      (
        put-IsValid job.id _ items v refl
            (completed-IsConsistent status summary context lines now job outcome),
        put-Follows job.id job _ items (rw at_id at found)
            (leads-outcome job.status status running outcome),
      )

  -- The job in place, where the catalogue could not be synced.
  kept-Moves :
      (status : JobStatus) (summary context : Option Fields) (lines : List String) (now : ℕ)
      (job_id : String) (job : JobRecord) (items : Jobs)
      → IsValid items
      → get job_id items ≡ some job
      → is_in_progress (normalize job.status) ≡ true
      → is_outcome (normalize status) ≡ true
      → Moves items (
          put job_id
            (completed_job grace texts sync_payload
              (normalize status)
              summary
              context
              lines
              now
              job)
            items)
  unfolding completed_job
  kept-Moves status summary context lines now job_id job items v found running outcome =
      let (c, at_id) = get-IsConsistent job_id items job v found in
      (
        put-IsValid job_id _ items v at_id (ground arith),
        put-Follows job_id job _ items found (ground arith),
      )

  pub fresh_after :
      (status : JobStatus) (summary context : Option Fields) (lines : List String) (now : ℕ)
      (job_id fresh : String) (job : JobRecord) (items : Jobs)
      → IsValid items
      → get job_id items ≡ some job
      → get fresh items ≡ none
      → get fresh (
          save
            (completed_job grace texts sync_payload
              (normalize status)
              summary
              context
              lines
              now
              job)
            items)
        ≡ none
  unfolding save completed_job
  fresh_after status summary context lines now job_id fresh job items v found missing =
      let (c, at_id) = get-IsConsistent job_id items job v found in
      get-put job.id fresh _ items ∙ ground (arith, str_eq_iff job.id fresh)

  pub update_job_status-Moves :
      (synced : JobRecord → Bool) (worker_id job_id : String) (status : JobStatus)
      (summary : Option Fields) (lines : List String) (token : String) (context : Option Fields)
      (fresh : String) (now : ℕ) (s : ControlPlane)
      → IsValid s.jobs
      → get fresh s.jobs ≡ none
      → Moves s.jobs
          (update_job_status grace texts sync_payload synced worker_id job_id status summary lines
            token context fresh now s).1.jobs
  unfolding update_job_status
  update_job_status-Moves synced worker_id job_id status summary lines token context fresh now s v
        missing =
      let same = Moves-refl s.jobs v in
      elim (Option-cases (get worker_id s.workers)) [
        | inl stranger ↦ rw (stranger, update_job_status) same
        | inr (worker, known) ↦ elim (Option-cases (get job_id s.jobs)) [
          | inl unknown ↦ rw (known, unknown, update_job_status) same
          | inr (job, found) ↦
              elim (Option-cases (completion_refusal worker_id (normalize status) token now job)) [
                | inr (e, refused) ↦ rw (known, found, refused, update_job_status) same
                | inl accepted ↦
                    let job' =
                      completed_job grace texts sync_payload (normalize status) summary context
                        lines now job in
                    let (_, running, _, _, outcome) =
                      accepted_facts worker_id (normalize status) token now job accepted in
                    elim (Bool-cases (is_succeeded (normalize status) && not (synced job'))) [
                      | inl failed_sync ↦
                          rw (known, found, accepted, failed_sync, update_job_status)
                            (kept-Moves status summary context lines now job_id job s.jobs v found
                              running outcome)
                      | inr fine ↦
                          rw (known, found, accepted, fine, update_job_status)
                            (let s' = publish job' (record s { jobs = save job' s.jobs }) in
                              let m =
                                completed-Moves status summary context lines now job_id job s.jobs v
                                  found running outcome in
                              Moves-trans s.jobs s'.jobs _ m (
                                schedule_snapshot_sync-Moves grace texts sync_payload job' fresh now
                                  s' m.0
                                  (fresh_after status summary context lines now job_id fresh job
                                    s.jobs v found missing)))
                    ]
              ]
        ]
      ]

module _ (grace : ℕ) (texts : Texts) where
  pub cancel_job-Moves :
      (job_id : String) (now : ℕ) (s : ControlPlane)
      → IsValid s.jobs
      → Moves s.jobs (cancel_job grace texts job_id now s).1.jobs
  unfolding cancel_job
  cancel_job-Moves job_id now s v =
      let s' = reconcile_expired_jobs grace texts now s in
      let m = reconcile_expired_jobs-Moves grace texts now s v in
      elim (Option-cases (get job_id s'.jobs)) [
        | inl unknown ↦ rw (unknown, cancel_job) m
        | inr (job, found) ↦ elim (Bool-cases (is_active job)) [
          | inr ended ↦ rw (found, ended, cancel_job) m
          | inl active ↦
              rw (found, active, cancel_job)
                (Moves-trans s.jobs s'.jobs _ m
                  (canceled-Moves now job_id job s'.jobs m.0 found active))
        ]
      ]
