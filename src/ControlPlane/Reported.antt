-- ===== src/ControlPlane/Reported.antt =====
-- What a worker's reports of progress and of its lease do to the jobs.
use docker_volume_backup.Base.{
  ℕ, ℤ, String, Option, none, some, List, ◌≡◌, ◌⊎◌, arith, get, Option-cases, inl, inr,
}
use docker_volume_backup.Json.{Fields}
use docker_volume_backup.Jobs.{JobRecord, Jobs, save, update_progress, progressed}
use docker_volume_backup.Jobs.Cases.{progress_cases}
use docker_volume_backup.Jobs.Invariant.{IsValid, save-IsValid, get-IsConsistent, progress-IsValid}
use docker_volume_backup.Jobs.Steps.{annotated-IsConsistent}
use docker_volume_backup.Jobs.Lifecycle.{
  leads_refl, Follows, Follows-refl, put-Follows, Moves, Moves-refl, Moves-trans,
}
use docker_volume_backup.ControlPlane.Defs.{ControlPlane}
use docker_volume_backup.ControlPlane.Leases.{Texts, reconcile_expired_jobs}
use docker_volume_backup.ControlPlane.Progress.{
  with_context, record_job_lease_diagnostic, progress_context, update_job_progress,
}
use docker_volume_backup.ControlPlane.Lifecycle.{reconcile_expired_jobs-Moves}

-- A save of a stored job under another summary.
annotated-Moves :
    (job_id : String) (job : JobRecord) (summary : Option Fields) (now : ℕ) (items : Jobs)
    → IsValid items
    → get job_id items ≡ some job
    → Moves items (save (record job { result_summary = summary; updated_at = now }) items)
unfolding save
annotated-Moves job_id job summary now items v found =
    let (c, at_id) = get-IsConsistent job_id items job v found in
    (
      save-IsValid _ items v (annotated-IsConsistent job summary now c),
      put-Follows job.id job _ items (rw at_id at found) (rw c.normal (leads_refl job.status)),
    )

progress-Follows :
    (job_id worker token : String) (sequence : ℤ) (progress : Fields) (lines : List String)
    (extra : Option Fields) (now : ℕ) (items : Jobs)
    → Follows items (update_progress job_id worker token sequence progress lines extra now items).1
unfolding progressed
progress-Follows job_id worker token sequence progress lines extra now items =
    elim (progress_cases job_id worker token sequence progress lines extra now items) [
      | inl same ↦ rw same (Follows-refl items)
      | inr (job, found, _, inl (_, same)) ↦ rw same (Follows-refl items)
      | inr (job, found, _, inr (_, e)) ↦
          rw e (put-Follows job_id job _ items found (leads_refl job.status))
    ]

module _ (grace : ℕ) (texts : Texts) where
  -- The jobs with the lease context that came with a report.
  abbrev noted : JobRecord → Option Fields → ℕ → Jobs → Jobs
  noted job none now items = items
  noted job (some c) now items =
      save (with_context (texts.lease_context job (some c) now) now job) items

  noted-Moves :
      (job_id : String) (job : JobRecord) (context : Option Fields) (now : ℕ) (items : Jobs)
      → IsValid items
      → get job_id items ≡ some job
      → Moves items (noted job context now items)
  noted-Moves job_id job none now items v found = Moves-refl items v
  noted-Moves job_id job (some c) now items v found = annotated-Moves job_id job _ now items v found

  update_job_progress_cases :
      (storage : JobRecord → Option Fields) (worker_id job_id : String) (sequence : ℤ)
      (progress : Fields) (lines : List String) (token : String) (context : Option Fields) (now : ℕ)
      (s : ControlPlane) (job : JobRecord)
      → get job_id s.jobs ≡ some job
      → let s' =
          (update_job_progress grace texts storage worker_id job_id
            (some (sequence, progress, lines))
            token
            context
            now
            s).1 in
        (s'.jobs ≡ s.jobs)
        ⊎ (s'.jobs
            ≡ (update_progress job_id worker_id token sequence progress lines
                (progress_context grace texts (storage job) context now job)
                now
                (noted job context now s.jobs)).1)
  unfolding update_job_progress
  update_job_progress_cases storage worker_id job_id sequence progress lines token none now s job
        found =
      ground arith
  update_job_progress_cases storage worker_id job_id sequence progress lines token (some c) now s
        job found =
      ground arith

  pub update_job_progress-Moves :
      (storage : JobRecord → Option Fields) (worker_id job_id : String)
      (report : Option (ℤ × Fields × List String)) (token : String) (context : Option Fields)
      (now : ℕ) (s : ControlPlane)
      → IsValid s.jobs
      → Moves s.jobs
          (update_job_progress grace texts storage worker_id job_id report token context now
            s).1.jobs
  unfolding update_job_progress
  update_job_progress-Moves storage worker_id job_id none token context now s v =
      let same : (update_job_progress grace texts storage worker_id job_id none token context now
            s).1.jobs
          ≡ s.jobs =
        ground arith in
      rw same (Moves-refl s.jobs v)
  update_job_progress-Moves storage worker_id job_id (some (sequence, progress, lines)) token
        context now s v =
      elim (Option-cases (get job_id s.jobs)) [
        | inl unknown ↦
            let same : (update_job_progress grace texts storage worker_id job_id
                  (some (sequence, progress, lines)) token context now s).1.jobs
                ≡ s.jobs =
              ground arith in
            rw same (Moves-refl s.jobs v)
        | inr (job, found) ↦
            elim (update_job_progress_cases storage worker_id job_id sequence progress lines token
              context now s job found) [
                | inl same ↦ rw same (Moves-refl s.jobs v)
                | inr updated ↦
                    let items = noted job context now s.jobs in
                    let m = noted-Moves job_id job context now s.jobs v found in
                    rw updated (
                      Moves-trans s.jobs items _ m (
                        progress-IsValid job_id worker_id token sequence progress lines _ now items
                            m.0,
                        progress-Follows job_id worker_id token sequence progress lines _ now items,
                      ))
              ]
      ]

  diagnostic_cases :
      (worker_id job_id token : String) (context : Option Fields) (now : ℕ) (s : ControlPlane)
      (job : JobRecord)
      → get job_id s.jobs ≡ some job
      → let s' = (record_job_lease_diagnostic grace texts worker_id job_id token context now s).1 in
        (s'.jobs ≡ s.jobs)
        ⊎ (s'.jobs ≡ (reconcile_expired_jobs grace texts now s).jobs)
        ⊎ (s'.jobs ≡ save (with_context (texts.lease_context job context now) now job) s.jobs)
  unfolding record_job_lease_diagnostic
  diagnostic_cases worker_id job_id token context now s job found = ground arith

  pub record_job_lease_diagnostic-Moves :
      (worker_id job_id token : String) (context : Option Fields) (now : ℕ) (s : ControlPlane)
      → IsValid s.jobs
      → Moves s.jobs
          (record_job_lease_diagnostic grace texts worker_id job_id token context now s).1.jobs
  unfolding record_job_lease_diagnostic
  record_job_lease_diagnostic-Moves worker_id job_id token context now s v =
      elim (Option-cases (get job_id s.jobs)) [
        | inl unknown ↦
            let same : (record_job_lease_diagnostic grace texts worker_id job_id token context now
                  s).1.jobs
                ≡ s.jobs =
              ground arith in
            rw same (Moves-refl s.jobs v)
        | inr (job, found) ↦
            elim (diagnostic_cases worker_id job_id token context now s job found) [
              | inl same ↦ rw same (Moves-refl s.jobs v)
              | inr (inl late) ↦ rw late (reconcile_expired_jobs-Moves grace texts now s v)
              | inr (inr noted) ↦ rw noted (annotated-Moves job_id job _ now s.jobs v found)
            ]
      ]
