-- ===== src/ControlPlane/Completed.antt =====
-- What a worker's report of a job's end comes to, accepted or refused.
use docker_volume_backup.Base.{
  none, refl, not, ap, ◌∙◌, ◌⊎◌, str_eq_iff, Bool-cases, if◌then◌else◌, ◌&&◌, ℕ, String, Bool, true,
  false, Option, some, List, ◌≡◌, arith, get, get-put, str_eq, Option-cases, inl, inr,
}
use docker_volume_backup.Json.{Fields}
use docker_volume_backup.Jobs.{JobStatus, normalize, JobRecord, Jobs, save, holds_lease}
use docker_volume_backup.Jobs.Grants.{Holds, holds_lease_lem}
use docker_volume_backup.Jobs.Invariant.{IsValid, get-IsConsistent}
use docker_volume_backup.ControlPlane.Defs.{
  BackupTargetRecord, ControlPlane, Error, sync_failed, ok, err,
}
use docker_volume_backup.ControlPlane.Leases.{Texts}
use docker_volume_backup.ControlPlane.Completion.{
  is_succeeded, is_outcome, completion_refusal, completed_job, update_job_status,
}
use docker_volume_backup.ControlPlane.Ending.{accepted_facts, completed-Moves, fresh_after}
use docker_volume_backup.ControlPlane.Kept.{schedule-kept}
use docker_volume_backup.ControlPlane.Dispatch.{publish}

-- What the checks of a completion come to: the worker holds the lease of the running job.
accepted-Holds :
    (worker_id : String) (status : JobStatus) (token : String) (now : ℕ) (job : JobRecord)
    → completion_refusal worker_id status token now job ≡ none
    → Holds worker_id token now job
unfolding holds_lease
accepted-Holds worker_id status token now job accepted =
    let (owned, running, same, alive, _) = accepted_facts worker_id status token now job accepted in
    (holds_lease_lem worker_id token now job).0 (ground arith)

abbrev pub is_sync_failed : Error → Bool
is_sync_failed sync_failed = true
is_sync_failed _ = false

refusal-is_sync_failed :
    (worker_id : String) (status : JobStatus) (token : String) (now : ℕ) (job : JobRecord)
    (e : Error)
    → completion_refusal worker_id status token now job ≡ some e
    → is_sync_failed e ≡ false
unfolding completion_refusal
refusal-is_sync_failed worker_id status token now job e refused = ground arith

module _ (grace : ℕ) (texts : Texts) (sync_payload : BackupTargetRecord → Option Fields)
    (synced : JobRecord → Bool) where
  -- What an accepted completion stores, before the catalogue sync.
  stored-completed :
      (status : JobStatus) (summary context : Option Fields) (lines : List String) (now : ℕ)
      (job_id : String) (job : JobRecord) (items : Jobs)
      → IsValid items
      → get job_id items ≡ some job
      → is_outcome (normalize status) ≡ true
      → let job' =
          completed_job grace texts sync_payload (normalize status) summary context lines now job in
        get job_id (save job' items) ≡ some job'
  unfolding save completed_job
  stored-completed status summary context lines now job_id job items v found outcome =
      let (c, at_id) = get-IsConsistent job_id items job v found in
      let job' =
        completed_job grace texts sync_payload (normalize status) summary context lines now job in
      let normal : normalize (normalize status) ≡ normalize status = ground arith in
      get-put job.id job_id (record job' { status = normalize (normalize status) }) items
      ∙ rw normal (ground (arith, str_eq_iff job.id job_id))

  -- A completion is accepted only from the worker that holds the lease of the running job, under the
  -- job's own token and before the lease runs out, and with a final status. Where the id of a
  -- catalogue sync that it may submit is new, the job that it answers is then stored under the id
  -- that was asked for, with that status and the time of the end.
  pub completion_needs_lease :
      (worker_id job_id : String) (status : JobStatus) (summary : Option Fields)
      (lines : List String) (token : String) (context : Option Fields) (fresh : String) (now : ℕ)
      (s : ControlPlane) (job job' : JobRecord)
      → IsValid s.jobs
      → get fresh s.jobs ≡ none
      → get job_id s.jobs ≡ some job
      → (update_job_status grace texts sync_payload synced worker_id job_id status summary lines
          token context fresh now s).0
        ≡ ok job'
      → let s' =
          (update_job_status grace texts sync_payload synced worker_id job_id status summary lines
            token context fresh now s).1 in
        Holds worker_id token now job
        × (is_outcome job'.status ≡ true)
        × (get job_id s'.jobs ≡ some job')
        × (job'.status ≡ normalize status)
        × (job'.finished_at ≡ some now)
        × (job'.id ≡ job.id)
  unfolding update_job_status completed_job
  completion_needs_lease worker_id job_id status summary lines token context fresh now s job job' v
        missing found accepted =
      elim (Option-cases (get worker_id s.workers)) [
        | inl stranger ↦ ground arith
        | inr (worker, known) ↦
            elim (Option-cases (completion_refusal worker_id (normalize status) token now job)) [
              | inr (e, refused) ↦ ground arith
              | inl passed ↦
                  let done =
                    completed_job grace texts sync_payload (normalize status) summary context lines
                      now job in
                  elim (Bool-cases (is_succeeded (normalize status) && not (synced done))) [
                    | inl failed_sync ↦ ground arith
                    | inr fine ↦
                        let s' = publish done (record s { jobs = save done s.jobs }) in
                        let (_, running, _, _, outcome) =
                          accepted_facts worker_id (normalize status) token now job passed in
                        let m =
                          completed-Moves grace texts sync_payload status summary context lines now
                            job_id job s.jobs v found running outcome in
                        let answer : done ≡ job' = ground arith in
                        (
                          accepted-Holds worker_id (normalize status) token now job passed,
                          ground arith,
                          rw (known, found, passed, fine, update_job_status)
                              (schedule-kept grace texts job_id done sync_payload done fresh now s'
                                  m.0 (ground arith)
                                  (fresh_after grace texts sync_payload status summary context lines
                                    now job_id fresh job s.jobs v found missing)
                                  (stored-completed status summary context lines now job_id job
                                    s.jobs v found outcome)
                                ∙ ap (λ x. some x) answer),
                          ground arith,
                          ground arith,
                          ground arith,
                        )
                  ]
            ]
      ]

  -- What a refused completion leaves. Either nothing changed, and the reason is not the catalogue;
  -- or the worker held the lease, the catalogue could not be brought up to date from the result, and
  -- the stored job has succeeded nevertheless, with the time of the end: no event of it is
  -- published, and no worker, no target and no other job changed.
  pub refused_completion_lem :
      (worker_id job_id : String) (status : JobStatus) (summary : Option Fields)
      (lines : List String) (token : String) (context : Option Fields) (fresh : String) (now : ℕ)
      (s : ControlPlane) (e : Error) (k : String)
      → (update_job_status grace texts sync_payload synced worker_id job_id status summary lines
          token context fresh now s).0
        ≡ err e
      → let s' =
          (update_job_status grace texts sync_payload synced worker_id job_id status summary lines
            token context fresh now s).1 in
        ((s' ≡ s) × (is_sync_failed e ≡ false))
        ⊎ ((e ≡ sync_failed)
            × (job : JobRecord) × (job' : JobRecord) × (get job_id s.jobs ≡ some job)
            × Holds worker_id token now job
            × (get k s'.jobs ≡ (if str_eq job_id k then some job' else get k s.jobs))
            × (job'.status ≡ JobStatus.succeeded)
            × (job'.finished_at ≡ some now)
            × (job'.id ≡ job.id)
            × (s'.workers ≡ s.workers)
            × (s'.targets ≡ s.targets)
            × (s'.published ≡ s.published))
  unfolding update_job_status completed_job
  refused_completion_lem worker_id job_id status summary lines token context fresh now s e k
        refused =
      elim (Option-cases (get worker_id s.workers)) [
        | inl stranger ↦ inl (ground arith, ground arith)
        | inr (worker, known) ↦ elim (Option-cases (get job_id s.jobs)) [
          | inl unknown ↦ inl (ground arith, ground arith)
          | inr (job, found) ↦
              elim (Option-cases (completion_refusal worker_id (normalize status) token now job)) [
                | inr (reason, why) ↦ inl (
                  ground arith,
                  ground (
                    arith,
                    refusal-is_sync_failed worker_id (normalize status) token now job reason why,
                  ),
                )
                | inl passed ↦
                    let done =
                      completed_job grace texts sync_payload (normalize status) summary context
                        lines now job in
                    elim (Bool-cases (is_succeeded (normalize status) && not (synced done))) [
                      | inr fine ↦ ground arith
                      | inl failed_sync ↦ inr (
                        ground arith,
                        job,
                        done,
                        found,
                        accepted-Holds worker_id (normalize status) token now job passed,
                        ground (arith, get-put job_id k done s.jobs),
                        ground arith,
                        refl,
                        refl,
                        ground arith,
                        ground arith,
                        ground arith,
                      )
                    ]
              ]
        ]
      ]
