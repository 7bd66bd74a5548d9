-- ===== src/ControlPlane/Lifecycle.antt =====
-- What the service's methods do to the jobs: the repository stays valid and no job moves against
-- the life of a job, on every branch of every method.
use docker_volume_backup.Base.{
  ℕ, String, pos, ◌&&◌, Option, none, some, List, [], ◌∷◌, ◌≡◌, refl, sym, ap, subst, ◌∙◌, arith,
  get, get-put, str_eq_iff, Bool-cases, Option-cases, ◌⊎◌, inl, inr,
}
use docker_volume_backup.Json.{Fields, obj, assign}
use docker_volume_backup.Jobs.{
  summary_of, JobRecord, Jobs, save, update_lease_context, list_for_lease_context,
  reconcile_expired_leases, renew_lease, claim_pending_for_worker,
}
use docker_volume_backup.Jobs.Invariant.{
  IsValid, put-IsValid, reconcile-IsValid, claim-IsValid, renew-IsValid,
}
use docker_volume_backup.Jobs.Cases.{map_job, reconciled, get-reconcile}
use docker_volume_backup.Jobs.Steps.{context-IsValid}
use docker_volume_backup.Jobs.Lifecycle.{
  put_new-Follows, context-Follows, reconcile-Follows, claim-Follows, renew-Follows, Moves,
  Moves-refl, Moves-trans,
}
use docker_volume_backup.ControlPlane.Defs.{ControlPlane, Result-cases}
use docker_volume_backup.ControlPlane.Workers.{require_eligible_worker}
use docker_volume_backup.ControlPlane.Dispatch.{publish, new_job, dispatch_job}
use docker_volume_backup.ControlPlane.Leases.{
  Texts, expired_context, job_lease_expired, note_expired, capture_loop, publish_if_failed,
  publish_failed, reconcile_expired_jobs, publish_all, fetch_jobs_for_worker, renew_job_lease,
}

module _ (grace : ℕ) (texts : Texts) where
  jobs-publish_if_failed :
      (job_id : String) (s : ControlPlane) → (publish_if_failed grace texts job_id s).jobs ≡ s.jobs
  unfolding publish_if_failed
  jobs-publish_if_failed job_id s = ground arith

  jobs-publish_failed :
      (ids : List String) (s : ControlPlane) → (publish_failed grace texts ids s).jobs ≡ s.jobs
  unfolding publish_failed
  jobs-publish_failed [] s = refl
  jobs-publish_failed (job_id ∷ ids) s =
      jobs-publish_failed ids (publish_if_failed grace texts job_id s)
      ∙ jobs-publish_if_failed job_id s

  jobs-publish_all :
      (taken : List JobRecord) (s : ControlPlane) → (publish_all grace texts taken s).jobs ≡ s.jobs
  unfolding publish_all
  jobs-publish_all [] s = refl
  jobs-publish_all (job ∷ taken) s = jobs-publish_all taken (publish job s)

  note_expired-Moves :
      (now : ℕ) (job : JobRecord) (s : ControlPlane)
      → IsValid s.jobs
      → Moves s.jobs (note_expired grace texts now job s).1.jobs
  unfolding note_expired
  note_expired-Moves now job s v =
      let context = expired_context grace texts now job s in
      let noted = (update_lease_context job.id context s.jobs).0 in
      elim (Bool-cases (job_lease_expired grace texts now job && noted)) [
        | inl take ↦
            rw (take, note_expired)
              (context-IsValid job.id context s.jobs v, context-Follows job.id context s.jobs)
        | inr skip ↦ rw (skip, note_expired) (Moves-refl s.jobs v)
      ]

  capture_loop-Moves :
      (now : ℕ) (jobs : List JobRecord) (s : ControlPlane)
      → IsValid s.jobs
      → Moves s.jobs (capture_loop grace texts now jobs s).1.jobs
  unfolding capture_loop
  capture_loop-Moves now [] s v = Moves-refl s.jobs v
  capture_loop-Moves now (job ∷ jobs) s v =
      let s' = (note_expired grace texts now job s).1 in
      let m = note_expired-Moves now job s v in
      Moves-trans s.jobs s'.jobs _ m (capture_loop-Moves now jobs s' m.0)

  -- The jobs after `_capture_expired_lease_context`.
  abbrev pub noted_jobs : ℕ → ControlPlane → Jobs
  noted_jobs now s = (capture_loop grace texts now (list_for_lease_context s.jobs) s).1.jobs

  pub jobs-reconcile_expired_jobs :
      (now : ℕ) (s : ControlPlane)
      → (reconcile_expired_jobs grace texts now s).jobs
        ≡ (reconcile_expired_leases now (noted_jobs now s)).0
  unfolding reconcile_expired_jobs
  jobs-reconcile_expired_jobs now s =
      let (ids, noted) = capture_loop grace texts now (list_for_lease_context s.jobs) s in
      let (items, n) = reconcile_expired_leases now noted.jobs in
      ground (arith, jobs-publish_failed ids (record noted { jobs = items }))

  pub reconcile_expired_jobs-Moves :
      (now : ℕ) (s : ControlPlane)
      → IsValid s.jobs
      → Moves s.jobs (reconcile_expired_jobs grace texts now s).jobs
  reconcile_expired_jobs-Moves now s v =
      let noted = noted_jobs now s in
      let m = capture_loop-Moves now (list_for_lease_context s.jobs) s v in
      subst (Moves s.jobs) (sym (jobs-reconcile_expired_jobs now s)) (
        Moves-trans s.jobs noted _ m (reconcile-IsValid now noted m.0, reconcile-Follows now noted))

  pub fetch_jobs_for_worker-Moves :
      (worker_id : String) (tokens : ℕ → String) (now : ℕ) (s : ControlPlane)
      → IsValid s.jobs
      → Moves s.jobs (fetch_jobs_for_worker grace texts worker_id tokens now s).1.jobs
  unfolding fetch_jobs_for_worker
  fetch_jobs_for_worker-Moves worker_id tokens now s v =
      let s' = reconcile_expired_jobs grace texts now s in
      let m = reconcile_expired_jobs-Moves now s v in
      elim (Result-cases (require_eligible_worker grace now worker_id s)) [
        | inr (e, refused) ↦ rw (refused, fetch_jobs_for_worker) (Moves-refl s.jobs v)
        | inl (worker, eligible) ↦
            elim (Option-cases (claim_pending_for_worker worker_id (pos 300) tokens now s'.jobs)) [
              | inl none_given ↦ rw (eligible, none_given, fetch_jobs_for_worker) m
              | inr (r, granted) ↦
                  rw (eligible, granted, fetch_jobs_for_worker)
                    (subst (Moves s.jobs) (sym (jobs-publish_all r.0 (record s' { jobs = r.1 }))) (
                      Moves-trans s.jobs s'.jobs r.1 m (
                        claim-IsValid worker_id (pos 300) tokens now s'.jobs m.0 granted,
                        claim-Follows worker_id (pos 300) tokens now s'.jobs r m.0 granted,
                      )))
            ]
      ]

  renew_job_lease_cases :
      (worker_id job_id token : String) (now : ℕ) (s : ControlPlane) (r : Option JobRecord × Jobs)
      → renew_lease job_id worker_id token (pos 300) now s.jobs ≡ some r
      → let s' = (renew_job_lease grace texts worker_id job_id token now s).1 in
        (s'.jobs ≡ s.jobs)
        ⊎ (s'.jobs ≡ (reconcile_expired_jobs grace texts now s).jobs)
        ⊎ (s'.jobs ≡ r.1)
  unfolding renew_job_lease
  renew_job_lease_cases worker_id job_id token now s (none, items) e = ground arith
  renew_job_lease_cases worker_id job_id token now s (some renewed, items) e = ground arith

  pub renew_job_lease-Moves :
      (worker_id job_id token : String) (now : ℕ) (s : ControlPlane)
      → IsValid s.jobs
      → Moves s.jobs (renew_job_lease grace texts worker_id job_id token now s).1.jobs
  unfolding renew_job_lease
  renew_job_lease-Moves worker_id job_id token now s v =
      let same = Moves-refl s.jobs v in
      let late = reconcile_expired_jobs-Moves now s v in
      elim (Option-cases (renew_lease job_id worker_id token (pos 300) now s.jobs)) [
        | inl refused ↦ ground (arith, same, late, refused)
        | inr (r, e) ↦ elim (renew_job_lease_cases worker_id job_id token now s r e) [
          | inl a ↦ rw a same
          | inr (inl b) ↦ rw b late
          | inr (inr c) ↦ rw c (
            renew-IsValid job_id worker_id token (pos 300) now s.jobs r v e,
            renew-Follows job_id worker_id token (pos 300) now s.jobs r e,
          )
        ]
      ]

-- No method of the repository but `save` makes a job.
abbrev pub AddsNone : Jobs → Jobs → Type 0
AddsNone items items' = (k : String) → get k items ≡ none → get k items' ≡ none

module _ (grace : ℕ) (texts : Texts) where
  AddsNone-note_expired :
      (now : ℕ) (job : JobRecord) (s : ControlPlane)
      → AddsNone s.jobs (note_expired grace texts now job s).1.jobs
  unfolding note_expired update_lease_context
  AddsNone-note_expired now job s k missing = elim (Option-cases (get job.id s.jobs)) [
    | inl absent ↦ ground arith
    | inr (old, found) ↦
        let context = expired_context grace texts now job s in
        let noted = record old {
          result_summary = some (assign "lease_context" (obj context) (summary_of old));
        } in
        ground (arith, str_eq_iff job.id k, get-put job.id k noted s.jobs)
  ]

  AddsNone-capture_loop :
      (now : ℕ) (jobs : List JobRecord) (s : ControlPlane)
      → AddsNone s.jobs (capture_loop grace texts now jobs s).1.jobs
  unfolding capture_loop
  AddsNone-capture_loop now [] s k missing = missing
  AddsNone-capture_loop now (job ∷ jobs) s k missing =
      AddsNone-capture_loop now jobs (note_expired grace texts now job s).1 k
        (AddsNone-note_expired now job s k missing)

  pub AddsNone-reconcile :
      (now : ℕ) (s : ControlPlane) → AddsNone s.jobs (reconcile_expired_jobs grace texts now s).jobs
  AddsNone-reconcile now s k missing =
      let noted = noted_jobs grace texts now s in
      ap (get k) (jobs-reconcile_expired_jobs grace texts now s)
      ∙ get-reconcile now k noted
      ∙ ap (map_job (reconciled now))
          (AddsNone-capture_loop now (list_for_lease_context s.jobs) s k missing)

-- A new job may be saved under an id that no job has.
save_new-Moves :
    (worker_id command : String) (payload : Fields) (requested_by : String)
    (target_id : Option String) (trigger fresh : String) (now : ℕ) (items : Jobs)
    → IsValid items
    → get fresh items ≡ none
    → Moves items
        (save (new_job worker_id command payload requested_by target_id trigger fresh now) items)
unfolding save new_job
save_new-Moves worker_id command payload requested_by target_id trigger fresh now items v missing =
    (put-IsValid fresh _ items v refl (ground arith), put_new-Follows fresh _ items missing)

module _ (grace : ℕ) where
  pub dispatch_job_cases :
      (worker_id command : String) (payload : Fields) (requested_by : String)
      (target_id : Option String) (trigger fresh : String) (now : ℕ) (s : ControlPlane)
      → let s' =
          (dispatch_job grace worker_id command payload requested_by target_id trigger fresh now
            s).1 in
        (s'.jobs ≡ s.jobs)
        ⊎ (s'.jobs
            ≡ save
                (new_job worker_id command payload requested_by target_id trigger fresh now)
                s.jobs)
  unfolding dispatch_job
  dispatch_job_cases worker_id command payload requested_by target_id trigger fresh now s =
      ground arith

  pub dispatch_job-Moves :
      (worker_id command : String) (payload : Fields) (requested_by : String)
      (target_id : Option String) (trigger fresh : String) (now : ℕ) (s : ControlPlane)
      → IsValid s.jobs
      → get fresh s.jobs ≡ none
      → Moves s.jobs
          (dispatch_job grace worker_id command payload requested_by target_id trigger fresh now
            s).1.jobs
  dispatch_job-Moves worker_id command payload requested_by target_id trigger fresh now s v
        missing =
      elim (dispatch_job_cases worker_id command payload requested_by target_id trigger fresh now
        s) [
          | inl same ↦ rw same (Moves-refl s.jobs v)
          | inr new ↦ rw new (
              save_new-Moves worker_id command payload requested_by target_id trigger fresh now
                s.jobs v missing)
        ]
