-- ===== src/ControlPlane/Leases.antt =====
-- The service's methods on leases: reconciliation, fetch and renewal.
use docker_volume_backup.Base.{
  ℕ, String, Bool, not, ◌&&◌, Option, none, some, List, [], ◌∷◌, pos, get, leb, str_eq, opt_eq,
  or_else, if◌then◌else◌,
}
use docker_volume_backup.Json.{Value, text, null, moment, Fields, assign}
use docker_volume_backup.Jobs.{
  JobStatus, normalize, is_in_progress, JobRecord, text_or, datetime_text, list_for_lease_context,
  update_lease_context, lapsed, unexpired, reconcile_expired_leases, renew_lease,
  claim_pending_for_worker,
}
use docker_volume_backup.ControlPlane.Defs.{
  WorkerStatus, is_disabled, WorkerRecord, ControlPlane, worker_not_found, worker_is_disabled,
  job_not_found, not_owner, stale_token, lease_expired, not_in_progress, bad_payload, Result, ok,
  err,
}
use docker_volume_backup.ControlPlane.Workers.{worker_status, require_eligible_worker, save_worker}
use mathlib.Core.Option
use docker_volume_backup.ControlPlane.Dispatch.{publish}

-- The parts of the service that write summaries and logs; no theorem depends on what they write.
pub record Texts : Type 0 where
  -- `_lease_context_for_job(job, incoming, now)`
  pub lease_context : JobRecord → Option Fields → ℕ → Fields
  -- the summary that `update_job_status` stores, from the worker's and the lease context
  pub completed : JobRecord → Option Fields → Option Fields → ℕ → Option Fields
  -- `_bounded_job_log_lines`
  pub bounded_lines : JobRecord → List String → List String
  -- `re.search` of `forget` or `prune` in the command of the job's payload
  pub mentions_pruning : JobRecord → Bool

abbrev pub status_text : WorkerStatus → String
status_text WorkerStatus.pending = "pending"
status_text WorkerStatus.online = "online"
status_text WorkerStatus.offline = "offline"
status_text WorkerStatus.disabled = "disabled"

module _ (grace : ℕ) (texts : Texts) where
  -- The context that `_capture_expired_lease_context` notes for an expired job.
  unfoldable pub expired_context : ℕ → JobRecord → ControlPlane → Fields
  unfolding assign worker_status
  expired_context now job s =
      let holder = text_or job.owner_worker_id job.worker_id in
      let worker : Option WorkerRecord = if str_eq holder "" then none else get holder s.workers in
      let status : String =
        or_else (Option.map (λ w. status_text (worker_status grace now w)) worker) "missing" in
      let seen : Value = elim worker [ none ↦ null | some w ↦ datetime_text w.last_seen_at ] in
      assign "last_repository_update_at" (moment job.updated_at) (
        assign "worker_last_seen_at" seen (
          assign "worker_status" (text status)
            (assign "worker_id" (text holder) (texts.lease_context job none now))))

  -- `_job_lease_expired`
  abbrev pub job_lease_expired : ℕ → JobRecord → Bool
  job_lease_expired now job =
      is_in_progress (normalize job.status) && lapsed now job.lease_expires_at

  -- One round of `_capture_expired_lease_context`: whether the job's id is noted, and the state.
  unfoldable pub note_expired : ℕ → JobRecord → ControlPlane → Bool × ControlPlane
  unfolding expired_context update_lease_context
  note_expired now job s =
      let (noted, items) = update_lease_context job.id (expired_context now job s) s.jobs in
      let take = job_lease_expired now job && noted in
      (take, if take then record s { jobs = items } else s)

  -- The loop of `_capture_expired_lease_context`: the ids that it notes, and the state after it.
  unfoldable pub capture_loop : ℕ → List JobRecord → ControlPlane → List String × ControlPlane
  unfolding note_expired
  capture_loop now [] s = ([], s)
  capture_loop now (job ∷ jobs) s =
      let (take, s') = note_expired now job s in
      let (ids, s'') = capture_loop now jobs s' in (if take then job.id ∷ ids else ids, s'')

  unfoldable pub publish_if_failed : String → ControlPlane → ControlPlane
  publish_if_failed job_id s = elim (get job_id s.jobs) [
    | none ↦ s
    | some job ↦ elim (normalize job.status) [ JobStatus.failed ↦ publish job s | _ ↦ s ]
  ]

  unfoldable pub publish_failed : List String → ControlPlane → ControlPlane
  unfolding publish_if_failed
  publish_failed [] s = s
  publish_failed (job_id ∷ ids) s = publish_failed ids (publish_if_failed job_id s)

  -- `_reconcile_expired_jobs`
  unfoldable pub reconcile_expired_jobs : ℕ → ControlPlane → ControlPlane
  unfolding capture_loop publish_failed list_for_lease_context
  reconcile_expired_jobs now s =
      let (ids, noted) = capture_loop now (list_for_lease_context s.jobs) s in
      let (items, n) = reconcile_expired_leases now noted.jobs in
      let s' = record noted { jobs = items } in if leb 1 n then publish_failed ids s' else s'

  unfoldable pub publish_all : List JobRecord → ControlPlane → ControlPlane
  publish_all [] s = s
  publish_all (job ∷ jobs) s = publish_all jobs (publish job s)

  abbrev pub job_lease_duration_seconds : ℕ
  job_lease_duration_seconds = 300

  -- `fetch_jobs_for_worker`
  unfoldable pub fetch_jobs_for_worker :
      String → (ℕ → String) → ℕ → ControlPlane → Result (List JobRecord) × ControlPlane
  unfolding reconcile_expired_jobs publish_all
  fetch_jobs_for_worker worker_id tokens now s =
      elim (require_eligible_worker grace now worker_id s) [
        | err e ↦ (err e, s)
        | ok worker ↦
            let s' = reconcile_expired_jobs now s in
            elim (claim_pending_for_worker worker_id (pos job_lease_duration_seconds) tokens now
              s'.jobs) [
                | none ↦ (err bad_payload, s')
                | some (taken, items) ↦ (ok taken, publish_all taken (record s' { jobs = items }))
              ]
      ]

  -- `renew_job_lease`
  unfoldable pub renew_job_lease :
      String → String → String → ℕ → ControlPlane → Result JobRecord × ControlPlane
  unfolding reconcile_expired_jobs save_worker
  renew_job_lease worker_id job_id token now s = elim (get worker_id s.workers) [
    | none ↦ (err worker_not_found, s)
    | some worker ↦
        if is_disabled worker.status
        then (err worker_is_disabled, s)
        else elim (get job_id s.jobs) [
          | none ↦ (err job_not_found, s)
          | some job ↦
              if not (opt_eq job.owner_worker_id worker_id)
              then (err not_owner, s)
              else if not (str_eq (or_else job.lease_token "") token)
              then (err stale_token, s)
              else if not (is_in_progress job.status)
              then (err not_in_progress, s)
              else if not (unexpired now job.lease_expires_at)
              then (err lease_expired, s)
              else elim (renew_lease job_id worker_id token (pos job_lease_duration_seconds) now
                  s.jobs) [
                    | none ↦ (err bad_payload, s)
                    | some (none, items) ↦ (err stale_token, reconcile_expired_jobs now s)
                    | some (some renewed, items) ↦
                        let worker' = record worker {
                          last_seen_at = some now;
                          updated_at = now;
                          status =
                              if is_disabled worker.status
                              then worker.status
                              else WorkerStatus.online;
                        } in
                        (
                          ok renewed,
                          record s { jobs = items; workers = save_worker worker' s.workers },
                        )
                  ]
        ]
  ]
