-- ===== src/Jobs/Claim.antt =====
-- Claiming: each waiting job of a worker is handed out, once, and nothing else is touched.
use docker_volume_backup.Base.{
  ℕ, ◌+◌, ◌*◌, String, true, false, some, List, ◌≡◌, refl, ap, arith, ℤ, pos_part, ◌∙◌, get,
  find_first, str_eq, Bool-cases, Option-cases, inl, inr,
}
use docker_volume_backup.Jobs.Defs.{JobStatus, JobRecord, Jobs}
use docker_volume_backup.Jobs.Repository.{
  microseconds, reconcile_expired_leases, claimable, claimed, claim_pending_for_worker,
}
use docker_volume_backup.Jobs.Cases.{claim-eq-run}
use docker_volume_backup.Jobs.Invariant.{IsValid, reconcile-IsValid}
use docker_volume_backup.Jobs.Run.{run_takes, run_untouched}
use docker_volume_backup.Jobs.Queue.{
  queue, takes_id-queue, takes_id-queue_missing, Distinct-queue, Stored-queue,
}

-- What a granted claim makes of a waiting job, in the repository and in its answer.
pub claim_stores :
    (worker : String) (duration : ℤ) (tokens : ℕ → String) (now : ℕ) (items : Jobs)
    (r : List JobRecord × Jobs) (k : String) (job : JobRecord)
    → IsValid items
    → claim_pending_for_worker worker duration tokens now items ≡ some r
    → get k (reconcile_expired_leases now items).0 ≡ some job
    → claimable worker job ≡ true
    → (n : ℕ) × (get k r.1
        ≡ some (claimed worker (tokens n) (now + pos_part duration * microseconds) now job))
      × (find_first (λ x. str_eq x.id k) r.0
          ≡ some (claimed worker (tokens n) (now + pos_part duration * microseconds) now job))
claim_stores worker duration tokens now items r k job v granted found free =
    let b = (reconcile_expired_leases now items).0 in
    let vb = reconcile-IsValid now items v in
    let run = claim-eq-run worker duration tokens now items granted in
    let (job', n, at_k, ends, listed) =
      run_takes worker tokens (now + pos_part duration * microseconds) now k 0 (queue b) b
        (Distinct-queue b vb) (Stored-queue b vb) (takes_id-queue worker k b job vb found ∙ free) in
    (
      n,
      ap (λ x. get k x.1) run ∙ cc (ends, at_k, found),
      ap (λ x. find_first (λ y. str_eq y.id k) x.0) run ∙ cc (listed, at_k, found),
    )

-- A granted claim hands out every waiting job of the worker. Of a job that waits for the worker
-- once expired leases are reconciled, the claim's answer has, under the job's id, the very job that
-- is then stored: it is the same submission, running, owned by the worker, under a token of the
-- stream, leased from now until the duration has passed, with one more attempt.
pub claim_takes :
    (worker : String) (duration : ℤ) (tokens : ℕ → String) (now : ℕ) (items : Jobs)
    (r : List JobRecord × Jobs) (k : String) (job : JobRecord)
    → IsValid items
    → claim_pending_for_worker worker duration tokens now items ≡ some r
    → get k (reconcile_expired_leases now items).0 ≡ some job
    → claimable worker job ≡ true
    → (job' : JobRecord) × (n : ℕ) × (get k r.1 ≡ some job')
      × (find_first (λ x. str_eq x.id k) r.0 ≡ some job')
      × (job'.id ≡ job.id)
      × (job'.command ≡ job.command)
      × (job'.payload ≡ job.payload)
      × (job'.submitted_at ≡ job.submitted_at)
      × (job'.status ≡ JobStatus.in_progress)
      × (job'.owner_worker_id ≡ some worker)
      × (job'.lease_token ≡ some (tokens n))
      × (job'.lease_issued_at ≡ some now)
      × (job'.lease_expires_at ≡ some (now + pos_part duration * microseconds))
      × (job'.attempt_count ≡ job.attempt_count + 1)
unfolding claimed
claim_takes worker duration tokens now items r k job v granted found free =
    let (n, ends, listed) =
      claim_stores worker duration tokens now items r k job v granted found free in
    (
      claimed worker (tokens n) (now + pos_part duration * microseconds) now job,
      n,
      ends,
      listed,
      refl,
      refl,
      refl,
      refl,
      refl,
      refl,
      refl,
      refl,
      refl,
      refl,
    )

-- A granted claim leaves every other job as reconciling expired leases leaves it: those of other
-- workers, and those that do not wait.
pub claim_leaves :
    (worker : String) (duration : ℤ) (tokens : ℕ → String) (now : ℕ) (items : Jobs)
    (r : List JobRecord × Jobs) (k : String) (job : JobRecord)
    → IsValid items
    → claim_pending_for_worker worker duration tokens now items ≡ some r
    → get k (reconcile_expired_leases now items).0 ≡ some job
    → claimable worker job ≡ false
    → get k r.1 ≡ some job
claim_leaves worker duration tokens now items r k job v granted found other =
    let b = (reconcile_expired_leases now items).0 in
    let vb = reconcile-IsValid now items v in
    ap (λ x. get k x.1) (claim-eq-run worker duration tokens now items granted)
    ∙ run_untouched worker tokens (now + pos_part duration * microseconds) now k 0 (queue b) b
        (takes_id-queue worker k b job vb found ∙ other)
    ∙ found

claimed-claimable :
    (worker token : String) (expires now : ℕ) (job : JobRecord) (w : String)
    → claimable w (claimed worker token expires now job) ≡ false
unfolding claimable claimed
claimed-claimable worker token expires now job w = ground arith

-- After a granted claim no job of the worker waits.
pub claim_leaves_none_waiting :
    (worker : String) (duration : ℤ) (tokens : ℕ → String) (now : ℕ) (items : Jobs)
    (r : List JobRecord × Jobs) (k : String) (job : JobRecord)
    → IsValid items
    → claim_pending_for_worker worker duration tokens now items ≡ some r
    → get k r.1 ≡ some job
    → claimable worker job ≡ false
claim_leaves_none_waiting worker duration tokens now items r k job v granted found =
    let b = (reconcile_expired_leases now items).0 in
    let vb = reconcile-IsValid now items v in
    elim (Option-cases (get k b)) [
      | inl missing ↦ cc (
        found,
        ap (λ x. get k x.1) (claim-eq-run worker duration tokens now items granted),
        run_untouched worker tokens (now + pos_part duration * microseconds) now k 0 (queue b) b
            (takes_id-queue_missing worker k b vb missing),
        missing,
      )
      | inr (old, stored) ↦ elim (Bool-cases (claimable worker old)) [
        | inl free ↦
            let (n, ends, _) =
              claim_stores worker duration tokens now items r k old v granted stored free in
            ground (
              arith,
              found,
              ends,
              claimed-claimable worker (tokens n) (now + pos_part duration * microseconds) now old
                  worker,
            )
        | inr other ↦ ground (
          arith,
          found,
          other,
          claim_leaves worker duration tokens now items r k old v granted stored other,
        )
      ]
    ]
