-- ===== src/Jobs/Examples.antt =====
-- The repository at concrete jobs: tests, and the theorems at inputs that meet their hypotheses.
use docker_volume_backup.Base.{
  true, false, ℕ, ◌+◌, ◌*◌, leb_ℤ, String, none, some, List, [], ◌∷◌, ◌≡◌, ◌⊎◌, find_first, refl,
  arith, pos, get, ltb, str_eq, if◌then◌else◌,
}
use docker_volume_backup.Json.{empty}
use docker_volume_backup.Jobs.Defs.{JobStatus, JobRecord, Jobs}
use docker_volume_backup.Jobs.Summary.{progress_sequence}
use docker_volume_backup.Jobs.Repository.{
  save, microseconds, reconcile_expired_leases, is_expired, interrupt, holds_lease, renewed,
  renew_lease, update_progress, claimable, claimed, claim_pending_for_worker,
}
use docker_volume_backup.Jobs.Invariant.{IsValid}
use docker_volume_backup.Jobs.Claim.{claim_takes, claim_leaves}
use docker_volume_backup.Jobs.Grants.{Holds, renew_granted_to_holder, progress_is_monotone}
use docker_volume_backup.Jobs.Lease.{
  expired_count, reconcile_exact, lost_lease_is_final, lease_is_exclusive, renewal_extends,
}
use docker_volume_backup.Jobs.Cases.{map_job, reconciled}
use docker_volume_backup.Jobs.Steps.{submits, reconciles, here, next, Reach-IsValid}

abbrev waiting : JobRecord
waiting = record {
  worker_id = "w1";
  command = "backup.run";
  payload = empty;
  requested_by = "ui";
  target_id = some "t1";
  trigger = "manual";
  id = "j1";
  status = JobStatus.pending;
  owner_worker_id = none;
  lease_token = none;
  lease_issued_at = none;
  lease_expires_at = none;
  attempt_count = 0;
  result_summary = none;
  log_lines = [];
  submitted_at = 10;
  started_at = none;
  finished_at = none;
  updated_at = 10;
}

abbrev running : JobRecord
running = record waiting {
  id = "j2";
  status = JobStatus.in_progress;
  owner_worker_id = some "w1";
  lease_token = some "old";
  lease_issued_at = some 5;
  lease_expires_at = some 300000005;
  attempt_count = 1;
  started_at = some 5;
}

abbrev jobs : Jobs
jobs = ("j1", waiting) ∷ ("j2", running) ∷ []

abbrev stream : ℕ → String
stream n = "fresh"

jobs-IsValid : IsValid jobs
unfolding str_eq
jobs-IsValid = ground (arith)

abbrev claimed_jobs : Jobs
claimed_jobs = ("j1", claimed "w1" "fresh" 300000100 100 waiting) ∷ ("j2", running) ∷ []

claim-jobs :
    claim_pending_for_worker "w1" (pos 300) stream 100 jobs
    ≡ some (claimed "w1" "fresh" 300000100 100 waiting ∷ [], claimed_jobs)
unfolding claim_pending_for_worker claimable str_eq
claim-jobs = refl

claim_takes_example :
    (job' : JobRecord) × (n : ℕ) × (get "j1" claimed_jobs ≡ some job')
    × (find_first (λ x. str_eq x.id "j1") (claimed "w1" "fresh" 300000100 100 waiting ∷ [])
        ≡ some job')
    × (job'.id ≡ waiting.id)
    × (job'.command ≡ waiting.command)
    × (job'.payload ≡ waiting.payload)
    × (job'.submitted_at ≡ waiting.submitted_at)
    × (job'.status ≡ JobStatus.in_progress)
    × (job'.owner_worker_id ≡ some "w1")
    × (job'.lease_token ≡ some (stream n))
    × (job'.lease_issued_at ≡ some 100)
    × (job'.lease_expires_at ≡ some (100 + 300 * microseconds))
    × (job'.attempt_count ≡ waiting.attempt_count + 1)
unfolding claimable str_eq reconcile_expired_leases
claim_takes_example =
    claim_takes "w1" (pos 300) stream 100 jobs _ "j1" waiting jobs-IsValid claim-jobs refl refl

claim_leaves_example : get "j2" claimed_jobs ≡ some running
unfolding claimable str_eq reconcile_expired_leases
claim_leaves_example =
    claim_leaves "w1" (pos 300) stream 100 jobs _ "j2" running jobs-IsValid claim-jobs refl refl

reconcile_exact_example :
    let r = reconcile_expired_leases 300000005 jobs in
    ((k : String) → get k r.0 ≡ map_job (reconciled 300000005) (get k jobs))
    × (r.1 ≡ expired_count 300000005 jobs)
    × (reconcile_expired_leases 300000005 r.0 ≡ (r.0, 0))
reconcile_exact_example = reconcile_exact 300000005 jobs

lost_lease_is_final_example :
    let items' = (reconcile_expired_leases 300000005 jobs).0 in
    (renew_lease "j2" "w1" "old" (pos 300) 300000006 items' ≡ some (none, items'))
    × (update_progress "j2" "w1" "old" (pos 1) empty [] none 300000006 items' ≡ (none, items'))
unfolding str_eq is_expired
lost_lease_is_final_example =
    lost_lease_is_final "j2" "w1" "old" (pos 300) (pos 1) empty [] none 300000005 300000006 jobs
      running refl refl refl

lease_is_exclusive_example : (◌≡◌ {A = String} "w1" "w1") × (◌≡◌ {A = String} "old" "old")
unfolding holds_lease str_eq
lease_is_exclusive_example = lease_is_exclusive "w1" "w1" "old" "old" 7 8 running refl refl

renew_granted_to_holder_example :
    let r = renew_lease "j2" "w1" "old" (pos 300) 100 jobs in
    (Holds "w1" "old" 100 running
      × (job' : JobRecord) × (items' : Jobs) × (r ≡ some (some job', items'))
      × (get "j1" items' ≡ (if str_eq "j2" "j1" then some job' else get "j1" jobs))
      × (job'.status ≡ JobStatus.in_progress)
      × (job'.owner_worker_id ≡ some "w1")
      × (job'.lease_token ≡ running.lease_token)
      × (job'.lease_expires_at ≡ some (100 + 300 * microseconds)))
    ⊎ ((¬ Holds "w1" "old" 100 running) × (r ≡ some (none, jobs)))
unfolding str_eq
renew_granted_to_holder_example =
    renew_granted_to_holder "j2" "w1" "old" (pos 300) 100 jobs running "j1" refl refl

renewal_extends_example :
    holds_lease "w1" "old" 300000099 (renewed 300 100 running)
    ≡ ltb 300000099 (100 + 300 * microseconds)
unfolding holds_lease str_eq
renewal_extends_example = renewal_extends "w1" "old" 300 100 300000099 running refl

progress_is_monotone_example :
    let r = update_progress "j2" "w1" "old" (pos 4) empty ("half" ∷ []) none 100 jobs in
    ((¬ Holds "w1" "old" 100 running) × (r ≡ (none, jobs)))
    ⊎ (Holds "w1" "old" 100 running
        × (leb_ℤ (pos 4) (progress_sequence running) ≡ true)
        × (r ≡ (some running, jobs)))
    ⊎ (Holds "w1" "old" 100 running
        × (leb_ℤ (pos 4) (progress_sequence running) ≡ false)
        × (job' : JobRecord) × (r.0 ≡ some job')
        × (get "j1" r.1 ≡ (if str_eq "j2" "j1" then some job' else get "j1" jobs))
        × (progress_sequence job' ≡ pos 4)
        × (job'.status ≡ running.status)
        × (job'.owner_worker_id ≡ running.owner_worker_id)
        × (job'.lease_token ≡ running.lease_token)
        × (job'.lease_expires_at ≡ running.lease_expires_at))
unfolding str_eq
progress_is_monotone_example =
    progress_is_monotone "j2" "w1" "old" (pos 4) empty ("half" ∷ []) none 100 jobs running "j1" refl

abbrev lines : List String
lines = "Starting" ∷ "Done" ∷ []

Reach-IsValid_example : IsValid (reconcile_expired_leases 300000005 (save waiting jobs)).0
unfolding str_eq
Reach-IsValid_example =
    Reach-IsValid jobs-IsValid
      (next (next here (submits waiting (refl, refl, refl) refl)) (reconciles 300000005 refl))

-- The interrupted job has failed, and its log says why.
interrupted-jobs :
    map_job (interrupt 300000005) (some running)
    ≡ get "j2" (reconcile_expired_leases 300000005 jobs).0
unfolding reconcile_expired_leases str_eq
interrupted-jobs = refl
