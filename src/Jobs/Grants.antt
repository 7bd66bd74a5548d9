-- ===== src/Jobs/Grants.antt =====
-- What the holder of a lease, and nobody else, may do with it: renew it, and report progress.
use docker_volume_backup.Base.{
  opt_eq, ap, ◌↔◌, ◌<◌, ◌⊎◌, or_else, ℕ, ◌+◌, ◌*◌, String, true, false, Option, none, some, List,
  ◌≡◌, refl, arith, ℤ, pos, pos_part, leb_ℤ, get, put, get-put, str_eq, str_eq_iff, str_eq_refl,
  Bool-cases, inl, inr, if◌then◌else◌,
}
use docker_volume_backup.Json.{Fields, lookup-assign, int_or_zero}
use docker_volume_backup.Jobs.Defs.{JobStatus, is_in_progress, JobRecord, Jobs}
use docker_volume_backup.Jobs.Summary.{progress_sequence, progress_summary}
use docker_volume_backup.Jobs.Repository.{
  unexpired, microseconds, holds_lease, renewed, renew_lease, progressed, update_progress,
}

-- Who holds the lease of a job at a time: the job runs, the worker owns it, the token is the job's,
-- and the lease ends later.
abbrev pub Holds : String → String → ℕ → JobRecord → Type 0
Holds worker token now job =
    (job.status ≡ JobStatus.in_progress)
    × (job.owner_worker_id ≡ some worker)
    × (or_else job.lease_token "" ≡ token)
    × (expires : ℕ) × (job.lease_expires_at ≡ some expires)
    × (now < expires)

running_lem : (status : JobStatus) → is_in_progress status ≡ true → status ≡ JobStatus.in_progress
running_lem JobStatus.in_progress h = refl
running_lem JobStatus.pending h = cc
running_lem JobStatus.succeeded h = cc
running_lem JobStatus.failed h = cc
running_lem JobStatus.canceled h = cc
running_lem JobStatus.cancelled h = cc
running_lem (JobStatus.other s) h = cc

owner_lem :
    (owner : Option String) (worker : String) → opt_eq owner worker ≡ true → owner ≡ some worker
owner_lem none worker h = cc
owner_lem (some w) worker h = ap (λ x. some x) ((str_eq_iff w worker).0 h)

expiry_lem :
    (now : ℕ) (expiry : Option ℕ)
    → unexpired now expiry ≡ true
    → (expires : ℕ) × (expiry ≡ some expires) × (now < expires)
expiry_lem now none h = cc
expiry_lem now (some expires) h = (expires, refl, ground arith)

-- The guard of the repository's methods is this condition.
pub holds_lease_lem :
    (worker token : String) (now : ℕ) (job : JobRecord)
    → (holds_lease worker token now job ≡ true) ↔ Holds worker token now job
unfolding holds_lease
holds_lease_lem worker token now job = (
  (λ h.
      let (expires, leased, early) = expiry_lem now job.lease_expires_at (ground arith) in
      (
        running_lem job.status (ground arith),
        owner_lem job.owner_worker_id worker (ground arith),
        (str_eq_iff (or_else job.lease_token "") token).0 (ground arith),
        expires,
        leased,
        early,
      )),
  (λ (running, owned, same, expires, leased, early).
      ground (arith, str_eq_iff (or_else job.lease_token "") token, str_eq_refl worker)),
)

Holds-cases :
    (worker token : String) (now : ℕ) (job : JobRecord)
    → (Holds worker token now job × (holds_lease worker token now job ≡ true))
      ⊎ ((¬ Holds worker token now job) × (holds_lease worker token now job ≡ false))
Holds-cases worker token now job = elim (Bool-cases (holds_lease worker token now job)) [
  | inl held ↦ inl ((holds_lease_lem worker token now job).0 held, held)
  | inr lost ↦ inr ((λ h. cc (lost, (holds_lease_lem worker token now job).1 h)), lost)
]

-- Under a positive duration, a renewal of a stored job is granted exactly to the holder of the
-- job's lease. If the worker holds the lease at that time, the answer is the job as it is then
-- stored: still running, of the same worker, under the same token, leased until the duration has
-- passed, and every other job is as before. If it does not, the answer is empty and no job changes.
pub renew_granted_to_holder :
    (job_id worker token : String) (duration : ℤ) (now : ℕ) (items : Jobs) (job : JobRecord)
    (k : String)
    → leb_ℤ duration (pos 0) ≡ false
    → get job_id items ≡ some job
    → let r = renew_lease job_id worker token duration now items in
      (Holds worker token now job
        × (job' : JobRecord) × (items' : Jobs) × (r ≡ some (some job', items'))
        × (get k items' ≡ (if str_eq job_id k then some job' else get k items))
        × (job'.status ≡ JobStatus.in_progress)
        × (job'.owner_worker_id ≡ some worker)
        × (job'.lease_token ≡ job.lease_token)
        × (job'.lease_expires_at ≡ some (now + pos_part duration * microseconds)))
      ⊎ ((¬ Holds worker token now job) × (r ≡ some (none, items)))
unfolding renew_lease renewed
renew_granted_to_holder job_id worker token duration now items job k positive found =
    let job' = renewed (pos_part duration) now job in
    elim (Holds-cases worker token now job) [
      | inl (h, held) ↦ inl (
        h,
        job',
        put job_id job' items,
        ground arith,
        get-put job_id k job' items,
        h.0,
        h.1,
        refl,
        refl,
      )
      | inr (not_h, lost) ↦ inr (not_h, ground arith)
    ]

progress_sequence-progressed :
    (sequence : ℤ) (progress : Fields) (lines : List String) (extra : Option Fields) (now : ℕ)
    (job : JobRecord)
    → progress_sequence (progressed sequence progress lines extra now job) ≡ sequence
unfolding progress_sequence progressed progress_summary
progress_sequence-progressed sequence progress lines extra now job =
    simp lookup-assign (unfold str_eq int_or_zero in refl)

-- What a progress report on a stored job comes to. From a worker that does not hold the job's lease
-- it is not answered, and no job changes. From the holder, under a sequence number that is not above
-- the job's, it is answered by the job, and no job changes. From the holder, under any other
-- number, it is answered by the job as it is then stored: that number is now the job's, the status,
-- the owner and the lease are as before, and so is every other job.
pub progress_is_monotone :
    (job_id worker token : String) (sequence : ℤ) (progress : Fields) (lines : List String)
    (extra : Option Fields) (now : ℕ) (items : Jobs) (job : JobRecord) (k : String)
    → get job_id items ≡ some job
    → let r = update_progress job_id worker token sequence progress lines extra now items in
      ((¬ Holds worker token now job) × (r ≡ (none, items)))
      ⊎ (Holds worker token now job
          × (leb_ℤ sequence (progress_sequence job) ≡ true)
          × (r ≡ (some job, items)))
      ⊎ (Holds worker token now job
          × (leb_ℤ sequence (progress_sequence job) ≡ false)
          × (job' : JobRecord) × (r.0 ≡ some job')
          × (get k r.1 ≡ (if str_eq job_id k then some job' else get k items))
          × (progress_sequence job' ≡ sequence)
          × (job'.status ≡ job.status)
          × (job'.owner_worker_id ≡ job.owner_worker_id)
          × (job'.lease_token ≡ job.lease_token)
          × (job'.lease_expires_at ≡ job.lease_expires_at))
unfolding update_progress progressed
progress_is_monotone job_id worker token sequence progress lines extra now items job k found =
    let job' = progressed sequence progress lines extra now job in
    elim (Holds-cases worker token now job) [
      | inr (not_h, lost) ↦ inl (not_h, ground arith)
      | inl (h, held) ↦ elim (Bool-cases (leb_ℤ sequence (progress_sequence job))) [
        | inl stale ↦ inr (inl (h, stale, ground arith))
        | inr fresh ↦ inr (
            inr (
              h,
              fresh,
              job',
              ground arith,
              ground (arith, get-put job_id k job' items),
              progress_sequence-progressed sequence progress lines extra now job,
              refl,
              refl,
              refl,
              refl,
            ))
      ]
    ]
