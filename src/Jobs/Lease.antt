-- ===== src/Jobs/Lease.antt =====
-- Leases: until when a worker may act on a running job, and what a lost lease costs.
use docker_volume_backup.Base.{
  or_else, ℕ, ◌+◌, ◌*◌, String, true, false, Option, none, some, List, [], ◌∷◌, ◌≡◌, refl, arith, ℤ,
  pos, leb_ℤ, ltb, get, str_eq_iff, if◌then◌else◌,
}
use docker_volume_backup.Json.{Fields}
use docker_volume_backup.Jobs.Defs.{JobRecord, Jobs}
use docker_volume_backup.Jobs.Repository.{
  microseconds, is_expired, interrupt, reconcile_expired_leases, holds_lease, renewed, renew_lease,
  update_progress,
}
use docker_volume_backup.Jobs.Cases.{map_job, reconciled, get-reconcile}

-- How many entries hold an expired lease.
abbrev pub expired_count : ℕ → Jobs → ℕ
expired_count now [] = 0
expired_count now ((k, job) ∷ items) =
    let n = expired_count now items in if is_expired now job then n + 1 else n

is_expired-interrupt :
    (now now' : ℕ) (job : JobRecord) → is_expired now' (interrupt now job) ≡ false
unfolding is_expired interrupt
is_expired-interrupt now now' job = refl

counted :
    (now : ℕ) (items : Jobs) → (reconcile_expired_leases now items).1 ≡ expired_count now items
unfolding reconcile_expired_leases
counted now [] = refl
counted now ((k, job) ∷ items) = ground (arith, counted now items)

reconcile_again :
    (now : ℕ) (items : Jobs)
    → reconcile_expired_leases now (reconcile_expired_leases now items).0
      ≡ ((reconcile_expired_leases now items).0, 0)
unfolding reconcile_expired_leases
reconcile_again now [] = refl
reconcile_again now ((k, job) ∷ items) =
    ground (arith, reconcile_again now items, is_expired-interrupt now now job)

-- Reconciling interrupts exactly the jobs whose lease has expired, each by itself, and counts them;
-- doing it again at the same time changes nothing more and counts none.
pub reconcile_exact :
    (now : ℕ) (items : Jobs)
    → let r = reconcile_expired_leases now items in
      ((k : String) → get k r.0 ≡ map_job (reconciled now) (get k items))
      × (r.1 ≡ expired_count now items)
      × (reconcile_expired_leases now r.0 ≡ (r.0, 0))
reconcile_exact now items =
    (λ k. get-reconcile now k items, counted now items, reconcile_again now items)

-- An interrupted job has no holder: whoever held its lease, no token but the empty one acts on it.
holds_lease-interrupt :
    (worker token : String) (now now' : ℕ) (job : JobRecord)
    → holds_lease worker token now' (interrupt now job) ≡ false
unfolding holds_lease interrupt
holds_lease-interrupt worker token now now' job = refl

-- Once the lease of a job has run out and leases were reconciled, neither a renewal nor a progress
-- report of any worker under any token changes the jobs or is answered.
pub lost_lease_is_final :
    (job_id worker token : String) (duration sequence : ℤ) (progress : Fields) (lines : List String)
    (extra : Option Fields) (now now' : ℕ) (items : Jobs) (job : JobRecord)
    → get job_id items ≡ some job
    → is_expired now job ≡ true
    → leb_ℤ duration (pos 0) ≡ false
    → let items' = (reconcile_expired_leases now items).0 in
      (renew_lease job_id worker token duration now' items' ≡ some (none, items'))
      × (update_progress job_id worker token sequence progress lines extra now' items'
          ≡ (none, items'))
unfolding renew_lease update_progress
lost_lease_is_final job_id worker token duration sequence progress lines extra now now' items job
      found late positive =
    (
      ground
          (arith, get-reconcile now job_id items, holds_lease-interrupt worker token now now' job),
      ground
          (arith, get-reconcile now job_id items, holds_lease-interrupt worker token now now' job),
    )

-- At most one worker, under one token, holds the lease of a job.
pub lease_is_exclusive :
    (w w' t t' : String) (now now' : ℕ) (job : JobRecord)
    → holds_lease w t now job ≡ true
    → holds_lease w' t' now' job ≡ true
    → (w ≡ w') × (t ≡ t')
unfolding holds_lease
lease_is_exclusive w w' t t' now now' job h h' = ground (
  arith,
  str_eq_iff (or_else job.owner_worker_id "") w,
  str_eq_iff (or_else job.owner_worker_id "") w',
  str_eq_iff (or_else job.lease_token "") t,
  str_eq_iff (or_else job.lease_token "") t',
)

-- A renewed lease is held by the same worker under the same token, at every later time before the
-- duration has passed, and at none after.
pub renewal_extends :
    (worker token : String) (duration now later : ℕ) (job : JobRecord)
    → holds_lease worker token now job ≡ true
    → holds_lease worker token later (renewed duration now job)
      ≡ ltb later (now + duration * microseconds)
unfolding holds_lease renewed
renewal_extends worker token duration now later job held = ground arith
