-- ===== src/Jobs/Steps.antt =====
-- The life of the repository: any sequence of calls of its methods, by any workers, at any times.
use docker_volume_backup.Base.{
  arith, ℕ, String, ℤ, Option, none, false, some, List, ◌≡◌, get, Option-cases, inl, inr,
}
use docker_volume_backup.Json.{Fields}
use docker_volume_backup.Jobs.Defs.{
  JobStatus, JobRecord, Jobs, normalize, is_pending, is_in_progress,
}
use docker_volume_backup.Jobs.Repository.{
  save, update_lease_context, reconcile_expired_leases, renew_lease, update_progress,
  claim_pending_for_worker,
}
use docker_volume_backup.Jobs.Invariant.{
  IsConsistent, IsValid, get-IsConsistent, put-IsValid, save-IsValid, reconcile-IsValid,
  claim-IsValid, renew-IsValid, progress-IsValid,
}

-- A job that was just made: it waits, and nobody has it. `JobRecord` has these defaults.
abbrev pub IsNew : JobRecord → Type 0
IsNew job =
    (job.status ≡ JobStatus.pending) × (job.owner_worker_id ≡ none) × (job.lease_token ≡ none)

-- One call that may change the jobs. The calls of `save` are those that the control plane makes: for
-- a new job, for a job whose status neither waits nor runs, and for a stored job with another
-- summary.
pub data Step (items : Jobs) : Jobs → Type 0 where
  submits :
      (job : JobRecord) → IsNew job → {items' : Jobs} → items' ≡ save job items → Step items items'
  ends :
      (job : JobRecord)
      → is_pending (normalize job.status) ≡ false
      → is_in_progress (normalize job.status) ≡ false
      → {items' : Jobs} → items' ≡ save job items
      → Step items items'
  annotates :
      (job_id : String) (job : JobRecord) (summary : Option Fields) (now : ℕ)
      → get job_id items ≡ some job
      → {items' : Jobs}
      → items' ≡ save (record job { result_summary = summary; updated_at = now }) items
      → Step items items'
  notes :
      (job_id : String) (context : Fields) {items' : Jobs}
      → items' ≡ (update_lease_context job_id context items).1
      → Step items items'
  reconciles :
      (now : ℕ) {items' : Jobs}
      → items' ≡ (reconcile_expired_leases now items).0
      → Step items items'
  claims :
      (worker : String) (duration : ℤ) (tokens : ℕ → String) (now : ℕ) (taken : List JobRecord)
      {items' : Jobs}
      → claim_pending_for_worker worker duration tokens now items ≡ some (taken, items')
      → Step items items'
  renews :
      (job_id worker token : String) (duration : ℤ) (now : ℕ) (answer : Option JobRecord)
      {items' : Jobs}
      → renew_lease job_id worker token duration now items ≡ some (answer, items')
      → Step items items'
  progresses :
      (job_id worker token : String) (sequence : ℤ) (progress : Fields) (lines : List String)
      (extra : Option Fields) (now : ℕ) {items' : Jobs}
      → items' ≡ (update_progress job_id worker token sequence progress lines extra now items).1
      → Step items items'

pub data Reach (items : Jobs) : Jobs → Type 0 where
  here : Reach items items
  next : {items' items'' : Jobs} → Reach items items' → Step items' items'' → Reach items items''

pub context-IsValid :
    (job_id : String) (context : Fields) (items : Jobs)
    → IsValid items
    → IsValid (update_lease_context job_id context items).1
unfolding update_lease_context
context-IsValid job_id context items v = elim (Option-cases (get job_id items)) [
  | inl missing ↦ rw (missing, update_lease_context) v
  | inr (job, found) ↦
      let (c, at_id) = get-IsConsistent job_id items job v found in
      rw (found, update_lease_context)
        (put-IsValid job_id _ items v at_id (record {
          owned = c.owned;
          token = c.token;
          issued = c.issued;
          leased = c.leased;
          attempted = c.attempted;
          unowned = c.unowned;
          untaken = c.untaken;
          normal = c.normal;
        }))
]

new-IsConsistent :
    (job : JobRecord) → IsNew job → IsConsistent (record job { status = normalize job.status })
new-IsConsistent job new = ground arith

ended-IsConsistent :
    (job : JobRecord)
    → is_pending (normalize job.status) ≡ false
    → is_in_progress (normalize job.status) ≡ false
    → IsConsistent (record job { status = normalize job.status })
ended-IsConsistent job idle over = ground arith

pub annotated-IsConsistent :
    (job : JobRecord) (summary : Option Fields) (now : ℕ)
    → IsConsistent job
    → IsConsistent
        (record job { status = normalize job.status; result_summary = summary; updated_at = now })
annotated-IsConsistent job summary now c = rw c.normal (record {
  owned = c.owned;
  token = c.token;
  issued = c.issued;
  leased = c.leased;
  attempted = c.attempted;
  unowned = c.unowned;
  untaken = c.untaken;
  normal = c.normal;
})

pub Step-IsValid : {items items' : Jobs} → IsValid items → Step items items' → IsValid items'
Step-IsValid {items} v (submits job new e) =
    rw e (save-IsValid job items v (new-IsConsistent job new))
Step-IsValid {items} v (ends job idle over e) =
    rw e (save-IsValid job items v (ended-IsConsistent job idle over))
Step-IsValid {items} v (annotates job_id job summary now found e) = rw e (
    save-IsValid _ items v
      (annotated-IsConsistent job summary now (get-IsConsistent job_id items job v found).0))
Step-IsValid {items} v (notes job_id context e) = rw e (context-IsValid job_id context items v)
Step-IsValid {items} v (reconciles now e) = rw e (reconcile-IsValid now items v)
Step-IsValid {items} v (claims worker duration tokens now taken e) =
    claim-IsValid worker duration tokens now items v e
Step-IsValid {items} v (renews job_id worker token duration now answer e) =
    renew-IsValid job_id worker token duration now items _ v e
Step-IsValid {items} v (progresses job_id worker token sequence progress lines extra now e) =
    rw e (progress-IsValid job_id worker token sequence progress lines extra now items v)

-- From a valid repository, over any sequence of the calls that the control plane makes, namely
-- submissions of new jobs (waiting, with no owner and no token), saves of jobs that neither wait nor
-- run, saves of stored jobs under another summary, notes of a lease context, reconciliations, claims,
-- renewals and progress reports: each job stands under its own id, once; a running job is owned by
-- its worker under a lease with a token, and was attempted; a waiting job has no owner and no token.
-- Other saves are not considered.
pub Reach-IsValid : {items items' : Jobs} → IsValid items → Reach items items' → IsValid items'
Reach-IsValid v here = v
Reach-IsValid v (next r s) = Step-IsValid (Reach-IsValid v r) s
