-- ===== src/Jobs/Invariant.antt =====
-- The invariant of the job repository, kept by each of its methods.
use docker_volume_backup.Base.{
  pos_part, sym, ℕ, ◌<◌, String, true, Option, none, some, List, [], ◌∷◌, ◌≡◌, refl, arith, ℤ,
  str_eq_iff, present, get, put, get-put, inl, inr,
}
use docker_volume_backup.Json.{Fields}
use docker_volume_backup.Jobs.Defs.{normalize, is_pending, is_in_progress, JobRecord, Jobs}
use docker_volume_backup.Jobs.Repository.{
  save, interrupt, reconcile_expired_leases, renew_lease, renewed, update_progress, progressed,
  claimable, claimed, claim_loop, claim_pending_for_worker,
}
use docker_volume_backup.Jobs.Cases.{
  get-reconcile, claim_loop_inv, id-claimed, id-renewed, id-progressed, claim-eq-run, renew_cases,
  progress_cases,
}

-- A running job is owned by its worker under a lease with a token; a waiting job has no owner.
pub record IsConsistent (job : JobRecord) : Type 0 where
  pub owned : is_in_progress job.status ≡ true → job.owner_worker_id ≡ some job.worker_id
  pub token : is_in_progress job.status ≡ true → present job.lease_token ≡ true
  pub issued : is_in_progress job.status ≡ true → present job.lease_issued_at ≡ true
  pub leased : is_in_progress job.status ≡ true → present job.lease_expires_at ≡ true
  pub attempted : is_in_progress job.status ≡ true → 0 < job.attempt_count
  pub unowned : is_pending job.status ≡ true → job.owner_worker_id ≡ none
  pub untaken : is_pending job.status ≡ true → job.lease_token ≡ none
  pub normal : normalize job.status ≡ job.status

-- Each job stands under its own id, once, and is consistent.
abbrev pub IsValid : Jobs → Type 0
IsValid [] = Unit
IsValid ((k, job) ∷ items) = (k ≡ job.id) × IsConsistent job × (get k items ≡ none) × IsValid items

-- A job that is found is consistent and stands under its id.
pub get-IsConsistent :
    (k : String) (items : Jobs) (job : JobRecord)
    → IsValid items
    → get k items ≡ some job
    → IsConsistent job × (k ≡ job.id)
get-IsConsistent k [] job v e = cc
get-IsConsistent k ((j, job') ∷ items) job v e =
    ground (arith, str_eq_iff j k, get-IsConsistent k items job v.3)

pub put-IsValid :
    (k : String) (job : JobRecord) (items : Jobs)
    → IsValid items
    → k ≡ job.id
    → IsConsistent job
    → IsValid (put k job items)
put-IsValid k job [] v e c = (e, c, refl, tt)
put-IsValid k job ((j, job') ∷ items) v e c =
    ground (
      arith,
      str_eq_iff j k,
      str_eq_iff k j,
      put-IsValid k job items v.3 e c,
      get-put k j job items,
    )

pub interrupt-IsConsistent : (now : ℕ) (job : JobRecord) → IsConsistent (interrupt now job)
unfolding interrupt
interrupt-IsConsistent now job = ground arith

pub reconcile-IsValid :
    (now : ℕ) (items : Jobs) → IsValid items → IsValid (reconcile_expired_leases now items).0
unfolding reconcile_expired_leases
reconcile-IsValid now [] v = tt
reconcile-IsValid now ((j, job) ∷ items) v = ground (
  arith,
  get-reconcile now j items,
  reconcile-IsValid now items v.3,
  interrupt-IsConsistent now job,
)

-- An empty owner or token text would make `or ""` meet it; the stream draws none.
claimed-IsConsistent :
    (worker token : String) (expires now : ℕ) (job : JobRecord)
    → claimable worker job ≡ true
    → IsConsistent (claimed worker token expires now job)
unfolding claimed claimable
claimed-IsConsistent worker token expires now job h =
    ground (arith, str_eq_iff job.worker_id worker)

pub claim_loop-IsValid :
    (worker : String) (tokens : ℕ → String) (expires now i : ℕ) (jobs : List JobRecord)
    (items : Jobs)
    → IsValid items
    → IsValid (claim_loop worker tokens expires now i jobs items).1
claim_loop-IsValid worker tokens expires now =
    claim_loop_inv IsValid worker tokens expires now λ job token items free v.
      put-IsValid job.id (claimed worker token expires now job) items v
        (sym (id-claimed worker token expires now job))
        (claimed-IsConsistent worker token expires now job free)

renewed-IsConsistent :
    (duration now : ℕ) (job : JobRecord)
    → IsConsistent job
    → IsConsistent (renewed duration now job)
unfolding renewed
renewed-IsConsistent duration now job c = ground arith

progressed-IsConsistent :
    (sequence : ℤ) (progress : Fields) (lines : List String) (extra : Option Fields) (now : ℕ)
    (job : JobRecord)
    → IsConsistent job
    → IsConsistent (progressed sequence progress lines extra now job)
unfolding progressed
progressed-IsConsistent sequence progress lines extra now job c = record {
  owned = c.owned;
  token = c.token;
  issued = c.issued;
  leased = c.leased;
  attempted = c.attempted;
  unowned = c.unowned;
  untaken = c.untaken;
  normal = c.normal;
}

pub claim-IsValid :
    (worker : String) (duration : ℤ) (tokens : ℕ → String) (now : ℕ) (items : Jobs)
    {r : List JobRecord × Jobs}
    → IsValid items
    → claim_pending_for_worker worker duration tokens now items ≡ some r
    → IsValid r.1
claim-IsValid worker duration tokens now items v h =
    rw (claim-eq-run worker duration tokens now items h)
      (claim_loop-IsValid worker tokens _ now 0 _ _ (reconcile-IsValid now items v))

pub save-IsValid :
    (job : JobRecord) (items : Jobs)
    → IsValid items
    → IsConsistent (record job { status = normalize job.status })
    → IsValid (save job items)
unfolding save
save-IsValid job items v c = put-IsValid job.id _ items v refl c

pub renew-IsValid :
    (job_id worker token : String) (duration : ℤ) (now : ℕ) (items : Jobs)
    (r : Option JobRecord × Jobs)
    → IsValid items
    → renew_lease job_id worker token duration now items ≡ some r
    → IsValid r.1
renew-IsValid job_id worker token duration now items r v h =
    elim (renew_cases job_id worker token duration now items r h) [
      | inl same ↦ rw same v
      | inr (job, found, _, e) ↦
          let (c, at_id) = get-IsConsistent job_id items job v found in
          rw e (
            put-IsValid job_id (renewed (pos_part duration) now job) items v (rw id-renewed at_id)
              (renewed-IsConsistent (pos_part duration) now job c))
    ]

pub progress-IsValid :
    (job_id worker token : String) (sequence : ℤ) (progress : Fields) (lines : List String)
    (extra : Option Fields) (now : ℕ) (items : Jobs)
    → IsValid items
    → IsValid (update_progress job_id worker token sequence progress lines extra now items).1
progress-IsValid job_id worker token sequence progress lines extra now items v =
    elim (progress_cases job_id worker token sequence progress lines extra now items) [
      | inl same ↦ rw same v
      | inr (job, found, _, inl (_, same)) ↦ rw same v
      | inr (job, found, _, inr (_, e)) ↦
          let (c, at_id) = get-IsConsistent job_id items job v found in
          rw e (
            put-IsValid job_id _ items v (rw id-progressed at_id)
              (progressed-IsConsistent sequence progress lines extra now job c))
    ]
