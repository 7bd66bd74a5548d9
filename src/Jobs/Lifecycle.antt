-- ===== src/Jobs/Lifecycle.antt =====
-- The life of a job: what the repository's methods do to the statuses of the jobs they hold.
use docker_volume_backup.Base.{
  ℕ, ◌+◌, ◌*◌, String, ℤ, pos_part, Bool, true, false, Option, none, some, List, ◌≡◌, refl, ap, ◌∙◌,
  arith, get, put, get-put, str_eq, str_eq_iff, Bool-cases, Option-cases, inl, inr,
}
use docker_volume_backup.Json.{Fields}
use docker_volume_backup.Jobs.Defs.{
  JobStatus, pending, in_progress, succeeded, failed, canceled, cancelled, other, JobRecord, Jobs,
}
use docker_volume_backup.Jobs.Repository.{
  microseconds, update_lease_context, is_expired, interrupt, reconcile_expired_leases, renew_lease,
  renewed, claimable, claimed, claim_pending_for_worker,
}
use docker_volume_backup.Jobs.Cases.{map_job, reconciled, get-reconcile, renew_cases}
use docker_volume_backup.Jobs.Invariant.{IsValid}
use docker_volume_backup.Jobs.Claim.{claim_stores, claim_leaves}

-- The statuses that a job of a given status may come to have: it waits, runs, and ends once.
abbrev pub leads : JobStatus → JobStatus → Bool
leads pending pending = true
leads pending in_progress = true
leads pending succeeded = true
leads pending failed = true
leads pending canceled = true
leads in_progress in_progress = true
leads in_progress succeeded = true
leads in_progress failed = true
leads in_progress canceled = true
leads succeeded succeeded = true
leads failed failed = true
leads canceled canceled = true
leads cancelled cancelled = true
leads (other s) (other t) = str_eq s t
leads _ _ = false

pub leads_refl : (s : JobStatus) → leads s s ≡ true
leads_refl pending = refl
leads_refl in_progress = refl
leads_refl succeeded = refl
leads_refl failed = refl
leads_refl canceled = refl
leads_refl cancelled = refl
leads_refl (other s) = ground (arith, str_eq_iff s s)

pub leads_trans : (s t u : JobStatus) → leads s t ≡ true → leads t u ≡ true → leads s u ≡ true
leads_trans pending t u h k = ground arith
leads_trans in_progress t u h k = ground arith
leads_trans (other a) (other b) (other c) h k =
    ground (arith, str_eq_iff a b, str_eq_iff b c, str_eq_iff a c)
leads_trans s t u h k = ground arith

-- No job is lost, and each moves only as `leads` allows.
abbrev pub Follows : Jobs → Jobs → Type 0
Follows items items' =
    (k : String) (job : JobRecord)
    → get k items ≡ some job
    → (job' : JobRecord) × (get k items' ≡ some job') × (leads job.status job'.status ≡ true)

pub Follows-refl : (items : Jobs) → Follows items items
Follows-refl items k job found = (job, found, leads_refl job.status)

pub Follows-trans : (a b c : Jobs) → Follows a b → Follows b c → Follows a c
Follows-trans a b c f g k job found =
    let (job', found', ab) = f k job found in
    let (job'', found'', bc) = g k job' found' in
    (job'', found'', leads_trans job.status job'.status job''.status ab bc)

-- A write of a job that its old one leads to.
pub put-Follows :
    (k : String) (old job : JobRecord) (items : Jobs)
    → get k items ≡ some old
    → leads old.status job.status ≡ true
    → Follows items (put k job items)
put-Follows k old job items found l j job' found' = elim (Bool-cases (str_eq k j)) [
  | inl here ↦ (job, ground (arith, get-put k j job items), ground (arith, str_eq_iff k j))
  | inr there ↦ (job', ground (arith, get-put k j job items), leads_refl job'.status)
]

-- A write under a new id.
pub put_new-Follows :
    (k : String) (job : JobRecord) (items : Jobs)
    → get k items ≡ none
    → Follows items (put k job items)
put_new-Follows k job items missing j job' found =
    (job', ground (arith, get-put k j job items, str_eq_iff k j), leads_refl job'.status)

pub context-Follows :
    (job_id : String) (context : Fields) (items : Jobs)
    → Follows items (update_lease_context job_id context items).1
unfolding update_lease_context
context-Follows job_id context items = elim (Option-cases (get job_id items)) [
  | inl missing ↦ rw (missing, update_lease_context) (Follows-refl items)
  | inr (job, found) ↦
      rw (found, update_lease_context)
        (put-Follows job_id job _ items found (leads_refl job.status))
]

leads-reconciled : (now : ℕ) (job : JobRecord) → leads job.status (reconciled now job).status ≡ true
unfolding is_expired interrupt
leads-reconciled now job = ground (arith, leads_refl job.status)

pub reconcile-Follows :
    (now : ℕ) (items : Jobs) → Follows items (reconcile_expired_leases now items).0
reconcile-Follows now items k job found = (
  reconciled now job,
  get-reconcile now k items ∙ ap (map_job (reconciled now)) found,
  leads-reconciled now job,
)

leads-claimed :
    (worker token : String) (expires now : ℕ) (job : JobRecord)
    → claimable worker job ≡ true
    → leads job.status (claimed worker token expires now job).status ≡ true
unfolding claimable claimed
leads-claimed worker token expires now job free = ground arith

pub claim-Follows :
    (worker : String) (duration : ℤ) (tokens : ℕ → String) (now : ℕ) (items : Jobs)
    (r : List JobRecord × Jobs)
    → IsValid items
    → claim_pending_for_worker worker duration tokens now items ≡ some r
    → Follows items r.1
claim-Follows worker duration tokens now items r v granted =
    Follows-trans items (reconcile_expired_leases now items).0 r.1 (reconcile-Follows now items)
      λ k job found. elim (Bool-cases (claimable worker job)) [
        | inl free ↦
            let (n, ends, _) =
              claim_stores worker duration tokens now items r k job v granted found free in
            (
              claimed worker (tokens n) (now + pos_part duration * microseconds) now job,
              ends,
              leads-claimed worker (tokens n) (now + pos_part duration * microseconds) now job free,
            )
        | inr left ↦ (
          job,
          claim_leaves worker duration tokens now items r k job v granted found left,
          leads_refl job.status,
        )
      ]

status-renewed :
    (duration now : ℕ) (job : JobRecord) → (renewed duration now job).status ≡ job.status
unfolding renewed
status-renewed duration now job = refl

pub renew-Follows :
    (job_id worker token : String) (duration : ℤ) (now : ℕ) (items : Jobs)
    (r : Option JobRecord × Jobs)
    → renew_lease job_id worker token duration now items ≡ some r
    → Follows items r.1
renew-Follows job_id worker token duration now items r h =
    elim (renew_cases job_id worker token duration now items r h) [
      | inl same ↦ rw same (Follows-refl items)
      | inr (job, found, _, e) ↦ rw e (
          put-Follows job_id job (renewed (pos_part duration) now job) items found
            (rw status-renewed (leads_refl job.status)))
    ]

-- Both at once: the repository stays valid, and its jobs move as they may.
abbrev pub Moves : Jobs → Jobs → Type 0
Moves items items' = IsValid items' × Follows items items'

pub Moves-refl : (items : Jobs) → IsValid items → Moves items items
Moves-refl items v = (v, Follows-refl items)

pub Moves-trans : (a b c : Jobs) → Moves a b → Moves b c → Moves a c
Moves-trans a b c f g = (g.0, Follows-trans a b c f.1 g.1)
