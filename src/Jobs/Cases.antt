-- ===== src/Jobs/Cases.antt =====
-- What each method of the job repository does, by cases: the rules that the proofs go by.
use docker_volume_backup.Base.{
  ◌⊎◌, leb_ℤ, pos, pos_part, ◌*◌, ℕ, suc, ◌+◌, String, true, false, Option, none, some, List, [],
  ◌∷◌, ◌≡◌, refl, arith, ℤ, get, put, values, Bool-cases, Option-cases, inl, inr, sort_by,
  if◌then◌else◌,
}
use docker_volume_backup.Json.{Fields}
use docker_volume_backup.Jobs.Defs.{JobRecord, Jobs}
use docker_volume_backup.Jobs.Summary.{progress_sequence}
use docker_volume_backup.Jobs.Repository.{
  microseconds, is_expired, interrupt, reconcile_expired_leases, renew_lease, renewed,
  update_progress, progressed, claimable, claimed, claim_loop, claim_pending_for_worker,
  holds_lease,
}

-- What one pass of `reconcile_expired_leases` does to a job.
abbrev pub reconciled : ℕ → JobRecord → JobRecord
reconciled now job = if is_expired now job then interrupt now job else job

abbrev pub map_job : (JobRecord → JobRecord) → Option JobRecord → Option JobRecord
map_job f none = none
map_job f (some job) = some (f job)

-- Reconciliation works on each job by itself.
pub get-reconcile :
    (now : ℕ) (k : String) (items : Jobs)
    → get k (reconcile_expired_leases now items).0 ≡ map_job (reconciled now) (get k items)
unfolding reconcile_expired_leases
get-reconcile now k [] = refl
get-reconcile now k ((j, job) ∷ items) = ground (arith, get-reconcile now k items)

module _ (worker : String) (tokens : ℕ → String) (expires now i : ℕ) (job : JobRecord)
    (jobs : List JobRecord) (items : Jobs) where
  pub claim_loop_taken :
      claimable worker job ≡ true
      → let job' = claimed worker (tokens i) expires now job in
        let rest = claim_loop worker tokens expires now (suc i) jobs (put job.id job' items) in
        claim_loop worker tokens expires now i (job ∷ jobs) items ≡ (job' ∷ rest.0, rest.1)
  unfolding claim_loop
  claim_loop_taken h = rw (h, claim_loop)

  pub claim_loop_skipped :
      claimable worker job ≡ false
      → claim_loop worker tokens expires now i (job ∷ jobs) items
        ≡ claim_loop worker tokens expires now i jobs items
  unfolding claim_loop
  claim_loop_skipped h = rw (h, claim_loop)

-- Rule for the loop: what holds of the state and is kept by each claim holds at its end.
pub claim_loop_inv {ℓ} :
    (P : Jobs → Type ℓ) (worker : String) (tokens : ℕ → String) (expires now : ℕ)
    → ((job : JobRecord) (token : String) (items : Jobs)
        → claimable worker job ≡ true
        → P items
        → P (put job.id (claimed worker token expires now job) items))
    → (i : ℕ) (jobs : List JobRecord) (items : Jobs) → P items
    → P (claim_loop worker tokens expires now i jobs items).1
claim_loop_inv P worker tokens expires now keep i [] items h = unfold claim_loop in h
claim_loop_inv P worker tokens expires now keep i (job ∷ jobs) items h =
    elim (Bool-cases (claimable worker job)) [
      | inl free ↦ rw (claim_loop_taken worker tokens expires now i job jobs items free) (
          claim_loop_inv P worker tokens expires now keep (suc i) jobs _
            (keep job (tokens i) items free h))
      | inr taken ↦
          rw (claim_loop_skipped worker tokens expires now i job jobs items taken)
            (claim_loop_inv P worker tokens expires now keep i jobs items h)
    ]

pub id-claimed :
    (worker token : String) (expires now : ℕ) (job : JobRecord)
    → (claimed worker token expires now job).id ≡ job.id
unfolding claimed
id-claimed worker token expires now job = refl

pub id-renewed : (duration now : ℕ) (job : JobRecord) → (renewed duration now job).id ≡ job.id
unfolding renewed
id-renewed duration now job = refl

pub id-progressed :
    (sequence : ℤ) (progress : Fields) (lines : List String) (extra : Option Fields) (now : ℕ)
    (job : JobRecord)
    → (progressed sequence progress lines extra now job).id ≡ job.id
unfolding progressed
id-progressed sequence progress lines extra now job = refl

-- The loop that a granted claim runs.
abbrev pub claim_run : String → ℤ → (ℕ → String) → ℕ → Jobs → List JobRecord × Jobs
claim_run worker duration tokens now items =
    let items' = (reconcile_expired_leases now items).0 in
    claim_loop worker tokens (now + pos_part duration * microseconds) now 0
      (sort_by (λ job. job.submitted_at) (values items')) items'

pub claim-eq-run :
    (worker : String) (duration : ℤ) (tokens : ℕ → String) (now : ℕ) (items : Jobs)
    {r : List JobRecord × Jobs}
    → claim_pending_for_worker worker duration tokens now items ≡ some r
    → r ≡ claim_run worker duration tokens now items
unfolding claim_pending_for_worker
claim-eq-run worker duration tokens now items h = elim (Bool-cases (leb_ℤ duration (pos 0))) [
  | inl refused ↦ cc (refused)
  | inr granted ↦ cc (granted)
]

-- A renewal either finds no lease and changes nothing, or renews the lease of the job it finds.
pub renew_cases :
    (job_id worker token : String) (duration : ℤ) (now : ℕ) (items : Jobs)
    (r : Option JobRecord × Jobs)
    → renew_lease job_id worker token duration now items ≡ some r
    → (r ≡ (none, items))
      ⊎ ((job : JobRecord) × (get job_id items ≡ some job)
          × (holds_lease worker token now job ≡ true)
          × (r ≡ (
            some (renewed (pos_part duration) now job),
            put job_id (renewed (pos_part duration) now job) items,
          )))
unfolding renew_lease
renew_cases job_id worker token duration now items r h = elim (Option-cases (get job_id items)) [
  | inl missing ↦ inl (ground arith)
  | inr (job, found) ↦ elim (Bool-cases (holds_lease worker token now job)) [
    | inl held ↦ inr (job, found, held, ground arith)
    | inr lost ↦ inl (ground arith)
  ]
]

-- A progress report finds no lease, is stale, or updates the job it finds.
pub progress_cases :
    (job_id worker token : String) (sequence : ℤ) (progress : Fields) (lines : List String)
    (extra : Option Fields) (now : ℕ) (items : Jobs)
    → let r = update_progress job_id worker token sequence progress lines extra now items in
      (r ≡ (none, items))
      ⊎ ((job : JobRecord) × (get job_id items ≡ some job)
          × (holds_lease worker token now job ≡ true)
          × ((leb_ℤ sequence (progress_sequence job) ≡ true) × (r ≡ (some job, items))
              ⊎ (leb_ℤ sequence (progress_sequence job) ≡ false)
                × (r ≡ (
                  some (progressed sequence progress lines extra now job),
                  put job_id (progressed sequence progress lines extra now job) items,
                ))))
unfolding update_progress
progress_cases job_id worker token sequence progress lines extra now items =
    elim (Option-cases (get job_id items)) [
      | inl missing ↦ inl (ground arith)
      | inr (job, found) ↦ elim (Bool-cases (holds_lease worker token now job)) [
        | inl held ↦ inr (
          job,
          found,
          held,
          elim (Bool-cases (leb_ℤ sequence (progress_sequence job))) [
            | inl stale ↦ inl (stale, ground arith)
            | inr fresh ↦ inr (fresh, ground arith)
          ],
        )
        | inr lost ↦ inl (ground arith)
      ]
    ]
