-- ===== src/Jobs/Repository.antt =====
-- The methods of `InMemoryJobRepository`. Each runs under the repository's lock, so a call is one
-- step. `utcnow()` is the argument `now`; `secrets.token_urlsafe` is a stream of tokens.
use docker_volume_backup.Base.{
  ℕ, suc, ◌+◌, ◌*◌, String, Bool, true, false, ◌&&◌, Option, none, some, List, [], ◌∷◌, ◌++◌, ℤ,
  pos, pos_part, leb_ℤ, leb, ltb, str_eq, opt_eq, or_else, present, any_of, keep_if, sort_by,
  sort_newest, take_last, text_length, get, put, values, if◌then◌else◌,
}
use docker_volume_backup.Json.{obj, Fields, assign}
use docker_volume_backup.Jobs.Defs.{
  JobStatus, normalize, is_pending, is_in_progress, JobRecord, Jobs,
}
use docker_volume_backup.Jobs.Summary.{
  summary_of, interrupted_summary, renewed_summary, claimed_summary, progress_sequence,
  progress_summary,
}

abbrev pub max_log_lines : ℕ
max_log_lines = 1000

abbrev pub max_log_chars : ℕ
max_log_chars = 512 * 1024

abbrev pub microseconds : ℕ
microseconds = 1000000

unfoldable pub save : JobRecord → Jobs → Jobs
save job items = put job.id (record job { status = normalize job.status }) items

-- `list`
unfoldable pub list_jobs : Jobs → List JobRecord
list_jobs items = sort_newest (λ job. job.submitted_at) (values items)

-- `list_for_lease_context`
unfoldable pub list_for_lease_context : Jobs → List JobRecord
list_for_lease_context items =
    keep_if (λ job. is_in_progress (normalize job.status) && present job.lease_expires_at)
      (values items)

-- `update_lease_context`
unfoldable pub update_lease_context : String → Fields → Jobs → Bool × Jobs
update_lease_context job_id context items = elim (get job_id items) [
  | none ↦ (false, items)
  | some job ↦ (
    true,
    put job_id
        (record job {
          result_summary = some (assign "lease_context" (obj context) (summary_of job));
        })
        items,
  )
]

-- `lease_expires_at and lease_expires_at <= now`
abbrev pub lapsed : ℕ → Option ℕ → Bool
lapsed now none = false
lapsed now (some expires) = leb expires now

unfoldable pub is_expired : ℕ → JobRecord → Bool
is_expired now job = is_in_progress job.status && lapsed now job.lease_expires_at

abbrev pub interruption_log : String
interruption_log = "Worker lease expired before terminal status was reported."

-- What the loop of `_reconcile_expired_leases_locked` does to an expired job.
unfoldable pub interrupt : ℕ → JobRecord → JobRecord
interrupt now job = record job {
  status = JobStatus.failed;
  owner_worker_id = none;
  lease_token = none;
  lease_issued_at = none;
  lease_expires_at = none;
  result_summary = some (interrupted_summary job now);
  log_lines =
      if any_of (λ line. str_eq line interruption_log) job.log_lines
      then job.log_lines
      else job.log_lines ++ interruption_log ∷ [];
  finished_at = some now;
  updated_at = now;
}

-- `reconcile_expired_leases`: the jobs, and how many were interrupted.
unfoldable pub reconcile_expired_leases : ℕ → Jobs → Jobs × ℕ
unfolding is_expired interrupt
reconcile_expired_leases now [] = ([], 0)
reconcile_expired_leases now ((k, job) ∷ items) =
    let (rest, n) = reconcile_expired_leases now items in
    if is_expired now job then ((k, interrupt now job) ∷ rest, n + 1) else ((k, job) ∷ rest, n)

-- `lease_expires_at` is set and later than `now`
abbrev pub unexpired : ℕ → Option ℕ → Bool
unexpired now none = false
unexpired now (some expires) = ltb now expires

-- The guard of `renew_lease` and `update_progress`, negated.
unfoldable pub holds_lease : String → String → ℕ → JobRecord → Bool
holds_lease worker token now job =
    is_in_progress job.status
    && (opt_eq job.owner_worker_id worker
        && (str_eq (or_else job.lease_token "") token && unexpired now job.lease_expires_at))

unfoldable pub renewed : ℕ → ℕ → JobRecord → JobRecord
renewed duration now job =
    let expires = now + duration * microseconds in
    let leased = record job { lease_expires_at = some expires } in
    record leased { result_summary = some (renewed_summary leased expires now); updated_at = now }

-- The outer `none` is the `ValueError` of a duration that is not positive; the inner one is the
-- `None` of a lease that is not held.
unfoldable pub renew_lease :
    String → String → String → ℤ → ℕ → Jobs → Option (Option JobRecord × Jobs)
unfolding holds_lease renewed
renew_lease job_id worker token duration now items =
    if leb_ℤ duration (pos 0)
    then none
    else some (elim (get job_id items) [
      | none ↦ (none, items)
      | some job ↦
          let job' = renewed (pos_part duration) now job in
          if holds_lease worker token now job
          then (some job', put job_id job' items)
          else (none, items)
    ])

-- `sum(len(line) for line in lines)`
unfoldable pub total_chars : List String → ℕ
total_chars [] = 0
total_chars (line ∷ lines) = text_length line + total_chars lines

-- `while lines and sum(...) > MAX_LOG_CHARS: lines.pop(0)`
unfoldable pub trim_chars : ℕ → List String → List String
unfolding total_chars
trim_chars bound [] = []
trim_chars bound (line ∷ lines) =
    if ltb bound (total_chars (line ∷ lines)) then trim_chars bound lines else line ∷ lines

unfoldable pub bounded_log : List String → List String
unfolding trim_chars
bounded_log lines = trim_chars max_log_chars (take_last max_log_lines lines)

unfoldable pub progressed : ℤ → Fields → List String → Option Fields → ℕ → JobRecord → JobRecord
unfolding bounded_log
progressed sequence progress lines extra now job = record job {
  result_summary = some (progress_summary job sequence progress extra now);
  log_lines = bounded_log (job.log_lines ++ lines);
  updated_at = now;
}

unfoldable pub update_progress :
    String
    → String
    → String
    → ℤ
    → Fields
    → List String
    → Option Fields
    → ℕ
    → Jobs
    → Option JobRecord × Jobs
unfolding holds_lease progressed progress_sequence
update_progress job_id worker token sequence progress lines extra now items =
    elim (get job_id items) [
      | none ↦ (none, items)
      | some job ↦
          let job' = progressed sequence progress lines extra now job in
          if holds_lease worker token now job
          then if leb_ℤ sequence (progress_sequence job)
            then (some job, items)
            else (some job', put job_id job' items)
          else (none, items)
    ]

unfoldable pub claimable : String → JobRecord → Bool
claimable worker job = str_eq job.worker_id worker && is_pending job.status

-- What the loop of `claim_pending_for_worker` does to a job that it claims.
unfoldable pub claimed : String → String → ℕ → ℕ → JobRecord → JobRecord
claimed worker token expires now job =
    let leased = record job {
      status = JobStatus.in_progress;
      owner_worker_id = some worker;
      lease_token = some token;
      lease_issued_at = some now;
      lease_expires_at = some expires;
      attempt_count = job.attempt_count + 1;
      started_at = some now;
      updated_at = now;
    } in
    record leased { result_summary = some (claimed_summary leased expires now) }

-- The loop over the jobs in their order of submission; `i` tokens were drawn before.
unfoldable pub claim_loop :
    String → (ℕ → String) → ℕ → ℕ → ℕ → List JobRecord → Jobs → List JobRecord × Jobs
unfolding claimable claimed
claim_loop worker tokens expires now i [] items = ([], items)
claim_loop worker tokens expires now i (job ∷ jobs) items = elim (claimable worker job) [
  | true ↦
      let job' = claimed worker (tokens i) expires now job in
      let (taken, items') =
        claim_loop worker tokens expires now (suc i) jobs (put job.id job' items) in
      (job' ∷ taken, items')
  | false ↦ claim_loop worker tokens expires now i jobs items
]

-- `none` is the `ValueError` of a duration that is not positive.
unfoldable pub claim_pending_for_worker :
    String → ℤ → (ℕ → String) → ℕ → Jobs → Option (List JobRecord × Jobs)
unfolding reconcile_expired_leases claim_loop
claim_pending_for_worker worker duration tokens now items =
    if leb_ℤ duration (pos 0)
    then none
    else let items' = (reconcile_expired_leases now items).0 in
      some (
        claim_loop worker tokens (now + pos_part duration * microseconds) now 0
          (sort_by (λ job. job.submitted_at) (values items')) items')
