-- ===== src/Jobs/Summary.antt =====
-- The result summaries that the repository writes: lease contexts and lease diagnostics.
use docker_volume_backup.Base.{
  ℕ, String, Option, none, some, ℤ, pos, str_eq, or_else, if◌then◌else◌,
}
use docker_volume_backup.Json.{
  Value, null, num, text, moment, arr, obj, nil, cons, Fields, empty, field, lookup, assign,
  set_default, discard, update, entry, value_or, int_or_zero, as_dict, opt_text,
}
use docker_volume_backup.Jobs.Defs.{JobRecord}

-- `x or y` for texts: the empty text gives way too.
abbrev pub text_or : Option String → String → String
text_or none d = d
text_or (some s) d = if str_eq s "" then d else s

-- `_datetime_text` of an instant that may be `None`
abbrev pub datetime_text : Option ℕ → Value
datetime_text none = null
datetime_text (some t) = moment t

-- The summary, or `{}`.
abbrev pub summary_of : JobRecord → Fields
summary_of job = or_else job.result_summary empty

abbrev default_moment : String → Option ℕ → Fields → Fields
default_moment k none d = d
default_moment k (some t) d = set_default k (moment t) d

-- `_lease_context_for_job`
unfoldable pub lease_context_for_job : JobRecord → Option ℕ → Fields
unfolding lookup set_default
lease_context_for_job job now =
    let current = as_dict (lookup "lease_context" (summary_of job)) in
    let named = set_default "command" (text job.command) (
      set_default "worker_id" (text (text_or job.owner_worker_id job.worker_id)) (
        set_default "target_id" (opt_text job.target_id)
          (set_default "job_id" (text job.id) current))) in
    let leased =
      default_moment "lease_expires_at" job.lease_expires_at
        (default_moment "lease_issued_at" job.lease_issued_at named) in
    default_moment "observed_at" now
      (set_default "last_repository_update_at" (moment job.updated_at) leased)

abbrev pub lease_diagnostic_message : String
lease_diagnostic_message =
    "Control Plane observed that the worker lease expired before a terminal result arrived; the worker or runtime cause is unknown."

-- `context.get(k, d)`
abbrev entry_or : String → Value → Fields → Value
entry_or k v d = or_else (lookup k d) v

with_renewal : Option Value → Fields → Fields
unfolding assign
with_renewal (some (obj renewal)) observed = assign "last_renewal" (obj renewal) observed
with_renewal _ observed = observed

-- `_lease_diagnostics`
unfoldable pub lease_diagnostics : JobRecord → ℕ → Fields
unfolding lookup entry value_or int_or_zero lease_context_for_job with_renewal
lease_diagnostics job now =
    let context = lease_context_for_job job (some now) in
    let sequence = int_or_zero (
      entry_or "last_progress_sequence"
        (entry_or "progress_sequence" (num (pos 0)) (summary_of job)) context) in
    let observed = field "job_id" (value_or (entry "job_id" context) (text job.id)) (
      field "target_id" (entry_or "target_id" (opt_text job.target_id) context) (
        field "worker_id"
          (value_or (entry "worker_id" context) (text (text_or job.owner_worker_id job.worker_id)))
          (field "command" (value_or (entry "command" context) (text job.command)) (
            field "lease_issued_at" (entry "lease_issued_at" context) (
              field "lease_expires_at" (entry "lease_expires_at" context) (
                field "last_repository_update_at"
                  (value_or (entry "last_repository_update_at" context) (moment job.updated_at))
                  (field "last_progress_at" (entry "last_progress_at" context) (
                    field "last_progress_sequence" (num sequence) (
                      field "worker_status" (entry "worker_status" context) (
                        field "worker_last_seen_at" (entry "worker_last_seen_at" context)
                          empty)))))))))) in
    field "code" (text "worker_lease_expired") (
      field "category" (text "worker_interrupted") (
        field "message" (text lease_diagnostic_message) (
          field "observed" (obj (with_renewal (lookup "last_renewal" context) observed)) (
            field "unknown" (arr (cons (text "terminal_result") (cons (text "root_cause") nil)))
              empty))))

-- The summary that `_reconcile_expired_leases_locked` leaves. `job.result_summary` is this very
-- dict while `_lease_diagnostics` reads it.
unfoldable pub interrupted_summary : JobRecord → ℕ → Fields
unfolding assign set_default discard lease_diagnostics
interrupted_summary job now =
    let marked = assign "diagnostic_message" (text lease_diagnostic_message) (
      assign "diagnostic_category" (text "worker_interrupted") (
        assign "diagnostic_code" (text "worker_lease_expired") (
          assign "recovery" (text "worker_interrupted") (
            set_default "error"
              (text "worker lease expired before the job reported a terminal result")
              (summary_of job))))) in
    discard "lease_context" (
      assign "lease_diagnostics"
        (obj (lease_diagnostics (record job { result_summary = some marked }) now)) marked)

-- The summary after `renew_lease`; `job` has its new expiry, `expires`.
unfoldable pub renewed_summary : JobRecord → ℕ → ℕ → Fields
unfolding assign lease_context_for_job
renewed_summary job expires now =
    let context = lease_context_for_job job (some now) in
    assign "lease_context"
      (obj (
        assign "last_repository_update_at" (moment now)
          (assign "lease_expires_at" (moment expires) context)))
      (summary_of job)

-- The summary after `claim_pending_for_worker`; `job` is claimed until `expires`.
unfoldable pub claimed_summary : JobRecord → ℕ → ℕ → Fields
unfolding assign update lease_context_for_job
claimed_summary job expires now =
    let context = lease_context_for_job job (some now) in
    assign "lease_context"
      (obj (
        update context (
          field "lease_issued_at" (moment now) (
            field "lease_expires_at" (moment expires)
              (field "last_repository_update_at" (moment now) empty)))))
      (summary_of job)

-- `int(current_summary.get("progress_sequence", 0) or 0)`, or 0
unfoldable pub progress_sequence : JobRecord → ℤ
unfolding lookup int_or_zero
progress_sequence job = int_or_zero (entry_or "progress_sequence" (num (pos 0)) (summary_of job))

abbrev merged : Fields → Option Fields → Fields
merged d none = d
merged d (some e) = update d e

-- The summary after `update_progress`. `job.result_summary` is the old one while
-- `_lease_context_for_job` reads it.
unfoldable pub progress_summary : JobRecord → ℤ → Fields → Option Fields → ℕ → Fields
unfolding assign update lease_context_for_job
progress_summary job sequence progress extra now =
    let context = lease_context_for_job job (some now) in
    assign "lease_context"
      (obj (
        assign "last_progress_sequence" (num sequence) (
          assign "last_progress_at" (moment now)
            (assign "last_repository_update_at" (moment now) context))))
      (assign "progress_sequence" (num sequence)
        (assign "progress" (obj progress) (merged (summary_of job) extra)))
