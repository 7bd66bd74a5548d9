-- ===== src/Restore/Planning.antt =====
-- `_validate_chown`, `_validate_layout`, `_select_candidate`, `_resolve_policy`, `_inspect_target`,
-- `_inspect_candidate`, `_find_affected_containers` and `plan_restore`, on ASCII texts.
use docker_volume_backup.Base.{
  done, raised, finish, call, given_text, ◌>>>=◌, ℕ, ltb, String, Bool, true, ◌&&◌, ◌||◌, Option,
  none, some, List, [], ◌∷◌, keep_if, or_else, joined_to, codes, codes_eq, lower, strip, before,
  after, has, all_digits, length, if◌then◌else◌,
}
use docker_volume_backup.Json.{null, text}
use docker_volume_backup.RestoreOwnership.{
  Error, category_text, Checked, good, refused, ◌>>=◌, LayerInput, given, RestoreOwnershipPolicy,
  require_confirmation, resolve_restore_ownership,
}
use docker_volume_backup.Restore.Defs.{
  RestoreConfig, RestoreCandidate, Exception, Target, missing, unsafe, safe, Evidence, no_evidence,
  good_evidence, bad_evidence, candidates_listed, target_seen, candidate_inspected,
  runtime_volumes_searched, labels_searched, volume_searched, Outcome, Run, Ports,
}

-- `_validate_chown`: whether it finds no error.
unfoldable pub is_chown : Option String → Bool
is_chown chown = elim (given_text chown) [
  | none ↦ true
  | some ids ↦
      let uid = before b':' (codes ids) in
      let gid = after b':' (codes ids) in
      has b':' (codes ids)
      && ((ltb 0 (length uid) && all_digits uid) && (ltb 0 (length gid) && all_digits gid))
]

abbrev pub layout_of : RestoreConfig → String
layout_of config = or_else (given_text config.layout) "auto"

-- `_validate_layout`: whether it finds no error.
unfoldable pub is_layout : RestoreConfig → Bool
is_layout config =
    let layout = lower (codes (layout_of config)) in
    codes_eq layout (codes "auto")
    || (codes_eq layout (codes "direct") || codes_eq layout (codes "backup-dir"))

-- `_is_native_restore`
unfoldable pub is_native_restore : RestoreConfig → Bool
unfolding strip
is_native_restore config = codes_eq (lower (strip (codes config.runtime_type))) (codes "native")

abbrev pub plain : String → Exception
plain message = record { message = message; category = none }

abbrev pub reasons : List RestoreCandidate → List String
reasons [] = []
reasons (c ∷ cs) = elim (given_text c.unavailable_reason) [
  | none ↦ reasons cs
  | some r ↦ r ∷ reasons cs
]

abbrev pub joined_by : String → List String → String
joined_by sep [] = ""
joined_by sep (s ∷ []) = s
joined_by sep (s ∷ t ∷ ss) = joined_to s (joined_to sep (joined_by sep (t ∷ ss)))

-- `created_at or datetime.min`
abbrev pub age_key : RestoreCandidate → ℕ
age_key c = or_else c.created_at 0

-- The first of the newest candidates.
abbrev pub newest : RestoreCandidate → List RestoreCandidate → RestoreCandidate
newest c [] = c
newest c (d ∷ ds) = newest (if ltb (age_key c) (age_key d) then d else c) ds

unfoldable pub choose : List RestoreCandidate → List RestoreCandidate → Run RestoreCandidate
choose all [] t =
    let why = reasons all in
    (
      raised (
          plain (elim why [
            | [] ↦ "no available restore candidates found"
            | (r ∷ rs) ↦ joined_by "; " (r ∷ rs)
          ])),
      t,
    )
choose all (c ∷ cs) t = (done (newest c cs), t)

unfoldable pub target_verdict : Target → Run (Unit {0})
target_verdict unsafe t = (
  raised (record { message = "unsafe restore target path"; category = some "unsafe_target_path" }),
  t,
)
target_verdict missing t = (done tt, t)
target_verdict safe t = (done tt, t)

unfoldable pub evidence_verdict : Evidence → Run (Unit {0})
evidence_verdict no_evidence t = (done tt, t)
evidence_verdict good_evidence t = (done tt, t)
evidence_verdict (bad_evidence detail category) t = (
  raised (record {
    message = or_else (given_text detail) "restore inspection failed";
    category = some (or_else category "restore_inspection_failed");
  }),
  t,
)

-- The labels of the second search.
abbrev pub labels_with : RestoreConfig → String → List String
labels_with config label = elim (given_text config.custom_label) [
  | none ↦ label ∷ []
  | some custom ↦ label ∷ custom ∷ []
]

module _ (ports : Ports) (config : RestoreConfig) where
  -- `_select_candidate`
  unfoldable pub select_candidate : Run RestoreCandidate
  unfolding choose
  select_candidate = elim (given_text config.source) [
    | some source ↦ finish (record {
      source = source;
      strategy = config.backup_strategy;
      created_at = none;
      available = true;
      unavailable_reason = none;
    })
    | none ↦ call ports.list_restore_candidates candidates_listed >>>= λ all.
        choose all (keep_if (λ c. c.available) all)
  ]

  -- The confirmed policy of the three layers, which `_resolve_policy` asks for.
  unfoldable pub resolved_policy : Checked RestoreOwnershipPolicy
  unfolding resolve_restore_ownership require_confirmation
  resolved_policy =
      let legacy = elim config.chown as (λ _. LayerInput) [
        | none ↦ given null
        | some ids ↦ given (text ids)
      ] in
      resolve_restore_ownership config.restore_ownership config.target_defaults legacy
        config.volume_scopes
      >>= λ policy. require_confirmation policy

  -- The attribute `category` of a `RestoreOwnershipValidationError` as the service reads it.
  abbrev pub policy_exception : Error → Exception
  policy_exception e = record { message = ports.message e; category = some (category_text e) }

  abbrev pub policy_outcome : Checked RestoreOwnershipPolicy → Outcome RestoreOwnershipPolicy
  policy_outcome (good policy) = done policy
  policy_outcome (refused e) = raised (policy_exception e)

  -- `_resolve_policy`
  unfoldable pub resolve_policy : Run RestoreOwnershipPolicy
  unfolding resolved_policy
  resolve_policy t = (policy_outcome resolved_policy, t)

  -- `_inspect_target`
  unfoldable pub inspect_target : Run (Unit {0})
  unfolding target_verdict
  inspect_target =
      call (ports.see_target config.target_path) (target_seen config.target_path) >>>= λ target.
      target_verdict target

  -- `_inspect_candidate`
  unfoldable pub inspect_candidate : RestoreCandidate → Run (Unit {0})
  unfolding evidence_verdict
  inspect_candidate candidate =
      call (ports.inspect candidate) (candidate_inspected candidate) >>>= λ evidence.
      evidence_verdict evidence

  -- The containers found, or else the next way to find some.
  abbrev pub found_or : Run (List String) → List String → Run (List String)
  found_or next [] = next
  found_or next (id ∷ ids) = finish (id ∷ ids)

  abbrev pub by_volume : Run (List String)
  by_volume = call (ports.find_volume config.target_path) (volume_searched config.target_path)

  unfoldable pub by_labels : Run (List String)
  by_labels = elim (given_text config.stop_label) [
    | none ↦ by_volume
    | some label ↦
        let labels = labels_with config label in
        call (ports.find_labels labels) (labels_searched labels) >>>= λ ids. found_or by_volume ids
  ]

  -- `_find_affected_containers`
  unfoldable pub find_affected_containers : Run (List String)
  unfolding is_native_restore by_labels
  find_affected_containers =
      if is_native_restore config
      then finish []
      else (call ports.find_runtime_volumes runtime_volumes_searched >>>= λ ids.
          found_or by_labels ids)
