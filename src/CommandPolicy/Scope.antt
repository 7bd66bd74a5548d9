-- ===== src/CommandPolicy/Scope.antt =====
-- `validate_target_scope`, `snapshot_arguments` and `validate_snapshot_scope`.
use docker_volume_backup.Base.{
  Bool, true, false, not, ◌&&◌, ◌||◌, Option, none, some, List, [], ◌∷◌, codes, codes_eq, keep_if,
  present, if◌then◌else◌,
}
use docker_volume_backup.CommandPolicy.Paths.{
  Text, is_text, is_safe_target, is_snapshot_id, normalize_snapshot_path, snapshot_tree_arguments,
}
use docker_volume_backup.CommandPolicy.Commands.{is_no_lock}

-- The keys of the job's payload that name its scope, as texts; `metadata_target_id` is the
-- `target_id` of `snapshot` or else of `snapshot_record`, `none` where neither is an object.
pub record ScopePayload : Type 0 where
  pub target_id : Option Text
  pub snapshot_target_id : Option Text
  pub metadata_target_id : Option (Option Text)
  pub snapshot_id : Option Text
  pub path : Option Text

abbrev pub safe_or_absent : Option Text → Bool
safe_or_absent none = true
safe_or_absent (some value) = is_safe_target value

abbrev pub agree : Option Text → Option Text → Bool
agree (some a) (some b) = codes_eq a b
agree _ _ = true

-- `a or b`
abbrev text_or : Option Text → Option Text → Option Text
text_or (some (c ∷ cs)) b = some (c ∷ cs)
text_or (some []) b = b
text_or none b = b

abbrev pub snapshot_owner : ScopePayload → Option Text
snapshot_owner payload = elim payload.metadata_target_id [
  | none ↦ payload.snapshot_target_id
  | some id ↦ text_or payload.snapshot_target_id id
]

-- `validate_target_scope`: whether it raises nothing.
unfoldable pub validate_target_scope : ScopePayload → Bool
validate_target_scope payload =
    safe_or_absent payload.target_id
    && (safe_or_absent (snapshot_owner payload) && agree payload.target_id (snapshot_owner payload))

-- What `snapshot_arguments` returns, from the operation on: the snapshot and the path; `none` is
-- its `ValueError`.
scope_of : Text → List Text → Option (Option (Text × Text))
unfolding snapshot_tree_arguments
scope_of operation args =
    if is_text "ls" operation || is_text "find" operation
    then elim args [
      | json ∷ id ∷ [] ↦ some (some (id, codes "/"))
      | json ∷ id ∷ path ∷ [] ↦ some (some (id, path))
      | _ ↦ some none
    ]
    else if is_text "cat" operation
    then elim args [
      | what ∷ target ∷ [] ↦
          if is_text "tree" what
          then elim (snapshot_tree_arguments target) [
            | none ↦ none
            | some scope ↦ some (some scope)
          ]
          else some none
      | _ ↦ some none
    ]
    else if is_text "dump" operation
    then elim args [
      | id ∷ path ∷ [] ↦ some (some (id, path))
      | option ∷ format ∷ id ∷ path ∷ [] ↦ some (some (id, path))
      | _ ↦ some none
    ]
    else if is_text "stats" operation
    then elim args [
      | mode ∷ what ∷ json ∷ id ∷ [] ↦
          if is_text "--mode" mode && (is_text "restore-size" what && is_text "--json" json)
          then some (some (id, codes "/"))
          else some none
      | _ ↦ some none
    ]
    else some none

scope_after_cache : List Text → Option (Option (Text × Text))
unfolding scope_of
scope_after_cache (option ∷ dir ∷ operation ∷ args) =
    if is_text "--cache-dir" option
    then scope_of operation args
    else scope_of option (dir ∷ operation ∷ args)
scope_after_cache (operation ∷ args) = scope_of operation args
scope_after_cache [] = some none

-- `snapshot_arguments`
unfoldable pub snapshot_arguments : List Text → Option (Option (Text × Text))
unfolding scope_after_cache
snapshot_arguments argv = elim (keep_if (λ item. not (is_no_lock item)) argv) [
  | executable ∷ args ↦ if is_text "restic" executable then scope_after_cache args else some none
  | [] ↦ some none
]

abbrev path_agrees : Option Text → Option Text → Bool
path_agrees none normalized = true
path_agrees (some requested) none = false
path_agrees (some requested) (some normalized) = elim (normalize_snapshot_path requested) [
  | none ↦ false
  | some path ↦ codes_eq path normalized
]

-- `validate_snapshot_scope`: whether it raises nothing.
unfoldable pub validate_snapshot_scope : ScopePayload → List Text → Bool
unfolding validate_target_scope snapshot_arguments
validate_snapshot_scope payload argv =
    validate_target_scope payload && (elim (snapshot_arguments argv) [
      | none ↦ false
      | some none ↦ true
      | some (some (snapshot_id, path)) ↦
          is_snapshot_id snapshot_id
          && (present (normalize_snapshot_path path)
              && (agree payload.snapshot_id (some snapshot_id)
                  && path_agrees payload.path (normalize_snapshot_path path)))
    ])
