-- ===== src/RestoreOwnership/Layers.antt =====
-- What a policy says of a volume, `replace`, and `_coerce_policy`, which reads a layer's policy.
use docker_volume_backup.Base.{
  String, ◌||◌, Option, none, some, get, present, pos, str_eq, if◌then◌else◌, ℕ, or_else,
}
use docker_volume_backup.Json.{
  Value, null, flag, num, decimal, text, moment, arr, obj, Fields, empty, field, lookup,
}
use docker_volume_backup.RestoreOwnership.Defs.{
  Checked, good, refused, ◌>>=◌, validate_key, uid_gid_text, parse_uid_gid, invalid_policy,
}
use docker_volume_backup.RestoreOwnership.Policy.{
  RestoreOwnershipPolicy, PolicyArguments, make_policy, from_dict, mode_text, confirmation_text,
  mapping_fields,
}

-- `mappings.get(key, default)`
abbrev pub or_default : Option String → Option String → Option String
or_default none default = default
or_default (some ids) default = some ids

-- `_uid_gid_text(value) if value is not None else None`
unfoldable pub canonical : Option String → Checked (Option String)
unfolding uid_gid_text
canonical none = good none
canonical (some ids) = uid_gid_text (text ids) >>= λ r. good (some r)

-- `mapping_text`
unfoldable pub mapping_text : RestoreOwnershipPolicy → String → Checked (Option String)
unfolding canonical
mapping_text policy key = canonical (or_default (get key policy.mappings) policy.default_mapping)

-- `effective_mapping`
unfoldable pub effective_mapping : RestoreOwnershipPolicy → String → Checked (Option (ℕ × ℕ))
unfolding validate_key mapping_text parse_uid_gid
effective_mapping policy key = validate_key key >>= λ k. mapping_text policy k >>= λ r. elim r [
  | none ↦ good none
  | some ids ↦ parse_uid_gid (text ids) >>= λ pair. good (some pair)
]

abbrev pub opt_value : Option String → Option Value
opt_value none = none
opt_value (some s) = some (text s)

-- The fields of a policy, as `dataclasses.replace` hands them to the constructor.
abbrev pub arguments_of : RestoreOwnershipPolicy → PolicyArguments
arguments_of policy = record {
  mode = mode_text policy.mode;
  mappings = obj (mapping_fields policy.mappings);
  schema_version = num (pos 1);
  confirmation = elim policy.confirmation as (λ _. Value) [
    | none ↦ null
    | some c ↦ confirmation_text c
  ];
  source = policy.source;
  default_mapping = opt_value policy.default_mapping;
}

-- `replace(policy, confirmation=None)`
unfoldable pub replace_confirmation : RestoreOwnershipPolicy → Checked RestoreOwnershipPolicy
unfolding make_policy
replace_confirmation policy = make_policy (record (arguments_of policy) { confirmation = null })

-- `replace(policy, source=source)`
unfoldable pub replace_source : String → RestoreOwnershipPolicy → Checked RestoreOwnershipPolicy
unfolding make_policy
replace_source source policy = make_policy (record (arguments_of policy) { source = some source })

-- The end of `_coerce_policy`.
unfoldable pub placed : String → RestoreOwnershipPolicy → Checked RestoreOwnershipPolicy
unfolding replace_confirmation replace_source
placed source policy =
    if str_eq source "target defaults"
    then (replace_confirmation policy >>= λ p. replace_source source p)
    else replace_source source policy

-- The policy of the text `RESTORE_CHOWN`.
abbrev pub chown_arguments : String → PolicyArguments
chown_arguments ids = record {
  mode = text "map";
  mappings = obj empty;
  schema_version = num (pos 1);
  confirmation = text "confirmed";
  source = none;
  default_mapping = some (text ids);
}

-- A layer's policy where there is one.
abbrev Layer : Type 0
Layer = Checked (Option RestoreOwnershipPolicy)

abbrev pub some_policy : Checked RestoreOwnershipPolicy → Layer
some_policy r = r >>= λ p. good (some p)

-- `_coerce_policy` of a value; `coerce_nested` is its answer for the value under
-- `restore_ownership`, where there is one.
unfoldable mutual
  pub coerce_value : String → Value → Layer
  coerce_value source null = good none
  coerce_value source (text ids) =
      if str_eq source "RESTORE_CHOWN"
      then some_policy (make_policy (chown_arguments ids) >>= λ p. placed source p)
      else refused invalid_policy
  coerce_value source (obj d) = or_else (coerce_nested source d) (
      if present (lookup "mode" d) || present (lookup "mappings" d)
      then some_policy (from_dict d >>= λ p. placed source p)
      else refused invalid_policy)
  coerce_value source (flag _) = refused invalid_policy
  coerce_value source (num _) = refused invalid_policy
  coerce_value source (decimal _) = refused invalid_policy
  coerce_value source (moment _) = refused invalid_policy
  coerce_value source (arr _) = refused invalid_policy

  pub coerce_nested : String → Fields → Option Layer
  coerce_nested source empty = none
  coerce_nested source (field key value d) =
      let here = coerce_value source value in
      let rest = coerce_nested source d in
      if str_eq key "restore_ownership" then some here else rest

-- What a layer is given: a value or a policy that was made before.
pub data LayerInput : Type 0 where
  given : Value → LayerInput
  made : RestoreOwnershipPolicy → LayerInput

-- `_coerce_policy`
unfoldable pub coerce_policy : LayerInput → String → Layer
unfolding coerce_value placed
coerce_policy (given value) source = coerce_value source value
coerce_policy (made policy) source = some_policy (placed source policy)
