-- ===== src/RestoreOwnership/Policy.antt =====
-- `RestoreOwnershipPolicy` and `_coerce_policy`.
use docker_volume_backup.Base.{
  String, Bool, true, false, ◌&&◌, Option, none, some, [], ◌∷◌, Dict, present, pos, or_else, str_eq,
  ◌==◌, if◌then◌else◌,
}
use docker_volume_backup.Json.{Value, null, num, text, arr, obj, Fields, empty, field, lookup}
use docker_volume_backup.RestoreOwnership.Defs.{
  Checked, good, refused, ◌>>=◌, validate_key, uid_gid_text, invalid_schema, invalid_mode,
  invalid_mappings, invalid_confirmation, type_error, confirmation_declined, confirmation_required,
}

pub data Mode : Type 0 where
  preserve map_ids : Mode

pub data Confirmation : Type 0 where
  confirmed declined : Confirmation

-- A policy after `__post_init__`: its `schema_version` is 1.
pub record RestoreOwnershipPolicy : Type 0 where
  pub mode : Mode
  pub mappings : Dict String
  pub confirmation : Option Confirmation
  pub source : Option String
  pub default_mapping : Option String

-- The arguments of the constructor.
pub record PolicyArguments : Type 0 where
  pub mode : Value
  pub mappings : Value
  pub schema_version : Value
  pub confirmation : Value
  pub source : Option String
  pub default_mapping : Option Value

unfoldable pub check_schema : Value → Checked (Unit {0})
check_schema (num (pos n)) = if n == 1 then good tt else refused invalid_schema
check_schema _ = refused invalid_schema

unfoldable pub check_mode : Value → Checked Mode
check_mode (text s) =
    if str_eq s "preserve"
    then good preserve
    else if str_eq s "map"
    then good map_ids
    else refused invalid_mode
check_mode (arr _) = refused type_error
check_mode (obj _) = refused type_error
check_mode _ = refused invalid_mode

unfoldable pub check_confirmation : Value → Checked (Option Confirmation)
check_confirmation null = good none
check_confirmation (text s) =
    if str_eq s "confirmed"
    then good (some confirmed)
    else if str_eq s "declined"
    then good (some declined)
    else refused invalid_confirmation
check_confirmation (arr _) = refused type_error
check_confirmation (obj _) = refused type_error
check_confirmation _ = refused invalid_confirmation

unfoldable pub check_object : Value → Checked Fields
check_object (obj d) = good d
check_object _ = refused invalid_mappings

-- `{validate_stable_volume_key(key): _uid_gid_text(value) for …}`, of an object whose keys differ.
unfoldable pub check_mappings : Fields → Checked (Dict String)
unfolding validate_key uid_gid_text
check_mappings empty = good []
check_mappings (field key value d) = validate_key key >>= λ k.
    uid_gid_text value >>= λ ids. check_mappings d >>= λ rest. good ((k, ids) ∷ rest)

unfoldable pub check_default : Option Value → Checked (Option String)
unfolding uid_gid_text
check_default none = good none
check_default (some value) = uid_gid_text value >>= λ ids. good (some ids)

-- Whether there are mappings that the mode `preserve` does not allow.
abbrev pub has_mappings : Dict String → Option String → Bool
has_mappings [] default = present default
has_mappings (_ ∷ _) default = true

abbrev pub is_preserve : Mode → Bool
is_preserve preserve = true
is_preserve map_ids = false

-- `RestoreOwnershipPolicy(…)` with its `__post_init__`
unfoldable pub make_policy : PolicyArguments → Checked RestoreOwnershipPolicy
unfolding check_schema check_mode check_object check_confirmation check_mappings check_default
make_policy a = check_schema a.schema_version >>= λ _. check_mode a.mode >>= λ mode.
    check_object a.mappings >>= λ d. check_confirmation a.confirmation >>= λ confirmation.
    check_mappings d >>= λ mappings. check_default a.default_mapping >>= λ default.
    if is_preserve mode && has_mappings mappings default
    then refused invalid_mappings
    else good (record {
      mode = mode;
      mappings = mappings;
      confirmation = confirmation;
      source = a.source;
      default_mapping = default;
    })

-- `value.get(key, default)`
abbrev pub get_or : String → Value → Fields → Value
unfolding lookup
get_or key default d = or_else (lookup key d) default

-- The arguments that `from_dict` finds in an object.
abbrev pub dict_arguments : Fields → Value → PolicyArguments
unfolding lookup
dict_arguments d mappings = record {
  mode = get_or "mode" (text "preserve") d;
  mappings = mappings;
  schema_version = get_or "schema_version" (get_or "version" (num (pos 1)) d) d;
  confirmation = get_or "confirmation" null d;
  source = none;
  default_mapping = none;
}

-- `if mappings is None: raise …`
abbrev pub not_none : Value → Checked Value
not_none null = refused invalid_mappings
not_none v = good v

-- `from_dict` of an object
unfoldable pub from_dict : Fields → Checked RestoreOwnershipPolicy
unfolding make_policy lookup
from_dict d = not_none (get_or "mappings" (obj empty) d) >>= λ mappings.
    make_policy (dict_arguments d mappings)

abbrev pub mode_text : Mode → Value
mode_text preserve = text "preserve"
mode_text map_ids = text "map"

abbrev pub confirmation_text : Confirmation → Value
confirmation_text confirmed = text "confirmed"
confirmation_text declined = text "declined"

abbrev pub mapping_fields : Dict String → Fields
mapping_fields [] = empty
mapping_fields ((key, ids) ∷ d) = field key (text ids) (mapping_fields d)

-- `to_dict`
unfoldable pub to_dict : RestoreOwnershipPolicy → Fields
to_dict policy =
    let end = elim policy.confirmation as (λ _. Fields) [
      | none ↦ empty
      | some c ↦ field "confirmation" (confirmation_text c) empty
    ] in
    field "schema_version" (num (pos 1)) (
      field "mode" (mode_text policy.mode)
        (field "mappings" (obj (mapping_fields policy.mappings)) end))

-- `require_confirmation`
unfoldable pub require_confirmation : RestoreOwnershipPolicy → Checked RestoreOwnershipPolicy
require_confirmation policy = elim policy.confirmation [
  | some declined ↦ refused confirmation_declined
  | some confirmed ↦ good policy
  | none ↦ if is_preserve policy.mode then good policy else refused confirmation_required
]
