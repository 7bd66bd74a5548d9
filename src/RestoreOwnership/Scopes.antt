-- ===== src/RestoreOwnership/Scopes.antt =====
-- `RestoreVolumeScope`, `_items`, `_identity_text`, `_coerce_scope` and `validate_volume_scopes`. The
-- paths and sources of scopes are texts or `None`.
use docker_volume_backup.Base.{
  joined_to, String, Bool, true, false, not, ◌&&◌, ◌||◌, Option, none, some, List, [], ◌∷◌, ◌++◌,
  Dict, get, put, values, pos, or_else, any_of, str_eq, print_decimal, if◌then◌else◌,
}
use docker_volume_backup.Json.{
  Value, null, flag, num, text, arr, obj, Items, nil, cons, Fields, lookup, truthy,
}
use docker_volume_backup.RestoreOwnership.Defs.{
  Checked, good, refused, ◌>>=◌, validate_key, uid_gid_text, stable_compose_volume_key, type_error,
  invalid_uid_gid, invalid_service_identity, invalid_volume_scope, invalid_volume_key,
  invalid_volume_identity, volume_key_collision, unknown_volume_key,
  ambiguous_shared_volume_identity,
}
use docker_volume_backup.RestoreOwnership.Policy.{RestoreOwnershipPolicy, get_or}

pub record RestoreVolumeScope : Type 0 where
  pub volume_key : String
  pub target_path : String
  pub source : Option String
  pub service_identities : List String

-- `_items`
unfoldable pub items_of : Value → Checked Items
items_of (arr items) = good items
items_of (text s) = good (cons (text s) nil)
items_of (obj d) = good (cons (obj d) nil)
items_of _ = refused type_error

-- `f"{value}"` where it can be part of an identity; no other value prints as digits.
unfoldable pub printed : Value → Checked String
printed (num (pos n)) = good (print_decimal n "")
printed (text s) = good s
printed _ = refused invalid_uid_gid

-- `f"{uid}:{gid}"`, as an identity
unfoldable pub pair_text : Value → Value → Checked String
unfolding printed uid_gid_text
pair_text uid gid =
    printed uid >>= λ u. printed gid >>= λ g. uid_gid_text (text (joined_to u (joined_to ":" g)))

-- `_identity_text`
unfoldable pub identity_text : Value → Checked String
unfolding lookup uid_gid_text pair_text
identity_text (obj d) = elim (lookup "identity" d) [
  | some value ↦ uid_gid_text value
  | none ↦ ids (lookup "uid" d) (lookup "gid" d)
]
  where
    ids : Option Value → Option Value → Checked String
    ids (some uid) (some gid) = pair_text uid gid
    ids _ _ = refused invalid_service_identity
identity_text (arr (cons uid (cons gid nil))) = pair_text uid gid
identity_text value = uid_gid_text value

unfoldable pub identity_texts : Items → Checked (List String)
unfolding identity_text
identity_texts nil = good []
identity_texts (cons value items) =
    identity_text value >>= λ s. identity_texts items >>= λ rest. good (s ∷ rest)

-- `RestoreVolumeScope(…)` with its `__post_init__`
unfoldable pub make_scope : String → String → Option String → Value → Checked RestoreVolumeScope
unfolding validate_key items_of identity_texts
make_scope key target_path source identities = validate_key key >>= λ k.
    items_of identities >>= λ items. identity_texts items >>= λ ids. good (record {
      volume_key = k;
      target_path = target_path;
      source = source;
      service_identities = ids;
    })

-- The constructor at a key that may be no text.
unfoldable pub make_scope_of :
    Option String → String → Option String → Value → Checked RestoreVolumeScope
unfolding make_scope
make_scope_of none target_path source identities = refused invalid_volume_key
make_scope_of (some key) target_path source identities =
    make_scope key target_path source identities

pub data ScopeInput : Type 0 where
  made_scope : RestoreVolumeScope → ScopeInput
  given_scope : Value → ScopeInput

abbrev opt_text_of : Value → Option String
opt_text_of (text s) = some s
opt_text_of _ = none

-- The key of an object that describes a scope, whose labels are an object or `None`; `none` is a key
-- that is no text, which the scope refuses when it is made.
unfoldable pub scope_key : Fields → Checked (Option String)
unfolding stable_compose_volume_key lookup truthy
scope_key d = keyed (get_or "volume_key" (get_or "stable_key" null d) d)
  where
    is_none : Value → Bool
    is_none null = true
    is_none _ = false

    labels_of : Value → Option Fields
    labels_of (obj labels) = some labels
    labels_of _ = none

    keyed : Value → Checked (Option String)
    keyed (text key) = good (some key)
    keyed null =
        if is_none (get_or "compose_project" null d) && is_none (get_or "labels" null d)
        then refused invalid_volume_key
        else stable_compose_volume_key (lookup "compose_project" d) (lookup "compose_volume" d)
            (labels_of (get_or "labels" null d)) (not (is_none (get_or "host_path" null d)))
            (truthy (get_or "anonymous" null d)) (truthy (get_or "generated" null d))
          >>= λ key. good (some key)
    keyed _ = good none

abbrev is_false : Value → Bool
is_false (flag false) = true
is_false _ = false

-- `_coerce_scope` of an object
unfoldable pub scope_of_object : Fields → Checked RestoreVolumeScope
unfolding scope_key make_scope_of lookup truthy
scope_of_object d = scope_key d >>= λ key.
    if truthy (get_or "anonymous" null d)
      || (truthy (get_or "generated" null d) || is_false (get_or "named" null d))
    then refused invalid_volume_identity
    else make_scope_of key
        (or_else (opt_text_of (get_or "target_path" (get_or "destination" (text "") d) d)) "")
        (opt_text_of (get_or "source" (get_or "host_path" null d) d))
        (get_or "service_identities" (get_or "services" (arr nil) d) d)

-- `_coerce_scope`
unfoldable pub coerce_scope : ScopeInput → Checked RestoreVolumeScope
unfolding scope_of_object make_scope
coerce_scope (made_scope scope) = good scope
coerce_scope (given_scope (text key)) = make_scope key "" none (arr nil)
coerce_scope (given_scope (obj d)) = scope_of_object d
coerce_scope (given_scope _) = refused invalid_volume_scope

-- Two texts that are there and differ.
abbrev pub differ : String → String → Bool
differ s t = not (str_eq s "") && (not (str_eq t "") && not (str_eq s t))

abbrev pub collides : RestoreVolumeScope → RestoreVolumeScope → Bool
collides previous current =
    differ (or_else previous.source "") (or_else current.source "")
    || differ previous.target_path current.target_path

abbrev pub text_or_other : String → String → String
text_or_other s t = if str_eq s "" then t else s

-- `previous or current`, of sources
abbrev pub source_or : Option String → Option String → Option String
source_or none t = t
source_or (some s) t = if str_eq s "" then t else some s

abbrev pub merged : RestoreVolumeScope → RestoreVolumeScope → RestoreVolumeScope
merged previous current = record {
  volume_key = current.volume_key;
  target_path = text_or_other previous.target_path current.target_path;
  source = source_or previous.source current.source;
  service_identities = previous.service_identities ++ current.service_identities;
}

-- The loop of `validate_volume_scopes`, with the scopes by their keys.
unfoldable pub collect_scopes :
    List ScopeInput → Dict RestoreVolumeScope → Checked (Dict RestoreVolumeScope)
unfolding coerce_scope
collect_scopes [] by_key = good by_key
collect_scopes (raw ∷ raws) by_key = coerce_scope raw >>= λ current.
    elim (get current.volume_key by_key) [
      | none ↦ collect_scopes raws (put current.volume_key current by_key)
      | some previous ↦
          if collides previous current
          then refused volume_key_collision
          else collect_scopes raws (put current.volume_key (merged previous current) by_key)
    ]

-- `len(scope.effective_identities) > 1`
abbrev pub is_ambiguous : List String → Bool
is_ambiguous [] = false
is_ambiguous (s ∷ ss) = any_of (λ t. not (str_eq s t)) ss

abbrev pub is_known : List RestoreVolumeScope → String → Bool
is_known scopes key = any_of (λ scope. str_eq scope.volume_key key) scopes

abbrev pub all_known : List RestoreVolumeScope → Dict String → Bool
all_known scopes [] = true
all_known scopes ((key, _) ∷ d) = if is_known scopes key then all_known scopes d else false

-- The checks at the end of `validate_volume_scopes`.
unfoldable pub check_scopes :
    List RestoreVolumeScope → Option RestoreOwnershipPolicy → Checked (List RestoreVolumeScope)
check_scopes scopes policy =
    let known = elim policy as (λ _. Bool) [ none ↦ true | some p ↦ all_known scopes p.mappings ] in
    if not known
    then refused unknown_volume_key
    else if any_of (λ scope. is_ambiguous scope.service_identities) scopes
    then refused ambiguous_shared_volume_identity
    else good scopes

-- `validate_volume_scopes`
unfoldable pub validate_volume_scopes :
    List ScopeInput → Option RestoreOwnershipPolicy → Checked (List RestoreVolumeScope)
unfolding collect_scopes check_scopes
validate_volume_scopes raws policy =
    collect_scopes raws [] >>= λ by_key. check_scopes (values by_key) policy
