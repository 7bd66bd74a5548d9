-- ===== src/RestoreOwnership/Resolve.antt =====
-- `_policy_signature` and `resolve_restore_ownership`.
use docker_volume_backup.Base.{
  String, Bool, true, false, not, ◌&&◌, ◌||◌, Option, none, some, List, [], ◌∷◌, Dict, get, map,
  length, ◌==◌, all_of, str_eq, present, if◌then◌else◌,
}
use docker_volume_backup.Json.{text, obj, opt_text, Fields, empty, field}
use docker_volume_backup.RestoreOwnership.Defs.{Checked, good, refused, ◌>>=◌, policy_conflict}
use docker_volume_backup.RestoreOwnership.Policy.{
  Mode, preserve, RestoreOwnershipPolicy, make_policy, require_confirmation, is_preserve,
}
use docker_volume_backup.RestoreOwnership.Layers.{
  mapping_text, LayerInput, coerce_policy, arguments_of,
}
use docker_volume_backup.RestoreOwnership.Scopes.{
  RestoreVolumeScope, ScopeInput, made_scope, validate_volume_scopes,
}

abbrev pub same_mode : Mode → Mode → Bool
same_mode a b = if is_preserve a then is_preserve b else not (is_preserve b)

abbrev pub same_text : Option String → Option String → Bool
same_text none none = true
same_text none (some _) = false
same_text (some s) none = false
same_text (some s) (some t) = str_eq s t

-- Whether two dictionaries have the same sorted items.
abbrev pub same_items : Dict String → Dict String → Bool
same_items a b = length a == length b && all_of (λ (k, v). same_text (get k b) (some v)) a

-- `_policy_signature`: of the keys, or where there are none of the whole policy
pub data Signature : Type 0 where
  by_key : Mode → List (Option String) → Signature
  whole : Mode → Dict String → Option String → Signature

unfoldable pub mapping_texts : RestoreOwnershipPolicy → List String → Checked (List (Option String))
unfolding mapping_text
mapping_texts policy [] = good []
mapping_texts policy (key ∷ keys) =
    mapping_text policy key >>= λ r. mapping_texts policy keys >>= λ rest. good (r ∷ rest)

unfoldable pub policy_signature : RestoreOwnershipPolicy → List String → Checked Signature
unfolding mapping_texts
policy_signature policy [] = good (whole policy.mode policy.mappings policy.default_mapping)
policy_signature policy (key ∷ keys) =
    mapping_texts policy (key ∷ keys) >>= λ texts. good (by_key policy.mode texts)

abbrev pub same_texts : List (Option String) → List (Option String) → Bool
same_texts [] [] = true
same_texts [] (_ ∷ _) = false
same_texts (s ∷ ss) [] = false
same_texts (s ∷ ss) (t ∷ ts) = if same_text s t then same_texts ss ts else false

unfoldable pub same_signature : Signature → Signature → Bool
same_signature (by_key m ss) (by_key n ts) = same_mode m n && same_texts ss ts
same_signature (whole m a d) (whole n b e) = same_mode m n && (same_items a b && same_text d e)
same_signature _ _ = false

-- The policies of the layers that have one, by precedence.
abbrev pub candidates_of : List (Option RestoreOwnershipPolicy) → List RestoreOwnershipPolicy
candidates_of [] = []
candidates_of (none ∷ layers) = candidates_of layers
candidates_of (some policy ∷ layers) = policy ∷ candidates_of layers

-- `for policy in candidates: validate_volume_scopes(scopes, policy)`
unfoldable pub validate_candidates :
    List RestoreVolumeScope → List RestoreOwnershipPolicy → Checked (Unit {0})
unfolding validate_volume_scopes
validate_candidates scopes [] = good tt
validate_candidates scopes (policy ∷ policies) =
    validate_volume_scopes (map (λ scope. made_scope scope) scopes) (some policy) >>= λ _.
    validate_candidates scopes policies

-- The confirmation that is asked of the request's policy.
unfoldable pub confirm_request : Option RestoreOwnershipPolicy → Checked (Unit {0})
unfolding require_confirmation
confirm_request none = good tt
confirm_request (some policy) =
    if present policy.confirmation || not (is_preserve policy.mode)
    then (require_confirmation policy >>= λ _. good tt)
    else good tt

-- Whether all policies have the signature.
unfoldable pub agree : Signature → List String → List RestoreOwnershipPolicy → Checked (Unit {0})
unfolding policy_signature same_signature
agree signature keys [] = good tt
agree signature keys (policy ∷ policies) = policy_signature policy keys >>= λ other.
    if same_signature other signature
    then agree signature keys policies
    else refused policy_conflict

-- `{key: selected.mapping_text(key) for key in keys}`, as the constructor is given it
unfoldable pub keyed_mappings : RestoreOwnershipPolicy → List String → Checked Fields
unfolding mapping_text
keyed_mappings policy [] = good empty
keyed_mappings policy (key ∷ keys) = mapping_text policy key >>= λ r.
    keyed_mappings policy keys >>= λ rest. good (field key (opt_text r) rest)

-- The default mapping spelled out for each key.
unfoldable pub expand_default :
    RestoreOwnershipPolicy → List String → Checked RestoreOwnershipPolicy
unfolding keyed_mappings make_policy
expand_default selected [] = good selected
expand_default selected (key ∷ keys) =
    if present selected.default_mapping
    then (keyed_mappings selected (key ∷ keys) >>= λ mappings.
        make_policy (record (arguments_of selected) {
          mode = text "map";
          mappings = obj mappings;
          default_mapping = none;
        }))
    else good selected

abbrev pub default_policy : RestoreOwnershipPolicy
default_policy = record {
  mode = preserve;
  mappings = [];
  confirmation = none;
  source = none;
  default_mapping = none;
}

-- The end of `resolve_restore_ownership`: all candidates agree, and the first is selected.
unfoldable pub select : List String → List RestoreOwnershipPolicy → Checked RestoreOwnershipPolicy
unfolding policy_signature agree expand_default
select keys [] = good default_policy
select keys (selected ∷ policies) = policy_signature selected keys >>= λ signature.
    agree signature keys policies >>= λ _. expand_default selected keys

-- `resolve_restore_ownership`; `none` stands for no scopes given.
unfoldable pub resolve_restore_ownership :
    LayerInput → LayerInput → LayerInput → Option (List ScopeInput) → Checked RestoreOwnershipPolicy
unfolding validate_volume_scopes coerce_policy validate_candidates confirm_request select
resolve_restore_ownership request target_defaults legacy_chown volume_scopes =
    scopes_of volume_scopes >>= λ scopes. coerce_policy request "request" >>= λ request_policy.
    coerce_policy target_defaults "target defaults" >>= λ target_policy.
    coerce_policy legacy_chown "RESTORE_CHOWN" >>= λ legacy_policy.
    let candidates = candidates_of (request_policy ∷ target_policy ∷ legacy_policy ∷ []) in
    validate_candidates scopes candidates >>= λ _. confirm_request request_policy >>= λ _.
    select (map (λ scope. scope.volume_key) scopes) candidates
  where
    scopes_of : Option (List ScopeInput) → Checked (List RestoreVolumeScope)
    scopes_of none = good []
    scopes_of (some raws) = validate_volume_scopes raws none
