-- ===== src/RestoreOwnership/Examples.antt =====
-- Concrete policies and layers, and the theorems at them.
use docker_volume_backup.Base.{
  String, none, some, List, [], ◌∷◌, ◌≡◌, refl, pos, map, str_eq, print_decimal,
}
use docker_volume_backup.Json.{null, num, text, obj, empty, field, lookup}
use docker_volume_backup.RestoreOwnership.{
  good, refused, policy_conflict, map_ids, confirmed, RestoreOwnershipPolicy, PolicyArguments,
  make_policy, from_dict, to_dict, LayerInput, given, coerce_policy, ScopeInput, given_scope,
  RestoreVolumeScope, validate_volume_scopes, resolve_restore_ownership, candidates_of,
}
use docker_volume_backup.RestoreOwnership.Validity.{IsValid}
use docker_volume_backup.RestoreOwnership.RoundTrip.{from_dict-to_dict}
use docker_volume_backup.RestoreOwnership.Precedence.{FollowedBy, IsConfirmed, resolve_agrees}

abbrev key : String
key = "compose:app:data"

abbrev arguments : PolicyArguments
arguments = record {
  mode = text "map";
  mappings = obj (field key (text "07:8") empty);
  schema_version = num (pos 1);
  confirmation = text "confirmed";
  source = some "request";
  default_mapping = none;
}

abbrev policy : RestoreOwnershipPolicy
policy = record {
  mode = map_ids;
  mappings = (key, "7:8") ∷ [];
  confirmation = some confirmed;
  source = some "request";
  default_mapping = none;
}

policy_made : make_policy arguments ≡ good policy
unfolding make_policy str_eq print_decimal
policy_made = refl

from_dict-to_dict_example :
    from_dict (to_dict policy) ≡ good (record policy { source = none; default_mapping = none })
from_dict-to_dict_example = from_dict-to_dict arguments policy policy_made

abbrev request : LayerInput
request = given (
    obj (
      field "restore_ownership"
        (obj (
          field "mode" (text "map") (
            field "mappings" (obj (field key (text "07:8") empty))
              (field "confirmation" (text "confirmed") empty))))
        empty))

abbrev no_layer : LayerInput
no_layer = given null

abbrev chown : LayerInput
chown = given (text "7:08")

abbrev raws : List ScopeInput
raws = given_scope (text key) ∷ []

abbrev scopes : List RestoreVolumeScope
scopes = record { volume_key = key; target_path = ""; source = none; service_identities = [] } ∷ []

abbrev chown_policy : RestoreOwnershipPolicy
chown_policy = record {
  mode = map_ids;
  mappings = [];
  confirmation = some confirmed;
  source = some "RESTORE_CHOWN";
  default_mapping = some "7:8";
}

scopes_valid : validate_volume_scopes raws none ≡ good scopes
unfolding validate_volume_scopes
scopes_valid = refl

request_read : coerce_policy request "request" ≡ good (some policy)
unfolding coerce_policy str_eq lookup from_dict print_decimal
request_read = refl

target_read : coerce_policy no_layer "target defaults" ≡ good none
unfolding coerce_policy
target_read = refl

chown_read : coerce_policy chown "RESTORE_CHOWN" ≡ good (some chown_policy)
unfolding coerce_policy str_eq print_decimal
chown_read = refl

resolved : resolve_restore_ownership request no_layer chown (some raws) ≡ good policy
unfolding resolve_restore_ownership str_eq from_dict print_decimal
resolved = refl

conflict :
    resolve_restore_ownership request no_layer (given (text "7:9")) (some raws)
    ≡ refused policy_conflict
unfolding resolve_restore_ownership str_eq from_dict print_decimal
conflict = refl

resolve_agrees_example :
    FollowedBy
      (candidates_of (some policy ∷ none ∷ some chown_policy ∷ []))
      policy
      (map (λ scope. scope.volume_key) scopes)
    × IsConfirmed (some policy)
    × IsValid policy
resolve_agrees_example =
    resolve_agrees request no_layer chown raws scopes (some policy) none (some chown_policy) policy
      scopes_valid request_read target_read chown_read resolved
