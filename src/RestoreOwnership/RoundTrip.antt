-- ===== src/RestoreOwnership/RoundTrip.antt =====
-- That policies are made again from their fields, and read back from what is written of them.
use docker_volume_backup.Base.{String, Option, none, some, ◌≡◌, refl, arith, str_eq, pos}
use docker_volume_backup.Json.{Value, null, num, obj, lookup}
use docker_volume_backup.RestoreOwnership.{
  good, RestoreOwnershipPolicy, PolicyArguments, make_policy, check_mode, check_confirmation,
  check_default, mapping_fields, from_dict, to_dict, get_or, mode_text, confirmation_text,
  opt_value, Mode, Confirmation, preserve, map_ids, confirmed, declined,
}
use docker_volume_backup.RestoreOwnership.Validity.{IsValid, make_policy-IsValid}

check_mode-mode_text : (m : Mode) → check_mode (mode_text m) ≡ good m
unfolding check_mode str_eq
check_mode-mode_text preserve = refl
check_mode-mode_text map_ids = refl

abbrev pub confirmation_value : Option Confirmation → Value
confirmation_value none = null
confirmation_value (some c) = confirmation_text c

check_confirmation-value :
    (c : Option Confirmation) → check_confirmation (confirmation_value c) ≡ good c
unfolding check_confirmation str_eq
check_confirmation-value none = refl
check_confirmation-value (some confirmed) = refl
check_confirmation-value (some declined) = refl

-- A valid policy is made again from its fields, with any confirmation and source.
pub make_policy_again :
    (p : RestoreOwnershipPolicy) (c : Option Confirmation) (source : Option String)
    → IsValid p
    → make_policy (record {
      mode = mode_text p.mode;
      mappings = obj (mapping_fields p.mappings);
      schema_version = num (pos 1);
      confirmation = confirmation_value c;
      source = source;
      default_mapping = opt_value p.default_mapping;
    })
      ≡ good (record p { confirmation = c; source = source })
unfolding make_policy
make_policy_again p c source h =
    rw (check_mode-mode_text p.mode, make_policy)
      (rw (check_confirmation-value c, make_policy)
        (rw (h.mappings_checked, make_policy)
          (rw (h.default_checked, make_policy) (rw (h.allowed, make_policy) refl))))

without_default-IsValid :
    (p : RestoreOwnershipPolicy)
    → IsValid p
    → IsValid (record p { source = none; default_mapping = none })
unfolding check_default
without_default-IsValid p h = record {
  mappings_checked = h.mappings_checked;
  default_checked = refl;
  allowed = ground (arith, h.allowed);
}

confirmation-to_dict :
    (p : RestoreOwnershipPolicy) (c : Option Confirmation)
    → get_or "confirmation" null (to_dict (record p { confirmation = c })) ≡ confirmation_value c
unfolding to_dict lookup str_eq
confirmation-to_dict p none = refl
confirmation-to_dict p (some confirmed) = refl
confirmation-to_dict p (some declined) = refl

from_dict-to_dict_valid :
    (p : RestoreOwnershipPolicy)
    → IsValid p
    → from_dict (to_dict p) ≡ good (record p { source = none; default_mapping = none })
unfolding from_dict to_dict lookup str_eq
from_dict-to_dict_valid p h = rw (confirmation-to_dict p p.confirmation) (
    make_policy_again (record p { source = none; default_mapping = none }) p.confirmation none
      (without_default-IsValid p h))

-- A policy that the constructor makes is read back by `from_dict` from its own `to_dict`: equal in its
-- mode, its mappings in their order and its confirmation, while `source` and `default_mapping`, which
-- the comparison of policies leaves out, are `None`.
pub from_dict-to_dict :
    (a : PolicyArguments) (p : RestoreOwnershipPolicy)
    → make_policy a ≡ good p
    → from_dict (to_dict p) ≡ good (record p { source = none; default_mapping = none })
from_dict-to_dict a p h = from_dict-to_dict_valid p (make_policy-IsValid a p h)
