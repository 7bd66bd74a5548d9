-- ===== src/RestoreOwnership/Validity.antt =====
-- What the constructor of policies leaves true of them.
use docker_volume_backup.Base.{
  String, Bool, true, false, ◌&&◌, Option, none, some, [], ◌∷◌, Dict, ◌≡◌, refl, sym, ap, ◌∙◌,
  subst, arith, codes, split_on, if◌then◌else◌,
}
use docker_volume_backup.Json.{Value, text, obj, Fields, empty, field}
use docker_volume_backup.RestoreOwnership.{
  Error, invalid_volume_key, invalid_mappings, is_key_words, good, refused, parse_uid_gid,
  print_uid_gid, uid_gid_text, validate_key, RestoreOwnershipPolicy, PolicyArguments, make_policy,
  check_schema, check_mode, check_object, check_confirmation, check_mappings, check_default,
  has_mappings, is_preserve, mapping_fields, opt_value,
}
use docker_volume_backup.RestoreOwnership.Identity.{bind_good, uid_gid_text-print}

pub good-injective {ℓ} : {A : Type ℓ} (a b : A) → good a ≡ good b → a ≡ b
good-injective a b h = ap (λ r. elim r [ good x ↦ x | refused _ ↦ a ]) h

pub uid_gid_text_again :
    (v : Value) (s : String) → uid_gid_text v ≡ good s → uid_gid_text (text s) ≡ good s
unfolding uid_gid_text
uid_gid_text_again v s h =
    let (ids, _, e) = bind_good (parse_uid_gid v) (λ ids. good (print_uid_gid ids)) s h in
    subst (λ t. uid_gid_text (text t) ≡ good t) (good-injective (print_uid_gid ids) s e)
      (uid_gid_text-print ids)

pub tested_good {ℓ} :
    {A : Type ℓ} (b : Bool) (e : Error) (x y : A)
    → (if b then good x else refused e) ≡ good y
    → x ≡ y
tested_good true e x y h = good-injective x y h
tested_good false e x y h = ground arith

pub validate_key_is : (key k : String) → validate_key key ≡ good k → k ≡ key
unfolding validate_key
validate_key_is key k h =
    sym (tested_good (is_key_words (split_on b':' (codes key))) invalid_volume_key key k h)

pub validate_key_again : (key k : String) → validate_key key ≡ good k → validate_key k ≡ good k
validate_key_again key k h = subst (λ j. validate_key j ≡ good k) (sym (validate_key_is key k h)) h

check_field :
    (k ids : String) (rest : Dict String)
    → validate_key k ≡ good k
    → uid_gid_text (text ids) ≡ good ids
    → check_mappings (mapping_fields rest) ≡ good rest
    → check_mappings (field k (text ids) (mapping_fields rest)) ≡ good ((k, ids) ∷ rest)
unfolding check_mappings
check_field k ids rest hk hi hr =
    rw (hk, check_mappings) (rw (hi, check_mappings) (rw (hr, check_mappings) refl))

-- What a policy's mappings are checked to, they are checked to again.
check_mappings_again :
    (d : Fields) (mappings : Dict String)
    → check_mappings d ≡ good mappings
    → check_mappings (mapping_fields mappings) ≡ good mappings
unfolding check_mappings
check_mappings_again empty mappings h =
    subst (λ m. check_mappings (mapping_fields m) ≡ good m) (good-injective [] mappings h) refl
check_mappings_again (field key v d) mappings h =
    let (k, hk, h₁) = bind_good (validate_key key) _ mappings h in
    let (ids, hv, h₂) = bind_good (uid_gid_text v) _ mappings h₁ in
    let (rest, hr, h₃) = bind_good (check_mappings d) _ mappings h₂ in
    subst (λ m. check_mappings (mapping_fields m) ≡ good m)
      (good-injective ((k, ids) ∷ rest) mappings h₃)
      (check_field k ids rest (validate_key_again key k hk) (uid_gid_text_again v ids hv)
        (check_mappings_again d rest hr))

check_default_again :
    (v : Option Value) (default : Option String)
    → check_default v ≡ good default
    → check_default (opt_value default) ≡ good default
unfolding check_default
check_default_again none default h =
    subst (λ m. check_default (opt_value m) ≡ good m) (good-injective none default h) refl
check_default_again (some v) default h =
    let (ids, hv, h₁) = bind_good (uid_gid_text v) (λ ids. good (some ids)) default h in
    subst (λ m. check_default (opt_value m) ≡ good m) (good-injective (some ids) default h₁)
      (rw (uid_gid_text_again v ids hv) refl)

-- What the constructor leaves true of a policy.
pub record IsValid (p : RestoreOwnershipPolicy) : Type 0 where
  pub mappings_checked : check_mappings (mapping_fields p.mappings) ≡ good p.mappings
  pub default_checked : check_default (opt_value p.default_mapping) ≡ good p.default_mapping
  pub allowed : (is_preserve p.mode && has_mappings p.mappings p.default_mapping) ≡ false

refused_if :
    (b : Bool) (e : Error) (x p : RestoreOwnershipPolicy)
    → (if b then refused e else good x) ≡ good p
    → (b ≡ false) × (x ≡ p)
refused_if true e x p h = ground arith
refused_if false e x p h = (refl, good-injective x p h)

pub make_policy-IsValid :
    (a : PolicyArguments) (p : RestoreOwnershipPolicy) → make_policy a ≡ good p → IsValid p
unfolding make_policy
make_policy-IsValid a p h =
    let (_, _, h₁) = bind_good (check_schema a.schema_version) _ p h in
    let (mode, _, h₂) = bind_good (check_mode a.mode) _ p h₁ in
    let (d, _, h₃) = bind_good (check_object a.mappings) _ p h₂ in
    let (c, _, h₄) = bind_good (check_confirmation a.confirmation) _ p h₃ in
    let (mappings, hm, h₅) = bind_good (check_mappings d) _ p h₄ in
    let (default, hd, h₆) = bind_good (check_default a.default_mapping) _ p h₅ in
    let (ok, same) =
      refused_if (is_preserve mode && has_mappings mappings default) invalid_mappings
        (record {
          mode = mode;
          mappings = mappings;
          confirmation = c;
          source = a.source;
          default_mapping = default;
        })
        p h₆ in
    subst (λ q. IsValid q) same
      (record {
        mappings_checked = check_mappings_again d mappings hm;
        default_checked = check_default_again a.default_mapping default hd;
        allowed = ok;
      })

-- The checks that the fields of a policy passed.
pub make_policy-checks :
    (a : PolicyArguments) (d : Fields) (p : RestoreOwnershipPolicy)
    → make_policy (record a { mappings = obj d }) ≡ good p
    → (check_mode a.mode ≡ good p.mode) × (check_mappings d ≡ good p.mappings)
unfolding make_policy
make_policy-checks a d p h =
    let (_, _, h₁) = bind_good (check_schema a.schema_version) _ p h in
    let (mode, hmode, h₂) = bind_good (check_mode a.mode) _ p h₁ in
    let (_, _, h₄) = bind_good (check_confirmation a.confirmation) _ p h₂ in
    let (mappings, hm, h₅) = bind_good (check_mappings d) _ p h₄ in
    let (default, hd, h₆) = bind_good (check_default a.default_mapping) _ p h₅ in
    let (_, same) =
      refused_if (is_preserve mode && has_mappings mappings default) invalid_mappings _ p h₆ in
    (hmode ∙ ap (λ q. good q.mode) same, hm ∙ ap (λ q. good q.mappings) same)
