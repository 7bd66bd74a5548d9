-- ===== src/RestoreOwnership/Defs.antt =====
-- The identities `uid:gid`, the stable keys of volumes, and the errors. Texts longer than the 4300
-- digits that `int` takes are not told apart.
use docker_volume_backup.Base.{
  joined_to, ℕ, ltb, String, Bool, false, ◌&&◌, ◌||◌, Option, none, some, List, [], ◌∷◌, codes,
  codes_eq, split_on, all_of, any_of, is_digit, all_digits, digits_value, print_decimal, before,
  after, length, ◌==◌, leb, if◌then◌else◌,
}
use docker_volume_backup.Json.{Value, text, Fields, lookup}

-- The categories of `RestoreOwnershipValidationError`; `type_error` is Python's `TypeError`.
pub data Error : Type 0 where
  invalid_uid_gid invalid_volume_key invalid_volume_identity invalid_schema invalid_mode : Error
  invalid_mappings invalid_confirmation invalid_policy confirmation_declined : Error
  confirmation_required invalid_service_identity invalid_volume_scope volume_key_collision : Error
  unknown_volume_key ambiguous_shared_volume_identity policy_conflict type_error : Error

-- The texts of the categories.
abbrev pub category_text : Error → String
category_text invalid_uid_gid = "invalid_uid_gid"
category_text invalid_volume_key = "invalid_volume_key"
category_text invalid_volume_identity = "invalid_volume_identity"
category_text invalid_schema = "invalid_schema"
category_text invalid_mode = "invalid_mode"
category_text invalid_mappings = "invalid_mappings"
category_text invalid_confirmation = "invalid_confirmation"
category_text invalid_policy = "invalid_policy"
category_text confirmation_declined = "confirmation_declined"
category_text confirmation_required = "confirmation_required"
category_text invalid_service_identity = "invalid_service_identity"
category_text invalid_volume_scope = "invalid_volume_scope"
category_text volume_key_collision = "volume_key_collision"
category_text unknown_volume_key = "unknown_volume_key"
category_text ambiguous_shared_volume_identity = "ambiguous_shared_volume_identity"
category_text policy_conflict = "policy_conflict"
category_text type_error = "restore_failed"

pub data Checked {ℓ} (A : Type ℓ) : Type ℓ where
  good : A → Checked A
  refused : Error → Checked A

infixl 10 ◌>>=◌
abbrev pub ◌>>=◌ {ℓ κ} : {A : Type ℓ} {B : Type κ} → Checked A → (A → Checked B) → Checked B
good a >>= f = f a
refused e >>= f = refused e

-- Whether `[0-9]+:[0-9]+` matches all of the text.
unfoldable pub is_uid_gid : List ℕ → Bool
is_uid_gid cs =
    let uid = before b':' cs in
    let gid = after b':' cs in
    any_of (λ c. c == b':') cs
    && ((ltb 0 (length uid) && all_digits uid) && (ltb 0 (length gid) && all_digits gid))

-- `parse_uid_gid` of a text
unfoldable pub parse_uid_gid_text : String → Checked (ℕ × ℕ)
unfolding is_uid_gid
parse_uid_gid_text s =
    if is_uid_gid (codes s)
    then good (digits_value 0 (before b':' (codes s)), digits_value 0 (after b':' (codes s)))
    else refused invalid_uid_gid

-- `f"{uid}:{gid}"`
unfoldable pub print_uid_gid : ℕ × ℕ → String
print_uid_gid (uid, gid) = print_decimal uid (String.◌∷◌ ":" (print_decimal gid ""))

-- `parse_uid_gid`
unfoldable pub parse_uid_gid : Value → Checked (ℕ × ℕ)
unfolding parse_uid_gid_text
parse_uid_gid (text s) = parse_uid_gid_text s
parse_uid_gid _ = refused invalid_uid_gid

-- `_uid_gid_text`
unfoldable pub uid_gid_text : Value → Checked String
unfolding parse_uid_gid print_uid_gid
uid_gid_text value = parse_uid_gid value >>= λ ids. good (print_uid_gid ids)

abbrev pub is_letter_or_digit : ℕ → Bool
is_letter_or_digit c = is_digit c || ((leb b'a' c && leb c b'z') || (leb b'A' c && leb c b'Z'))

-- `_PART`
unfoldable pub is_part : List ℕ → Bool
is_part [] = false
is_part (c ∷ cs) =
    is_letter_or_digit c
    && all_of (λ d. is_letter_or_digit d || (d == b'_' || (d == b'.' || d == b'-'))) cs

-- `_KEY`: three words between colons, which no part holds.
unfoldable pub is_key_words : List (List ℕ) → Bool
unfolding is_part
is_key_words (scheme ∷ project ∷ volume ∷ []) =
    codes_eq scheme (codes "compose") && (is_part project && is_part volume)
is_key_words _ = false

-- `validate_stable_volume_key`
unfoldable pub validate_key : String → Checked String
unfolding is_key_words split_on
validate_key key =
    if is_key_words (split_on b':' (codes key)) then good key else refused invalid_volume_key

-- `stable_compose_volume_key`
unfoldable pub stable_compose_volume_key :
    Option Value → Option Value → Option Fields → Bool → Bool → Bool → Checked String
unfolding is_part validate_key lookup
stable_compose_volume_key project volume labels has_host_path anonymous generated =
    let p = elim labels as (λ _. Option Value) [
      | none ↦ project
      | some d ↦ lookup "com.docker.compose.project" d
    ] in
    let v = elim labels as (λ _. Option Value) [
      | none ↦ volume
      | some d ↦ lookup "com.docker.compose.volume" d
    ] in
    if has_host_path || (anonymous || generated) then refused invalid_volume_identity else named p v
  where
    named : Option Value → Option Value → Checked String
    named (some (text p)) (some (text v)) =
        if is_part (codes p) && is_part (codes v)
        then validate_key (joined_to "compose:" (joined_to p (joined_to ":" v)))
        else refused invalid_volume_identity
    named _ _ = refused invalid_volume_identity
