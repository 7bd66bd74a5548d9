-- ===== src/Scheduler/Cron.antt =====
-- Cron expressions: `_parse_cron_field`, `_parse_cron_expression` and the functions that match a
-- time. A set of numbers is a list, a text its code points; `none` is the `ValueError`.
use docker_volume_backup.Base.{
  ℕ, zero, suc, ◌+◌, ◌-◌, ◌%◌, ◌==◌, leb, Bool, true, false, not, ◌&&◌, ◌||◌, Option, none, some,
  List, [], ◌∷◌, ◌++◌, map, String, ℤ, pos, leb_ℤ, ltb_ℤ, pos_part, codes, codes_eq, count, before,
  after, split_on, words, has, strip, parse_int, all_of, ◌>>=◌, if◌then◌else◌,
}

-- `range(lo, hi + 1, step)` for a positive step, of at most `fuel` numbers.
unfoldable pub range_from : ℕ → ℕ → ℕ → ℕ → List ℕ
range_from zero lo hi step = []
range_from (suc fuel) lo hi step =
    let rest = range_from fuel (lo + step) hi step in if leb lo hi then lo ∷ rest else []

abbrev pub Range : Type 0
Range = ℤ × ℤ × ℤ

abbrev with_low : ℤ → Option ℤ → Option ℤ → Option Range
with_low step none hi = none
with_low step (some lo) none = none
with_low step (some lo) (some hi) = some (lo, hi, step)

-- The bounds of a part without its step; `stepped` says whether it had one.
bounds : List ℕ → Bool → ℤ → ℕ → ℕ → Option Range
bounds base stepped step min_val max_val =
    if codes_eq base (b'*' ∷ [])
    then some (pos min_val, pos max_val, step)
    else if count b'-' base == 1
    then with_low step (parse_int (before b'-' base)) (parse_int (after b'-' base))
    else with_low step (parse_int base) (if stepped then some (pos max_val) else parse_int base)

abbrev positive_bounds : List ℕ → ℕ → ℕ → Option ℤ → Option Range
unfolding bounds
positive_bounds base min_val max_val none = none
positive_bounds base min_val max_val (some step) =
    if leb_ℤ step (pos 0) then none else bounds base true step min_val max_val

-- The low and high end and the step of one part.
unfoldable pub part_range : List ℕ → ℕ → ℕ → Option Range
unfolding bounds strip parse_int
part_range raw_part min_val max_val =
    let part = strip raw_part in
    if leb 2 (count b'/' part) || codes_eq part []
    then none
    else if count b'/' part == 1
    then positive_bounds (before b'/' part) min_val max_val (parse_int (after b'/' part))
    else bounds part false (pos 1) min_val max_val

-- The values of one part.
unfoldable pub part_values : ℕ → ℕ → Option Range → Option (List ℕ)
unfolding range_from
part_values min_val max_val none = none
part_values min_val max_val (some (lo, hi, step)) =
    if ltb_ℤ lo (pos min_val) || (ltb_ℤ (pos max_val) hi || ltb_ℤ hi lo)
    then none
    else some
        (range_from (pos_part hi + 1 - pos_part lo) (pos_part lo) (pos_part hi) (pos_part step))

abbrev pub both : Option (List ℕ) → Option (List ℕ) → Option (List ℕ)
both none ys = none
both (some xs) none = none
both (some xs) (some ys) = some (xs ++ ys)

unfoldable pub parse_parts : ℕ → ℕ → List (List ℕ) → Option (List ℕ)
unfolding part_values part_range
parse_parts min_val max_val [] = some []
parse_parts min_val max_val (part ∷ parts) =
    both (part_values min_val max_val (part_range part min_val max_val))
      (parse_parts min_val max_val parts)

abbrev not_empty : Option (List ℕ) → Option (List ℕ)
not_empty (some []) = none
not_empty o = o

-- `_parse_cron_field`
unfoldable pub parse_cron_field : List ℕ → ℕ → ℕ → Option (List ℕ)
unfolding parse_parts split_on
parse_cron_field expr min_val max_val = not_empty (parse_parts min_val max_val (split_on b',' expr))

pub record CronFields : Type 0 where
  pub minute : List ℕ
  pub hour : List ℕ
  pub dom : List ℕ
  pub month : List ℕ
  pub cron_dow : List ℕ

-- `_parse_cron_expression`
unfoldable pub parse_cron_expression : String → Option CronFields
unfolding parse_cron_field words
parse_cron_expression expr = elim (words (codes expr)) [
  | m ∷ h ∷ d ∷ mo ∷ w ∷ [] ↦ do
    minute ← parse_cron_field m 0 59
    hour ← parse_cron_field h 0 23
    dom ← parse_cron_field d 1 31
    month ← parse_cron_field mo 1 12
    days ← parse_cron_field w 0 7
    some (record {
      minute = minute;
      hour = hour;
      dom = dom;
      month = month;
      cron_dow = map (λ day. day % 7) days;
    })
  | _ ↦ none
]

-- A local time, cut to the minute; `wall` counts the minutes of the local clock, and Monday is the
-- weekday 0.
pub record LocalTime : Type 0 where
  pub wall : ℕ
  pub minute : ℕ
  pub hour : ℕ
  pub day : ℕ
  pub month : ℕ
  pub weekday : ℕ

abbrev pub numbers : ℕ → ℕ → List ℕ
numbers zero lo = []
numbers (suc n) lo = lo ∷ numbers n (suc lo)

-- `xs == ys` for sets
abbrev pub same_set : List ℕ → List ℕ → Bool
same_set xs ys = all_of (λ x. has x ys) xs && all_of (λ y. has y xs) ys

-- `_cron_day_matches`
unfoldable pub cron_day_matches : CronFields → LocalTime → Bool
cron_day_matches fields dt =
    let dom_matches = has dt.day fields.dom in
    let dow_matches = has ((dt.weekday + 1) % 7) fields.cron_dow in
    let dom_unrestricted = same_set fields.dom (numbers 31 1) in
    let dow_unrestricted = same_set fields.cron_dow (numbers 7 0) in
    if not dom_unrestricted && not dow_unrestricted
    then dom_matches || dow_matches
    else if not dom_unrestricted
    then dom_matches
    else if not dow_unrestricted
    then dow_matches
    else true

-- `_cron_matches_fields`
unfoldable pub cron_matches_fields : CronFields → LocalTime → Bool
unfolding cron_day_matches
cron_matches_fields fields dt =
    has dt.minute fields.minute
    && (has dt.hour fields.hour && (has dt.month fields.month && cron_day_matches fields dt))

-- `cron_matches`
unfoldable pub cron_matches : String → LocalTime → Bool
unfolding parse_cron_expression cron_matches_fields
cron_matches expr dt = elim (parse_cron_expression expr) [
  | none ↦ false
  | some fields ↦ cron_matches_fields fields dt
]
