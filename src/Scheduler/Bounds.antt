-- ===== src/Scheduler/Bounds.antt =====
-- What a cron field's values are.
use docker_volume_backup.Base.{
  has, split_on, ℕ, zero, suc, ◌+◌, ◌-◌, ◌*◌, ◌≤◌, ◌==◌, leb, ltb, true, false, ◌||◌, Option, none,
  some, List, [], ◌∷◌, ◌++◌, ◌≡◌, sym, subst, length, ◌↔◌, arith, pos, ltb_ℤ, pos_part, All,
  All-append, Option-cases, Bool-cases, inl, inr,
}
use docker_volume_backup.Scheduler.Cron.{
  Range, range_from, part_range, part_values, parse_parts, parse_cron_field,
}

-- The number lies between the bounds.
abbrev pub Within : ℕ → ℕ → ℕ → Type 0
Within min_val max_val x = (min_val ≤ x) × (x ≤ max_val)

range-Within :
    (fuel lo hi step min_val max_val : ℕ)
    → min_val ≤ lo
    → hi ≤ max_val
    → All (Within min_val max_val) (range_from fuel lo hi step)
unfolding range_from
range-Within zero lo hi step min_val max_val h k = tt
range-Within (suc fuel) lo hi step min_val max_val h k =
    ground (arith, range-Within fuel (lo + step) hi step min_val max_val)

part-Within :
    (min_val max_val : ℕ) (r : Option Range) (xs : List ℕ)
    → part_values min_val max_val r ≡ some xs
    → All (Within min_val max_val) xs
unfolding part_values
part-Within min_val max_val none xs h = ground arith
part-Within min_val max_val (some (lo, hi, step)) xs h =
    let xs' =
      range_from (pos_part hi + 1 - pos_part lo) (pos_part lo) (pos_part hi) (pos_part step) in
    elim (Bool-cases (ltb_ℤ lo (pos min_val) || (ltb_ℤ (pos max_val) hi || ltb_ℤ hi lo))) [
      | inl out ↦ ground arith
      | inr fits ↦
          let e : some xs' ≡ some xs = ground arith in
          ground (
            arith,
            range-Within (pos_part hi + 1 - pos_part lo) (pos_part lo) (pos_part hi) (pos_part step)
                min_val max_val (ground arith) (ground arith),
          )
    ]

parts-Within :
    (min_val max_val : ℕ) (parts : List (List ℕ)) (xs : List ℕ)
    → parse_parts min_val max_val parts ≡ some xs
    → All (Within min_val max_val) xs
unfolding parse_parts
parts-Within min_val max_val [] xs h = ground arith
parts-Within min_val max_val (part ∷ parts) xs h =
    elim (Option-cases (part_values min_val max_val (part_range part min_val max_val))) [
      | inl bad ↦ ground arith
      | inr (ys, first) ↦ elim (Option-cases (parse_parts min_val max_val parts)) [
        | inl bad ↦ ground arith
        | inr (zs, others) ↦
            let e : xs ≡ ys ++ zs = ground arith in
            subst (λ r. All (Within min_val max_val) r) (sym e)
              (All-append (Within min_val max_val) ys zs
                (part-Within min_val max_val (part_range part min_val max_val) ys first)
                (parts-Within min_val max_val parts zs others))
      ]
    ]

-- An accepted cron field has a value, and every value lies between the field's bounds.
pub parse_cron_field-Within :
    (expr : List ℕ) (min_val max_val : ℕ) (xs : List ℕ)
    → parse_cron_field expr min_val max_val ≡ some xs
    → (1 ≤ length xs) × All (Within min_val max_val) xs
unfolding parse_cron_field
parse_cron_field-Within expr min_val max_val xs h =
    elim (Option-cases (parse_parts min_val max_val (split_on b',' expr))) [
      | inl bad ↦ ground arith
      | inr ([], parsed) ↦ ground arith
      | inr (y ∷ ys, parsed) ↦
          let e : xs ≡ y ∷ ys = ground arith in
          (
            ground arith,
            subst (λ r. All (Within min_val max_val) r) (sym e)
                (parts-Within min_val max_val (split_on b',' expr) (y ∷ ys) parsed),
          )
    ]

-- What a part with bounds and a step admits.
Admits : ℕ → ℕ → ℕ → ℕ → Type 0
Admits lo hi step x = (k : ℕ) × (x ≡ lo + k * step) × (x ≤ hi)

later-Admits :
    (lo hi step x : ℕ) → Admits lo hi step x → (x == lo) ≡ false → Admits (lo + step) hi step x
unfolding Admits
later-Admits lo hi step x (zero, e, le) h = ground arith
later-Admits lo hi step x (suc n, e, le) h = (n, omega arith, le)

range-Admits :
    (fuel lo hi step x : ℕ)
    → 1 ≤ step
    → hi + 1 - lo ≤ fuel
    → (has x (range_from fuel lo hi step) ≡ true) ↔ Admits lo hi step x
unfolding range_from Admits
range-Admits zero lo hi step x h k = (λ e. ground arith, λ (n, e, le). ground arith)
range-Admits (suc fuel) lo hi step x h k =
    let next = range-Admits fuel (lo + step) hi step x h (ground arith) in
    elim (Bool-cases (leb lo hi)) [
      | inl inside ↦ elim (Bool-cases (x == lo)) [
        | inl first ↦ (λ e. (0, ground arith, ground arith), λ a. ground arith)
        | inr later ↦ (
          λ e. let (n, at_n, le) = next.0 (ground arith) in (suc n, ground arith, le),
          λ a. let there = next.1 (later-Admits lo hi step x a later) in ground arith,
        )
      ]
      | inr outside ↦ (λ e. ground arith, λ (n, e, le). ground arith)
    ]

-- A part with the bounds `lo` and `hi` and a positive step that is accepted means exactly the
-- numbers `lo`, `lo + step`, `lo + 2 * step`, ... up to `hi`.
pub part_values_exact :
    (min_val max_val lo hi step x : ℕ) (xs : List ℕ)
    → part_values min_val max_val (some (pos lo, pos hi, pos step)) ≡ some xs
    → 1 ≤ step
    → (has x xs ≡ true) ↔ ((k : ℕ) × (x ≡ lo + k * step) × (x ≤ hi))
unfolding part_values Admits
part_values_exact min_val max_val lo hi step x xs accepted positive =
    let xs' = range_from (hi + 1 - lo) lo hi step in
    elim (Bool-cases (ltb lo min_val || (ltb max_val hi || ltb hi lo))) [
      | inl out ↦ ground arith
      | inr fits ↦
          let e : xs' ≡ xs = ground arith in
          subst (λ r. (has x r ≡ true) ↔ Admits lo hi step x) e
            (range-Admits (hi + 1 - lo) lo hi step x positive (omega arith))
    ]
