-- ===== src/Base/Decimal.antt =====
-- Decimal prints: `str(n)` and `f"{n}"` of a natural number, and how digits are read back.
use Prim.Native.Nat.{ℕ, zero, suc, ◌+◌, ◌-◌, ◌*◌, ◌/◌, ◌%◌, ◌≤◌, ◌<◌}
use Prim.Native.Char.{Char, char, code}
use Prim.Native.String.{String}
use mathlib.Core.Path.{◌≡◌, refl, sym, ◌∙◌}
use mathlib.Core.Bool.{Bool, true, false}
use mathlib.Core.List.{List, [], ◌∷◌, ◌++◌}
use native.Mathlib.Omega.{arith}
use mathlib.Core.Logic.{inl, inr}
use docker_volume_backup.Base.Lists.{length, length-append, append_assoc}
use docker_volume_backup.Base.Tests.{ltb, Bool-cases, ◌==◌, if◌then◌else◌}
use docker_volume_backup.Base.Text.{codes, is_digit}

-- The digit of a number below ten.
unfoldable pub digit_char : ℕ → Char
digit_char n =
    if n == 0
    then char 48 tt
    else if n == 1
    then char 49 tt
    else if n == 2
    then char 50 tt
    else if n == 3
    then char 51 tt
    else if n == 4
    then char 52 tt
    else if n == 5
    then char 53 tt
    else if n == 6
    then char 54 tt
    else if n == 7
    then char 55 tt
    else if n == 8
    then char 56 tt
    else char 57 tt

-- The digits of `n` before a text; each round takes one of the fuel, and `n` rounds are enough.
unfoldable pub print_digits : ℕ → ℕ → String → String
unfolding digit_char
print_digits zero n out = String.◌∷◌ (digit_char (n % 10)) out
print_digits (suc fuel) n out =
    let rest = print_digits fuel (n / 10) (String.◌∷◌ (digit_char (n % 10)) out) in
    if ltb n 10 then String.◌∷◌ (digit_char n) out else rest

unfoldable pub print_decimal : ℕ → String → String
unfolding print_digits
print_decimal n out = print_digits n n out

-- The number that digits spell behind `n`.
abbrev pub digits_value : ℕ → List ℕ → ℕ
digits_value n [] = n
digits_value n (c ∷ cs) = digits_value (n * 10 + (c - b'0')) cs

code_choice : (b : Bool) (c d : Char) → code (if b then c else d) ≡ (if b then code c else code d)
code_choice true c d = refl
code_choice false c d = refl

digit_code : (n : ℕ) → n < 10 → code (digit_char n) ≡ 48 + n
unfolding digit_char
digit_code n h = simp code_choice (ground arith)

abbrev pub all_digits : List ℕ → Bool
all_digits [] = true
all_digits (c ∷ cs) = if is_digit c then all_digits cs else false

-- The digits `ds` are a print of `n`.
pub record IsPrintOf (n : ℕ) (ds : List ℕ) : Type 0 where
  pub some_digit : 0 < length ds
  pub only_digits : all_digits ds ≡ true
  pub same_value : digits_value 0 ds ≡ n

all_digits-append :
    (ds : List ℕ) (c : ℕ)
    → all_digits ds ≡ true
    → is_digit c ≡ true
    → all_digits (ds ++ c ∷ []) ≡ true
all_digits-append [] c h hc = ground arith
all_digits-append (d ∷ ds) c h hc = ground (arith, all_digits-append ds c)

digits_value-append :
    (n : ℕ) (ds : List ℕ) (c : ℕ)
    → digits_value n (ds ++ c ∷ []) ≡ digits_value n ds * 10 + (c - b'0')
digits_value-append n [] c = refl
digits_value-append n (d ∷ ds) c = digits_value-append (n * 10 + (d - b'0')) ds c

one-IsPrintOf : (n c : ℕ) → n < 10 → c ≡ 48 + n → IsPrintOf n (c ∷ [])
one-IsPrintOf n c h e = record {
  some_digit = omega arith;
  only_digits = ground arith;
  same_value = omega (arith, e);
}

next-IsPrintOf :
    (n c : ℕ) (ds : List ℕ) → c ≡ 48 + n % 10 → IsPrintOf (n / 10) ds → IsPrintOf n (ds ++ c ∷ [])
next-IsPrintOf n c ds e h = record {
  some_digit = omega (arith, length-append ds (c ∷ []));
  only_digits = all_digits-append ds c h.only_digits (ground arith);
  same_value = omega (arith, digits_value-append 0 ds c, h.same_value, e);
}

print_digits-IsPrintOf :
    (fuel n : ℕ) (out : String)
    → n ≤ fuel
    → (ds : List ℕ) × IsPrintOf n ds × (codes (print_digits fuel n out) ≡ ds ++ codes out)
unfolding print_digits
print_digits-IsPrintOf zero n out h = (
  code (digit_char (n % 10)) ∷ [],
  one-IsPrintOf n _ (omega arith) (digit_code (n % 10) (omega arith) ∙ omega arith),
  refl,
)
print_digits-IsPrintOf (suc fuel) n out h = elim (Bool-cases (ltb n 10)) [
  | inl e ↦ rw e (
    code (digit_char n) ∷ [],
    one-IsPrintOf n _ (ground arith) (digit_code n (ground arith)),
    refl,
  )
  | inr e ↦
      let c : Char = digit_char (n % 10) in
      let (ds, h', same) = print_digits-IsPrintOf fuel (n / 10) (String.◌∷◌ c out) (ground arith) in
      rw e (
        ds ++ code c ∷ [],
        next-IsPrintOf n (code c) ds (digit_code (n % 10) (omega arith)) h',
        same ∙ sym (append_assoc ds (code c) (codes out)),
      )
]

pub print_decimal-IsPrintOf :
    (n : ℕ) (out : String)
    → (ds : List ℕ) × IsPrintOf n ds × (codes (print_decimal n out) ≡ ds ++ codes out)
unfolding print_decimal
print_decimal-IsPrintOf n out = print_digits-IsPrintOf n n out (omega arith)
