-- ===== src/Base/Text.antt =====
-- Python's text operations over code points: `len`, `strip`, `split`, `int` (ASCII only).
use Prim.Native.Nat.{ℕ, zero, suc, ◌+◌, ◌-◌, ◌*◌}
use Prim.Native.Char.{code}
use Prim.Native.String.{String}
use mathlib.Core.Bool.{Bool, true, false, ◌&&◌, ◌||◌}
use mathlib.Core.Option.{Option, none, some}
use mathlib.Core.List.{List, [], ◌∷◌, reverse}
use docker_volume_backup.Base.Tests.{leb, ◌==◌, if◌then◌else◌}
use docker_volume_backup.Base.Int.{ℤ, pos, negsuc}

-- The code points of a text.
abbrev pub codes : String → List ℕ
codes String.[] = []
codes (String.◌∷◌ c s) = code c ∷ codes s

-- `len(s)`
abbrev pub text_length : String → ℕ
text_length String.[] = 0
text_length (String.◌∷◌ c s) = suc (text_length s)

abbrev pub is_digit : ℕ → Bool
is_digit c = leb b'0' c && leb c b'9'

-- The ASCII characters that `str.strip` and `str.split` take for blanks.
abbrev pub is_blank : ℕ → Bool
is_blank c = (leb 9 c && leb c 13) || (leb 28 c && leb c 32)

abbrev pub lstrip : List ℕ → List ℕ
lstrip [] = []
lstrip (c ∷ cs) = if is_blank c then lstrip cs else c ∷ cs

-- `s.strip()`
unfoldable pub strip : List ℕ → List ℕ
strip cs = reverse (lstrip (reverse (lstrip cs)))

-- The digits of `int(s)`: an underscore may stand between two of them.
unfoldable pub parse_digits : ℕ → Bool → List ℕ → Option ℕ
parse_digits acc true [] = some acc
parse_digits acc false [] = none
parse_digits acc after (c ∷ cs) = elim (is_digit c) [
  | true ↦ parse_digits (acc * 10 + (c - b'0')) true cs
  | false ↦ elim (c == b'_' && after) [ true ↦ parse_digits acc false cs | false ↦ none ]
]

abbrev pub negate : ℕ → ℤ
negate zero = pos 0
negate (suc n) = negsuc n

abbrev signed : Bool → Option ℕ → Option ℤ
signed minus none = none
signed true (some n) = some (negate n)
signed false (some n) = some (pos n)

parse_sign : List ℕ → Option ℤ
unfolding parse_digits
parse_sign [] = none
parse_sign (c ∷ cs) =
    if c == b'-'
    then signed true (parse_digits 0 false cs)
    else if c == b'+'
    then signed false (parse_digits 0 false cs)
    else signed false (parse_digits 0 false (c ∷ cs))

-- `int(s)`; `none` is the `ValueError`.
unfoldable pub parse_int : List ℕ → Option ℤ
unfolding parse_sign strip
parse_int cs = parse_sign (strip cs)

-- `s.lower()`
abbrev pub lower : List ℕ → List ℕ
lower [] = []
lower (c ∷ cs) = (if leb b'A' c && leb c b'Z' then c + 32 else c) ∷ lower cs

abbrev pub codes_eq : List ℕ → List ℕ → Bool
codes_eq [] [] = true
codes_eq [] (d ∷ ds) = false
codes_eq (c ∷ cs) [] = false
codes_eq (c ∷ cs) (d ∷ ds) = c == d && codes_eq cs ds

-- `value.startswith(prefix)`
abbrev pub starts_with : List ℕ → List ℕ → Bool
starts_with [] value = true
starts_with (c ∷ cs) [] = false
starts_with (c ∷ cs) (d ∷ value) = c == d && starts_with cs value

-- `s + t`
abbrev pub joined_to : String → String → String
joined_to String.[] t = t
joined_to (String.◌∷◌ c s) t = String.◌∷◌ c (joined_to s t)
