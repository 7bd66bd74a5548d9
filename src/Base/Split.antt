-- ===== src/Base/Split.antt =====
-- `count`, `split` and membership on code points and lists of numbers.
use Prim.Native.Nat.{ℕ, suc}
use mathlib.Core.Bool.{Bool}
use mathlib.Core.List.{List, [], ◌∷◌, map}
use docker_volume_backup.Base.Tests.{◌==◌, if◌then◌else◌}
use docker_volume_backup.Base.Lists.{any_of}
use docker_volume_backup.Base.Text.{is_blank}

-- `cs.count(c)` for one character
abbrev pub count : ℕ → List ℕ → ℕ
count c [] = 0
count c (d ∷ ds) = if d == c then suc (count c ds) else count c ds

abbrev pub before : ℕ → List ℕ → List ℕ
before c [] = []
before c (d ∷ ds) = if d == c then [] else d ∷ before c ds

abbrev pub after : ℕ → List ℕ → List ℕ
after c [] = []
after c (d ∷ ds) = if d == c then ds else after c ds

abbrev cons_head : ℕ → List (List ℕ) → List (List ℕ)
cons_head c [] = (c ∷ []) ∷ []
cons_head c (w ∷ ws) = (c ∷ w) ∷ ws

-- `cs.split(c)` for one character
unfoldable pub split_on : ℕ → List ℕ → List (List ℕ)
split_on c [] = [] ∷ []
split_on c (d ∷ ds) = let rest = split_on c ds in if d == c then [] ∷ rest else cons_head d rest

abbrev non_empty : List (List ℕ) → List (List ℕ)
non_empty [] = []
non_empty ([] ∷ ws) = non_empty ws
non_empty ((c ∷ w) ∷ ws) = (c ∷ w) ∷ non_empty ws

abbrev blanks_to_space : List ℕ → List ℕ
blanks_to_space cs = map (λ c. if is_blank c then b' ' else c) cs

-- `cs.split()`: the runs of characters that are not blank
unfoldable pub words : List ℕ → List (List ℕ)
unfolding split_on
words cs = non_empty (split_on b' ' (blanks_to_space cs))

-- `x in xs`
abbrev pub has : ℕ → List ℕ → Bool
has x xs = any_of (λ y. x == y) xs
