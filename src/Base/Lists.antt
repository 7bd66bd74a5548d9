-- ===== src/Base/Lists.antt =====
-- Lists measured by native numbers, the predicates over them, and Python's stable `sorted`.
use Prim.Native.Nat.{ℕ, zero, suc, ◌+◌, ◌-◌, min}
use mathlib.Core.Path.{◌≡◌, refl, ap}
use mathlib.Core.Bool.{Bool, true, false}
use mathlib.Core.List.{List, [], ◌∷◌, ◌++◌}
use mathlib.Core.Option.{Option, none, some}
use native.Mathlib.Omega.{arith}
use docker_volume_backup.Base.Tests.{leb, if◌then◌else◌}

module _ {ℓ} {A : Type ℓ} where
  abbrev pub length : List A → ℕ
  length [] = 0
  length (x ∷ xs) = suc (length xs)

  abbrev pub take : ℕ → List A → List A
  take zero xs = []
  take (suc n) [] = []
  take (suc n) (x ∷ xs) = x ∷ take n xs

  abbrev pub drop : ℕ → List A → List A
  drop zero xs = xs
  drop (suc n) [] = []
  drop (suc n) (x ∷ xs) = drop n xs

  -- `xs[-n:]`
  abbrev pub take_last : ℕ → List A → List A
  take_last n xs = drop (length xs - n) xs

  pub append_nil : (xs : List A) → xs ++ [] ≡ xs
  append_nil [] = refl
  append_nil (x ∷ xs) = ap (λ r. x ∷ r) (append_nil xs)

  pub append_assoc : (xs : List A) (y : A) (zs : List A) → (xs ++ y ∷ []) ++ zs ≡ xs ++ y ∷ zs
  append_assoc [] y zs = refl
  append_assoc (x ∷ xs) y zs = ap (λ r. x ∷ r) (append_assoc xs y zs)

  pub length-append : (xs ys : List A) → length (xs ++ ys) ≡ length xs + length ys
  length-append [] ys = omega arith
  length-append (x ∷ xs) ys = omega (arith, length-append xs ys)

  pub length-drop : (n : ℕ) (xs : List A) → length (drop n xs) ≡ length xs - n
  length-drop zero xs = omega arith
  length-drop (suc n) [] = omega arith
  length-drop (suc n) (x ∷ xs) = omega (arith, length-drop n xs)

  pub length-take : (n : ℕ) (xs : List A) → length (take n xs) ≡ min n (length xs)
  length-take zero xs = omega arith
  length-take (suc n) [] = omega arith
  length-take (suc n) (x ∷ xs) = omega (arith, length-take n xs)

  pub take-append-drop : (n : ℕ) (xs : List A) → take n xs ++ drop n xs ≡ xs
  take-append-drop zero xs = refl
  take-append-drop (suc n) [] = refl
  take-append-drop (suc n) (x ∷ xs) = ap (λ r. x ∷ r) (take-append-drop n xs)

  -- `any(p(x) for x in xs)`; one structural call.
  abbrev pub any_of : (A → Bool) → List A → Bool
  any_of p [] = false
  any_of p (x ∷ xs) = if p x then true else any_of p xs

  abbrev pub all_of : (A → Bool) → List A → Bool
  all_of p [] = true
  all_of p (x ∷ xs) = if p x then all_of p xs else false

  -- `[x for x in xs if p(x)]`
  abbrev pub keep_if : (A → Bool) → List A → List A
  keep_if p [] = []
  keep_if p (x ∷ xs) = let rest = keep_if p xs in if p x then x ∷ rest else rest

  -- `next((x for x in xs if p(x)), None)`
  abbrev pub find_first : (A → Bool) → List A → Option A
  find_first p [] = none
  find_first p (x ∷ xs) = if p x then some x else find_first p xs

  abbrev pub insert_by : (A → ℕ) → A → List A → List A
  insert_by key x [] = x ∷ []
  insert_by key x (y ∷ ys) = if leb (key x) (key y) then x ∷ y ∷ ys else y ∷ insert_by key x ys

  -- `sorted(xs, key=key)`: stable, in increasing order of the key.
  abbrev pub sort_by : (A → ℕ) → List A → List A
  sort_by key [] = []
  sort_by key (x ∷ xs) = insert_by key x (sort_by key xs)

  abbrev pub insert_newest : (A → ℕ) → A → List A → List A
  insert_newest key x [] = x ∷ []
  insert_newest key x (y ∷ ys) =
      if leb (key y) (key x) then x ∷ y ∷ ys else y ∷ insert_newest key x ys

  -- `sorted(xs, key=key, reverse=True)`: stable, in decreasing order of the key.
  abbrev pub sort_newest : (A → ℕ) → List A → List A
  sort_newest key [] = []
  sort_newest key (x ∷ xs) = insert_newest key x (sort_newest key xs)

module _ {ℓ κ} {A : Type ℓ} (P : A → Type κ) where
  abbrev pub All : List A → Type κ
  All [] = Unit
  All (x ∷ xs) = P x × All xs

module _ {ℓ κ} {A : Type ℓ} (P : A → Type κ) where
  pub All-insert_by :
      (key : A → ℕ) (x : A) (xs : List A) → P x → All P xs → All P (insert_by key x xs)
  All-insert_by key x [] h hs = (h, tt)
  All-insert_by key x (y ∷ ys) h hs = ground (arith, All-insert_by key x ys h hs.1)

  pub All-sort_by : (key : A → ℕ) (xs : List A) → All P xs → All P (sort_by key xs)
  All-sort_by key [] hs = tt
  All-sort_by key (x ∷ xs) hs = All-insert_by key x (sort_by key xs) hs.0 (All-sort_by key xs hs.1)

  pub All-append : (xs ys : List A) → All P xs → All P ys → All P (xs ++ ys)
  All-append [] ys hx hy = hy
  All-append (x ∷ xs) ys hx hy = (hx.0, All-append xs ys hx.1 hy)

module _ {ℓ} {A : Type ℓ} (p : A → Bool) where
  pub any_of-insert_by :
      (key : A → ℕ) (x : A) (xs : List A)
      → any_of p (insert_by key x xs) ≡ (if p x then true else any_of p xs)
  any_of-insert_by key x [] = refl
  any_of-insert_by key x (y ∷ ys) = ground (arith, any_of-insert_by key x ys)

  pub any_of-sort_by : (key : A → ℕ) (xs : List A) → any_of p (sort_by key xs) ≡ any_of p xs
  any_of-sort_by key [] = refl
  any_of-sort_by key (x ∷ xs) =
      ground (arith, any_of-insert_by key x (sort_by key xs), any_of-sort_by key xs)
