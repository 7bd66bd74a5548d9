-- ===== src/LiveFiles/Tables.antt =====
-- Bounds on dictionaries.
use docker_volume_backup.Base.{
  ◌+◌, ◌≤◌, Bool, some, List, [], ◌∷◌, ◌≡◌, length, get_by, put_by, pop_by, arith,
}

module _ {ℓ κ} {V : Type ℓ} (P : V → Type κ) where
  -- All values of a dictionary.
  abbrev pub AllValues : {K : Type 0} → List (K × V) → Type κ
  AllValues [] = Unit
  AllValues ((k, v) ∷ d) = P v × AllValues d

module _ {ℓ κ} {K : Type 0} {V : Type ℓ} (P : V → Type κ) (same : K → K → Bool) where
  pub AllValues-put :
      (k : K) (v : V) (d : List (K × V)) → P v → AllValues P d → AllValues P (put_by same k v d)
  AllValues-put k v [] h hs = (h, tt)
  AllValues-put k v ((j, w) ∷ d) h hs = ground (arith, AllValues-put k v d h hs.1)

  pub AllValues-pop : (k : K) (d : List (K × V)) → AllValues P d → AllValues P (pop_by same k d)
  AllValues-pop k [] hs = tt
  AllValues-pop k ((j, w) ∷ d) hs = ground (arith, AllValues-pop k d hs.1)

  pub AllValues-get :
      (k : K) (v : V) (d : List (K × V)) → get_by same k d ≡ some v → AllValues P d → P v
  AllValues-get k v [] e hs = ground arith
  AllValues-get k v ((j, w) ∷ d) e hs = ground (arith, AllValues-get k v d)

module _ {ℓ} {K : Type 0} {V : Type ℓ} (same : K → K → Bool) where
  pub length-put : (k : K) (v : V) (d : List (K × V)) → length (put_by same k v d) ≤ length d + 1
  length-put k v [] = omega arith
  length-put k v ((j, w) ∷ d) = ground (arith, length-put k v d)

  pub length-put_present :
      (k : K) (v w : V) (d : List (K × V))
      → get_by same k d ≡ some w
      → length (put_by same k v d) ≡ length d
  length-put_present k v u [] e = ground arith
  length-put_present k v u ((j, w) ∷ d) e = ground (arith, length-put_present k v u d)

  pub length-pop : (k : K) (d : List (K × V)) → length (pop_by same k d) ≤ length d
  length-pop k [] = omega arith
  length-pop k ((j, w) ∷ d) = ground (arith, length-pop k d)
