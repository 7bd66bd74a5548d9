-- ===== src/Base/Assoc.antt =====
-- A Python `dict` with text keys, in insertion order.
use Prim.Native.String.{String}
use mathlib.Core.Path.{◌≡◌, refl}
use mathlib.Core.Bool.{Bool}
use mathlib.Core.Option.{Option, none, some}
use mathlib.Core.List.{List, [], ◌∷◌}
use native.Mathlib.Omega.{arith}
use docker_volume_backup.Base.Tests.{str_eq, str_eq_iff, if◌then◌else◌}

abbrev pub Dict {ℓ} : Type ℓ → Type ℓ
Dict V = List (String × V)

-- Dictionaries with any keys, which `same` compares.
module _ {ℓ} {K : Type 0} {V : Type ℓ} (same : K → K → Bool) where
  abbrev pub get_by : K → List (K × V) → Option V
  get_by k [] = none
  get_by k ((j, v) ∷ d) = if same j k then some v else get_by k d

  abbrev pub put_by : K → V → List (K × V) → List (K × V)
  put_by k v [] = (k, v) ∷ []
  put_by k v ((j, w) ∷ d) = if same j k then (j, v) ∷ d else (j, w) ∷ put_by k v d

  abbrev pub pop_by : K → List (K × V) → List (K × V)
  pop_by k [] = []
  pop_by k ((j, w) ∷ d) = let rest = pop_by k d in if same j k then rest else (j, w) ∷ rest

module _ {ℓ} {V : Type ℓ} where
  -- `d.get(k)`
  abbrev pub get : String → Dict V → Option V
  get k d = get_by str_eq k d

  -- `d[k] = v`
  abbrev pub put : String → V → Dict V → Dict V
  put k v d = put_by str_eq k v d

  -- `d.pop(k, None)`, for its effect
  abbrev pub pop : String → Dict V → Dict V
  pop k d = pop_by str_eq k d

  -- `d.values()`
  abbrev pub values : Dict V → List V
  values [] = []
  values ((j, v) ∷ d) = v ∷ values d

  -- `d.keys()`
  abbrev pub keys : Dict V → List String
  keys [] = []
  keys ((j, v) ∷ d) = j ∷ keys d

  pub get-put :
      (k j : String) (v : V) (d : Dict V)
      → get j (put k v d) ≡ (if str_eq k j then some v else get j d)
  get-put k j v [] = refl
  get-put k j v ((i, w) ∷ d) =
      ground (arith, str_eq_iff k j, str_eq_iff i k, str_eq_iff i j, get-put k j v d)

  pub get-pop :
      (k j : String) (d : Dict V) → get j (pop k d) ≡ (if str_eq k j then none else get j d)
  get-pop k j [] = ground arith
  get-pop k j ((i, w) ∷ d) =
      ground (arith, str_eq_iff k j, str_eq_iff i k, str_eq_iff i j, get-pop k j d)
