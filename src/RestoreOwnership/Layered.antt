-- ===== src/RestoreOwnership/Layered.antt =====
-- That the policies of the layers are valid.
use docker_volume_backup.Base.{
  String, Bool, true, false, ◌||◌, or_else, Option, none, some, ◌≡◌, refl, ap, arith, present,
  str_eq, if◌then◌else◌, inl, inr, ◌⊎◌,
}
use docker_volume_backup.Json.{
  Value, null, flag, num, decimal, moment, arr, text, obj, Fields, empty, field, lookup,
}
use docker_volume_backup.RestoreOwnership.{
  Error, Checked, good, refused, ◌>>=◌, RestoreOwnershipPolicy, make_policy, from_dict, placed,
  replace_source, replace_confirmation, some_policy, coerce_value, coerce_nested, coerce_policy,
  LayerInput, given, made, chown_arguments, arguments_of,
}
use docker_volume_backup.RestoreOwnership.Identity.{bind_good}
use docker_volume_backup.RestoreOwnership.Validity.{IsValid, make_policy-IsValid, good-injective}

pub if_cases {ℓ} :
    {A : Type ℓ} (b : Bool) (x y z : A) → (if b then x else y) ≡ z → (x ≡ z) ⊎ (y ≡ z)
if_cases true x y z h = inl h
if_cases false x y z h = inr h

pub if_split {ℓ} :
    {A : Type ℓ} (b : Bool) (x y z : A)
    → (if b then x else y) ≡ z
    → ((b ≡ true) × (x ≡ z)) ⊎ (y ≡ z)
if_split true x y z h = inl (refl, h)
if_split false x y z h = inr h

pub if_good {ℓ} :
    {A : Type ℓ} (b : Bool) (x : Checked A) (e : Error) (z : A)
    → (if b then x else refused e) ≡ good z
    → (b ≡ true) × (x ≡ good z)
if_good true x e z h = (refl, h)
if_good false x e z h = ground arith

or_else-cases {ℓ} : {A : Type ℓ} (o : Option A) (d z : A) → or_else o d ≡ z → (o ≡ some z) ⊎ (d ≡ z)
or_else-cases none d z h = inr h
or_else-cases (some a) d z h = inl (ap (λ r. some r) h)

pub some-injective {ℓ} : {A : Type ℓ} (a b : A) → some a ≡ some b → a ≡ b
some-injective a b h = ap (λ o. or_else o a) h

replace_source-IsValid :
    (source : String) (q p : RestoreOwnershipPolicy) → replace_source source q ≡ good p → IsValid p
unfolding replace_source
replace_source-IsValid source q p h =
    make_policy-IsValid (record (arguments_of q) { source = some source }) p h

placed-IsValid :
    (source : String) (q p : RestoreOwnershipPolicy) → placed source q ≡ good p → IsValid p
unfolding placed
placed-IsValid source q p h = elim (if_cases (str_eq source "target defaults") _ _ (good p) h) [
  | inl e ↦
      let (r, _, e') = bind_good (replace_confirmation q) _ p e in
      replace_source-IsValid source r p e'
  | inr e ↦ replace_source-IsValid source q p e
]

some_policy-good :
    (r : Checked RestoreOwnershipPolicy) (p : RestoreOwnershipPolicy)
    → some_policy r ≡ good (some p)
    → r ≡ good p
some_policy-good (good q) p h =
    ap (λ r. good r) (some-injective q p (good-injective (some q) (some p) h))
some_policy-good (refused e) p h = ground arith

placed_after-IsValid :
    (source : String) (r : Checked RestoreOwnershipPolicy) (p : RestoreOwnershipPolicy)
    → some_policy (r >>= λ q. placed source q) ≡ good (some p)
    → IsValid p
placed_after-IsValid source r p h =
    let (q, _, e) =
      bind_good r (λ q. placed source q) p (some_policy-good (r >>= λ q. placed source q) p h) in
    placed-IsValid source q p e

mutual
  unfolding coerce_value

  coerce_value-IsValid :
      (source : String) (v : Value) (p : RestoreOwnershipPolicy)
      → coerce_value source v ≡ good (some p)
      → IsValid p
  coerce_value-IsValid source null p h = ground arith
  coerce_value-IsValid source (text ids) p h =
      elim (if_cases (str_eq source "RESTORE_CHOWN") _ _ (good (some p)) h) [
        | inl e ↦ placed_after-IsValid source (make_policy (chown_arguments ids)) p e
        | inr e ↦ ground arith
      ]
  coerce_value-IsValid source (obj d) p h =
      elim (or_else-cases (coerce_nested source d) _ (good (some p)) h) [
        | inl e ↦ coerce_nested-IsValid source d p e
        | inr e ↦
            elim (if_cases (present (lookup "mode" d) || present (lookup "mappings" d)) _ _
              (good (some p)) e) [
                | inl e' ↦ placed_after-IsValid source (from_dict d) p e'
                | inr e' ↦ ground arith
              ]
      ]
  coerce_value-IsValid source (flag _) p h = ground arith
  coerce_value-IsValid source (num _) p h = ground arith
  coerce_value-IsValid source (decimal _) p h = ground arith
  coerce_value-IsValid source (moment _) p h = ground arith
  coerce_value-IsValid source (arr _) p h = ground arith

  coerce_nested-IsValid :
      (source : String) (d : Fields) (p : RestoreOwnershipPolicy)
      → coerce_nested source d ≡ some (good (some p))
      → IsValid p
  coerce_nested-IsValid source empty p h = ground arith
  coerce_nested-IsValid source (field key v d) p h =
      elim (if_cases (str_eq key "restore_ownership") _ _ (some (good (some p))) h) [
        | inl e ↦
            coerce_value-IsValid source v p
              (some-injective (coerce_value source v) (good (some p)) e)
        | inr e ↦ coerce_nested-IsValid source d p e
      ]

pub coerce_policy-IsValid :
    (layer : LayerInput) (source : String) (p : RestoreOwnershipPolicy)
    → coerce_policy layer source ≡ good (some p)
    → IsValid p
unfolding coerce_policy
coerce_policy-IsValid (given v) source p h = coerce_value-IsValid source v p h
coerce_policy-IsValid (made q) source p h =
    placed-IsValid source q p (some_policy-good (placed source q) p h)
