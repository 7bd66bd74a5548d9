-- ===== src/Json.antt =====
-- The values of `Dict[str, Any]`: job payloads, result summaries and lease contexts.
use docker_volume_backup.Base.{
  not, ◌/◌, ◌==◌, or_else, codes, parse_int, negsuc, ℕ, String, Bool, true, false, Option, none,
  some, ◌≡◌, refl, arith, ℤ, pos, str_eq, str_eq_iff, if◌then◌else◌,
}

-- `moment t` is the ISO text of the instant `t`, which `isoformat()` writes.
-- `decimal m` is a float, in thousandths.
mutual
  pub data Value : Type 0 where
    null : Value
    flag : Bool → Value
    num : ℤ → Value
    decimal : ℕ → Value
    text : String → Value
    moment : ℕ → Value
    arr : Items → Value
    obj : Fields → Value

  pub data Items : Type 0 where
    nil : Items
    cons : Value → Items → Items

  pub data Fields : Type 0 where
    empty : Fields
    field : String → Value → Fields → Fields

-- `d.get(k)`
unfoldable pub lookup : String → Fields → Option Value
lookup k empty = none
lookup k (field j v d) = if str_eq j k then some v else lookup k d

-- `d[k] = v`
unfoldable pub assign : String → Value → Fields → Fields
assign k v empty = field k v empty
assign k v (field j w d) = if str_eq j k then field j v d else field j w (assign k v d)

-- `d.setdefault(k, v)`, for its effect
unfoldable pub set_default : String → Value → Fields → Fields
unfolding lookup assign
set_default k v d = elim (lookup k d) [ none ↦ assign k v d | some _ ↦ d ]

-- `d.pop(k, None)`, for its effect
unfoldable pub discard : String → Fields → Fields
discard k empty = empty
discard k (field j w d) = let rest = discard k d in if str_eq j k then rest else field j w rest

-- `d.update(e)`
unfoldable pub update : Fields → Fields → Fields
unfolding assign
update d empty = d
update d (field k v e) = update (assign k v d) e

pub lookup-assign :
    (k j : String) (v : Value) (d : Fields)
    → lookup j (assign k v d) ≡ (if str_eq k j then some v else lookup j d)
unfolding lookup assign
lookup-assign k j v empty = refl
lookup-assign k j v (field i w d) =
    ground (arith, str_eq_iff k j, str_eq_iff i k, str_eq_iff i j, lookup-assign k j v d)

pub lookup-discard :
    (k j : String) (d : Fields) → lookup j (discard k d) ≡ (if str_eq k j then none else lookup j d)
unfolding lookup discard
lookup-discard k j empty = ground arith
lookup-discard k j (field i w d) =
    ground (arith, str_eq_iff k j, str_eq_iff i k, str_eq_iff i j, lookup-discard k j d)

-- `bool(v)`
unfoldable pub truthy : Value → Bool
truthy null = false
truthy (flag b) = b
truthy (num n) = elim n [ pos k ↦ not (k == 0) | negsuc _ ↦ true ]
truthy (decimal m) = not (m == 0)
truthy (text s) = not (str_eq s "")
truthy (moment _) = true
truthy (arr nil) = false
truthy (arr (cons _ _)) = true
truthy (obj empty) = false
truthy (obj (field _ _ _)) = true

-- `int(v or 0)`, and 0 where that raises a `TypeError` or a `ValueError`
unfoldable pub int_or_zero : Value → ℤ
int_or_zero null = pos 0
int_or_zero (flag b) = if b then pos 1 else pos 0
int_or_zero (num n) = n
int_or_zero (decimal m) = pos (m / 1000)
int_or_zero (text s) = or_else (parse_int (codes s)) (pos 0)
int_or_zero (moment _) = pos 0
int_or_zero (arr _) = pos 0
int_or_zero (obj _) = pos 0

-- `dict(v) if isinstance(v, dict) else {}`
abbrev pub as_dict : Option Value → Fields
as_dict (some (obj d)) = d
as_dict _ = empty

-- A text that may be `None`.
abbrev pub opt_text : Option String → Value
opt_text none = null
opt_text (some s) = text s

-- `d.get(k)` as an entry of another dict: `None` where the key is missing.
unfoldable pub entry : String → Fields → Value
unfolding lookup
entry k d = or_else (lookup k d) null

-- `v or w`
unfoldable pub value_or : Value → Value → Value
unfolding truthy
value_or v w = if truthy v then v else w
