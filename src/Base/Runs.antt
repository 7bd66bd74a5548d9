-- ===== src/Base/Runs.antt =====
-- Runs of a service over ports that raise exceptions `X`, with a trace of the calls `E`.
use Prim.Native.String.{String}
use mathlib.Core.Path.{◌≡◌, refl}
use mathlib.Core.Logic.{◌⊎◌, inl, inr}
use mathlib.Core.Option.{Option, none, some}
use mathlib.Core.List.{List, ◌∷◌}
use docker_volume_backup.Base.Tests.{str_eq, if◌then◌else◌}

-- What a call comes to: its result, or the exception that it raises.
pub data Raising {ℓ} (X : Type 0) (A : Type ℓ) : Type ℓ where
  done : A → Raising X A
  raised : X → Raising X A

pub Raising-cases {ℓ} :
    {X : Type 0} {A : Type ℓ} (o : Raising X A)
    → ((a : A) × (o ≡ done a)) ⊎ ((e : X) × (o ≡ raised e))
Raising-cases (done a) = inl (a, refl)
Raising-cases (raised e) = inr (e, refl)

-- A piece of a run, from the trace so far, the latest call first, to the trace after it.
abbrev pub Running {ℓ} : Type 0 → Type 0 → Type ℓ → Type ℓ
Running X E A = List E → Raising X A × List E

module _ {X E : Type 0} where
  -- What follows a piece that did not raise.
  abbrev pub and_then {ℓ κ} :
      {A : Type ℓ} {B : Type κ} → (A → Running X E B) → Raising X A × List E → Raising X B × List E
  and_then f (done a, t) = f a t
  and_then f (raised e, t) = (raised e, t)

  infixl 10 ◌>>>=◌
  abbrev pub ◌>>>=◌ {ℓ κ} :
      {A : Type ℓ} {B : Type κ} → Running X E A → (A → Running X E B) → Running X E B
  (m >>>= f) t = and_then f (m t)

  abbrev pub finish {ℓ} : {A : Type ℓ} → A → Running X E A
  finish a t = (done a, t)

  -- A call of a port.
  abbrev pub call {ℓ} : {A : Type ℓ} → (List E → Raising X A) → (Raising X A → E) → Running X E A
  call port event t = (port t, event (port t) ∷ t)

-- `if text:` for a text that may be `None`
abbrev pub given_text : Option String → Option String
given_text none = none
given_text (some s) = if str_eq s "" then none else some s
