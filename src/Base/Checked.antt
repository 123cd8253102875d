-- ===== src/Base/Checked.antt =====
-- Construction that may raise `ValueError`, with the message that the source gives it.
use Prim.Native.String.{String}
use mathlib.Core.Path.{◌≡◌, refl}
use mathlib.Core.Logic.{◌⊎◌, inl, inr}
use mathlib.Core.Bool.{Bool, true, false}
use mathlib.Core.List.{List, [], ◌∷◌}

pub data Checked {ℓ} (A : Type ℓ) : Type ℓ where
  ok : A → Checked A
  value_error : String → Checked A

infixl 5 ◌>>=◌ ◌>>◌
abbrev pub ◌>>=◌ {ℓ κ} : {A : Type ℓ} {B : Type κ} → Checked A → (A → Checked B) → Checked B
ok a >>= f = f a
value_error e >>= f = value_error e

abbrev pub ◌>>◌ {ℓ} : {B : Type ℓ} → Checked (Unit {0}) → Checked B → Checked B
m >> k = m >>= λ _. k

-- `if test: raise ValueError(message)`
abbrev pub raise_if : Bool → String → Checked (Unit {0})
raise_if true e = value_error e
raise_if false e = ok tt

-- A check of `a` that passes it on, or raises.
abbrev pub Passes : {A : Type 0} → A → Checked A → Type 0
Passes a m = (m ≡ ok a) ⊎ ((e : String) × (m ≡ value_error e))

-- Checks in a row: the first test that holds raises.
unfoldable pub require : {A : Type 0} → A → List (Bool × String) → Checked A
require a [] = ok a
require a ((test, message) ∷ rest) = raise_if test message >> require a rest

raise_if-Passes :
    {A : Type 0} (b : Bool) (e : String) (a : A) (m : Checked A)
    → Passes a m
    → Passes a (raise_if b e >> m)
raise_if-Passes true e a m h = inr (e, refl)
raise_if-Passes false e a m h = h

pub require-Passes :
    {A : Type 0} (a : A) (checks : List (Bool × String)) → Passes a (require a checks)
unfolding require
require-Passes a [] = inl refl
require-Passes a ((test, message) ∷ rest) =
    raise_if-Passes test message a (require a rest) (require-Passes a rest)
