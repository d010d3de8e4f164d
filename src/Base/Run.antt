-- ===== src/Base/Run.antt =====
-- How a call of a C function ends.
use Prim.Native.Nat.{ℕ}
use mathlib.Core.Path.{◌≡◌}
use mathlib.Core.Bool.{Bool, true, false}
use mathlib.Core.Option.{Option, none, some}
use mathlib.Core.List.{List}
use old_radio.Base.Lists.{get_elem?}

-- A returned value, a failed `assert`, undefined behaviour (an access outside of an object's memory, a
-- division by zero, a signed counter past its largest value), or the end of the model's fuel for a loop.
pub data Run {ℓ} (A : Type ℓ) : Type ℓ where
  ok : A → Run A
  abort : Run A
  fault : Run A
  out_of_fuel : Run A

infixl 5 ◌>>=◌ ◌>>◌
abbrev pub ◌>>=◌ {ℓ κ} : {A : Type ℓ} {B : Type κ} → Run A → (A → Run B) → Run B
ok a >>= f = f a
abort >>= f = abort
fault >>= f = fault
out_of_fuel >>= f = out_of_fuel

abbrev pub ◌>>◌ {ℓ} : {B : Type ℓ} → Run (Unit {0}) → Run B → Run B
m >> k = m >>= λ _. k

-- `assert(b)`
abbrev pub assert : Bool → Run (Unit {0})
assert true = ok tt
assert false = abort

abbrev pub or_fault {ℓ} : {A : Type ℓ} → Option A → Run A
or_fault (some a) = ok a
or_fault none = fault

-- `a[i]`
abbrev pub load {ℓ} : {A : Type ℓ} → List A → ℕ → Run A
load a i = or_fault (get_elem? a i)

pub ok_inj {ℓ} : {A : Type ℓ} (x y : A) → ok x ≡ ok y → x ≡ y
ok_inj x y p = cc

-- An access that the bound `b` allows.
abbrev pub within : Bool → Run (Unit {0})
within true = ok tt
within false = fault
