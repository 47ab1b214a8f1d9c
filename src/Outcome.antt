-- ===== src/Outcome.antt =====
-- src/common/exception.h and the exceptions derived from it, and how a C++ call can end: it returns,
-- it throws with the changes made so far, or it leaves defined behaviour. Calls on a state `S` are
-- composed by `do`.
pub mod Ends
pub mod Kept
use spx.Prelude.{Bool, true, false, if◌then◌else◌}

-- `spx::Exception` with the classes derived from it, and the standard exceptions that the code's
-- calls of the standard library throw. The message of an exception is only printed.
pub data Exn : Type 0 where
  exception zero_length_message all_in_use key_not_found : Exn
  invalid_argument out_of_range : Exn

-- Does `catch (const Exception &)` take it?
abbrev pub is_exception : Exn → Bool
is_exception exception = true
is_exception zero_length_message = true
is_exception all_in_use = true
is_exception key_not_found = true
is_exception invalid_argument = false
is_exception out_of_range = false

-- Why a run leaves defined behaviour (or, at `out_of_fuel`, the bound of a modelled loop).
pub data Fault : Type 0 where
  use_after_free dangling_client dangling_iterator null_reference out_of_bounds : Fault
  assertion_failed : Fault
  out_of_fuel : Fault

pub data Outcome {ℓ κ} (S : Type ℓ) (A : Type κ) : Type (ℓ ⊔ κ) where
  returns : A → S → Outcome S A
  throws : Exn → S → Outcome S A
  fault : Fault → Outcome S A

abbrev pub M {ℓ κ} : Type ℓ → Type κ → Type (ℓ ⊔ κ)
M S A = S → Outcome S A

module _ {ℓ κ} {S : Type ℓ} {A : Type κ} where
  abbrev pub pure : A → M S A
  pure = returns

  abbrev pub throw : Exn → M S A
  throw = throws

  abbrev pub fail : Fault → M S A
  fail x s = fault x

module _ {ℓ κ ν} {S : Type ℓ} {A : Type κ} {B : Type ν} where
  infixl 5 ◌>>=◌
  abbrev pub and_then : Outcome S A → (A → M S B) → Outcome S B
  and_then (returns a s) f = f a s
  and_then (throws e s) f = throws e s
  and_then (fault x) f = fault x

  abbrev pub ◌>>=◌ : M S A → (A → M S B) → M S B
  ◌>>=◌ m f s = and_then (m s) f

infixl 5 ◌>>◌
abbrev pub ◌>>◌ {ℓ κ} : {S : Type ℓ} {B : Type κ} → M S (Unit {0}) → M S B → M S B
m >> k = m >>= λ _. k

module _ {ℓ} {S : Type ℓ} where
  abbrev pub get : M S S
  get s = returns s s

  abbrev pub put : S → M S (Unit {0})
  put s' s = returns tt s'

  abbrev pub modify : (S → S) → M S (Unit {0})
  modify f s = returns tt (f s)

-- `try { … } catch …`: the handler runs in the state that the throw left.
module _ {ℓ κ} {S : Type ℓ} {A : Type κ} where
  abbrev pub or_handle : Outcome S A → (Exn → M S A) → Outcome S A
  or_handle (returns a s) h = returns a s
  or_handle (throws e s) h = h e s
  or_handle (fault x) h = fault x

  abbrev pub try_catch : M S A → (Exn → M S A) → M S A
  try_catch m h s = or_handle (m s) h

  -- A handler `catch (const Exception &e)`; what it does not take goes on.
  abbrev pub catch_exception : M S A → Exn → M S A
  catch_exception h e = if is_exception e then h else throw e

-- A call on a part of the state.
module _ {ℓ κ ν} {S : Type ℓ} {T : Type κ} {A : Type ν} where
  abbrev pub within : (T → S) → Outcome T A → Outcome S A
  within f (returns a t) = returns a (f t)
  within f (throws e t) = throws e (f t)
  within f (fault x) = fault x

  abbrev pub zoom : (S → T) → (T → S → S) → M T A → M S A
  zoom part set m s = within (λ t. set t s) (m (part s))
