-- ===== src/Prelude/Decimal.antt =====
-- Decimal numbers as `std::to_string` and the streams write them.
use Prim.Native.Nat.{ℕ, zero, suc, ◌+◌, ◌-◌, ◌/◌, ◌%◌}
use mathlib.Core.List.{[], ◌∷◌}
use spx.Prelude.Tests.{Str, ltb, if◌then◌else◌}
use spx.Prelude.Words.{int_mod}

-- The digits of `n` before `rest`; a number below `10 ^ fuel` needs no more than `fuel` rounds.
unfoldable pub digits : ℕ → ℕ → Str → Str
digits zero n rest = rest
digits (suc fuel) n rest =
    let here = (n % 10 + b'0') ∷ rest in
    let more = digits fuel (n / 10) here in if ltb n 10 then here else more

-- `n` rounds and one more are enough for `n`.
unfoldable pub to_string : ℕ → Str
to_string n = digits (suc n) n []

-- An `int`, from its 32-bit pattern.
unfoldable pub int_to_string : ℕ → Str
int_to_string n = if ltb n 2147483648 then to_string n else b'-' ∷ to_string (int_mod - n)
