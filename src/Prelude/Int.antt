-- ===== src/Prelude/Int.antt =====
-- Signed integers, and `std::stoi`.
use Prim.Native.Nat.{ℕ, zero, suc, ◌+◌, ◌-◌, ◌*◌}
use mathlib.Core.Bool.{Bool, true, false, ◌&&◌, ◌||◌}
use mathlib.Core.List.{[], ◌∷◌}
use spx.Prelude.Tests.{Str, leb, ◌==◌, if◌then◌else◌}

-- `negsuc n` is -(n + 1).
pub data ℤ : Type 0 where
  pos : ℕ → ℤ
  negsuc : ℕ → ℤ

abbrev pub negative : ℕ → ℤ
negative zero = pos 0
negative (suc n) = negsuc n

-- `isspace` and `isdigit` in the C locale.
abbrev pub is_space : ℕ → Bool
is_space b = (b == 32) || (leb 9 b && leb b 13)

abbrev pub is_digit : ℕ → Bool
is_digit b = leb b'0' b && leb b b'9'

unfoldable pub skip_spaces : Str → Str
skip_spaces [] = []
skip_spaces (b ∷ s) = let rest = skip_spaces s in if is_space b then rest else b ∷ s

-- The value of the digits at the front, after those already read.
unfoldable pub digits_value : ℕ → Str → ℕ
digits_value acc [] = acc
digits_value acc (b ∷ s) =
    let more = digits_value (acc * 10 + (b - b'0')) s in if is_digit b then more else acc

pub data Stoi : Type 0 where
  value : ℤ → Stoi
  no_conversion out_of_int : Stoi

-- A magnitude that an `int` holds, with its sign.
abbrev in_int : Bool → ℕ → Stoi
in_int false n = if leb n 2147483647 then value (pos n) else out_of_int
in_int true n = if leb n 2147483648 then value (negative n) else out_of_int

unfoldable pub convert : Bool → Str → Stoi
convert minus [] = no_conversion
convert minus (b ∷ s) = if is_digit b then in_int minus (digits_value 0 (b ∷ s)) else no_conversion

unfoldable pub signed : Str → Stoi
signed [] = no_conversion
signed (b ∷ s) =
    if b == b'-'
    then convert true s
    else if b == b'+'
    then convert false s
    else convert false (b ∷ s)

unfoldable pub stoi : Str → Stoi
stoi s = signed (skip_spaces s)
