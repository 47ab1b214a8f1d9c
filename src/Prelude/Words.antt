-- ===== src/Prelude/Words.antt =====
-- Machine words: `size_t` has 64 bits, and an `int` is kept as its 32-bit pattern.
use Prim.Native.Nat.{ℕ, ◌+◌, ◌-◌, ◌%◌}

abbrev pub size_mod : ℕ
size_mod = 18446744073709551616

abbrev pub int_mod : ℕ
int_mod = 4294967296

-- `a + b` and `a - b` on `size_t`.
abbrev pub add_size : ℕ → ℕ → ℕ
add_size a b = (a + b) % size_mod

abbrev pub sub_size : ℕ → ℕ → ℕ
sub_size a b = (a + size_mod - b) % size_mod

-- `++` and `--` on the pattern of an `int`.
abbrev pub int_inc : ℕ → ℕ
int_inc a = (a + 1) % int_mod

abbrev pub int_dec : ℕ → ℕ
int_dec a = (a + int_mod - 1) % int_mod
