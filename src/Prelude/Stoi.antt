-- ===== src/Prelude/Stoi.antt =====
-- `std::stoi` reads back the decimal numbers that the streams write.
use Prim.Native.Nat.{ℕ, zero, suc, ◌+◌, ◌-◌, ◌*◌, ◌/◌, ◌%◌, ◌≤◌, ◌<◌}
use mathlib.Core.Path.{◌≡◌, refl, ap, ◌∙◌, sym}
use mathlib.Core.Logic.{inl, inr}
use mathlib.Core.Bool.{true, false}
use mathlib.Core.List.{[], ◌∷◌}
use native.Mathlib.Omega.{arith}
use spx.Prelude.Tests.{Str, leb, ltb, ◌==◌, Bool-cases}
use spx.Prelude.Decimal.{digits, to_string}
use spx.Prelude.Int.{
  pos, is_digit, is_space, digits_value, Stoi, stoi, skip_spaces, signed, convert,
}

digit : (n : ℕ) → is_digit (n % 10 + b'0') ≡ true
digit n = ground arith

-- To read one more digit.
read_digit :
    (acc n : ℕ) (rest : Str)
    → digits_value acc ((n % 10 + b'0') ∷ rest) ≡ digits_value (acc * 10 + n % 10) rest
unfolding digits_value
read_digit acc n rest =
    let here : acc * 10 + (n % 10 + b'0' - b'0') ≡ acc * 10 + n % 10 = omega arith in
    rw (digits_value, digit n) (ap (λ a. digits_value a rest) here)

digits_value-digits :
    (fuel n : ℕ) (rest : Str) → n < fuel → digits_value 0 (digits fuel n rest) ≡ digits_value n rest
unfolding digits
digits_value-digits zero n rest h = absurd (omega arith)
digits_value-digits (suc fuel) n rest h = elim (Bool-cases (ltb n 10)) [
  | inl small ↦
      let all : 0 * 10 + n % 10 ≡ n = ground arith in
      rw (digits, small) (read_digit 0 n rest ∙ ap (λ a. digits_value a rest) all)
  | inr large ↦
      let next : n / 10 < fuel = ground arith in
      let all : n / 10 * 10 + n % 10 ≡ n = omega arith in
      rw (digits, large)
        (digits_value-digits fuel (n / 10) ((n % 10 + b'0') ∷ rest) next
          ∙ read_digit (n / 10) n rest
          ∙ ap (λ a. digits_value a rest) all)
]

-- They start with a digit.
first_digit :
    (fuel n b : ℕ) (rest : Str)
    → is_digit b ≡ true
    → (d : ℕ) × (l : Str) × (digits fuel n (b ∷ rest) ≡ d ∷ l) × (is_digit d ≡ true)
unfolding digits
first_digit zero n b rest h = (b, rest, refl, h)
first_digit (suc fuel) n b rest h = elim (Bool-cases (ltb n 10)) [
  | inl small ↦ (n % 10 + b'0', b ∷ rest, rw (digits, small) refl, digit n)
  | inr large ↦
      let (d, l, e, q) = first_digit fuel (n / 10) (n % 10 + b'0') (b ∷ rest) (digit n) in
      (d, l, rw (digits, large) e, q)
]

starts : (n : ℕ) → (d : ℕ) × (l : Str) × (to_string n ≡ d ∷ l) × (is_digit d ≡ true)
unfolding to_string digits
starts n = elim (Bool-cases (ltb n 10)) [
  | inl small ↦ (n % 10 + b'0', [], rw (to_string, digits, small) refl, digit n)
  | inr large ↦
      let (d, l, e, q) = first_digit n (n / 10) (n % 10 + b'0') [] (digit n) in
      (d, l, rw (to_string, digits, large) e, q)
]

convert-digit : (d : ℕ) (l : Str) → is_digit d ≡ true → stoi (d ∷ l) ≡ convert false (d ∷ l)
unfolding stoi skip_spaces signed convert
convert-digit d l q =
    let space : is_space d ≡ false = ground arith in
    let minus : (d == b'-') ≡ false = ground arith in
    let plus : (d == b'+') ≡ false = ground arith in
    rw (stoi, skip_spaces, space, signed, minus, plus) refl

no_more : (n : ℕ) → digits_value n [] ≡ n
unfolding digits_value
no_more n = refl

pub stoi-to_string : (n : ℕ) → n ≤ 2147483647 → stoi (to_string n) ≡ Stoi.value (pos n)
unfolding convert to_string
stoi-to_string n h =
    let (d, l, e, q) = starts n in
    let whole : digits_value 0 (d ∷ l) ≡ n =
      ap (digits_value 0) (sym e) ∙ digits_value-digits (suc n) n [] (omega arith) ∙ no_more n in
    let fits : leb n 2147483647 ≡ true = ground arith in
    ap stoi e ∙ convert-digit d l q ∙ rw (convert, q, whole, fits) refl
