-- ===== src/Prelude/Lists.antt =====
-- Lists measured and indexed by native numbers, under the library's names.
use Prim.Native.Nat.{ℕ, zero, suc, ◌+◌, ◌-◌, ◌≤◌}
use mathlib.Core.Path.{◌≡◌, refl, ap, ◌∙◌}
use mathlib.Core.List.{List, [], ◌∷◌, ◌++◌}
use mathlib.Core.Option.{Option, none, some}
use native.Mathlib.Omega.{arith}

module _ {ℓ} {A : Type ℓ} where
  abbrev pub length : List A → ℕ
  length [] = 0
  length (x ∷ xs) = suc (length xs)

  abbrev pub take : ℕ → List A → List A
  take zero xs = []
  take (suc n) [] = []
  take (suc n) (x ∷ xs) = x ∷ take n xs

  abbrev pub drop : ℕ → List A → List A
  drop zero xs = xs
  drop (suc n) [] = []
  drop (suc n) (x ∷ xs) = drop n xs

  abbrev pub get_last? : List A → Option A
  get_last? [] = none
  get_last? (x ∷ []) = some x
  get_last? (x ∷ y ∷ xs) = get_last? (y ∷ xs)

module _ {ℓ} {A : Type ℓ} where
  pub length-append : (xs ys : List A) → length (xs ++ ys) ≡ length xs + length ys
  length-append [] ys = omega arith
  length-append (x ∷ xs) ys = omega (arith, length-append xs ys)

  pub get_last?-append : (xs : List A) (x : A) → get_last? (xs ++ x ∷ []) ≡ some x
  get_last?-append [] x = refl
  get_last?-append (y ∷ []) x = refl
  get_last?-append (y ∷ z ∷ xs) x = get_last?-append (z ∷ xs) x

  pub take-drop : (n : ℕ) (l : List A) → take n l ++ drop n l ≡ l
  take-drop zero l = refl
  take-drop (suc n) [] = refl
  take-drop (suc n) (x ∷ l) = ap (λ t. x ∷ t) (take-drop n l)

  pub take-length : (l : List A) → take (length l) l ≡ l
  take-length [] = refl
  take-length (x ∷ l) = ap (λ t. x ∷ t) (take-length l)

  pub length-take-le : (n : ℕ) (l : List A) → n ≤ length l → length (take n l) ≡ n
  length-take-le zero l h = refl
  length-take-le (suc n) [] h = omega arith
  length-take-le (suc n) (x ∷ l) h = omega (arith, length-take-le n l)

  pub length-drop : (n : ℕ) (l : List A) → length (drop n l) ≡ length l - n
  length-drop zero l = omega arith
  length-drop (suc n) [] = omega arith
  length-drop (suc n) (x ∷ l) = omega (arith, length-drop n l)

  pub take-take : (n m : ℕ) (l : List A) → n ≤ m → take n (take m l) ≡ take n l
  take-take zero m l h = refl
  take-take (suc n) zero l h = absurd (omega arith)
  take-take (suc n) (suc m) [] h = refl
  take-take (suc n) (suc m) (x ∷ l) h = ap (λ t. x ∷ t) (take-take n m l (omega arith))

  pub take-append-drop : (k n : ℕ) (l : List A) → take k l ++ take n (drop k l) ≡ take (k + n) l
  take-append-drop zero n l = ap (λ i. take i l) (omega arith)
  take-append-drop (suc k) zero [] = ap (λ i. take i []) {x = suc k} {y = suc k + 0} (omega arith)
  take-append-drop (suc k) (suc n) [] =
      ap (λ i. take i []) {x = suc (k + suc n)} {y = suc k + suc n} (omega arith)
  take-append-drop (suc k) n (x ∷ l) =
      let next : suc (k + n) ≡ suc k + n = omega arith in
      ap (λ t. x ∷ t) (take-append-drop k n l) ∙ ap (λ i. take i (x ∷ l)) next
