-- ===== src/Clients/Array.antt =====
-- The array of `readHttpRequest` in src/clients_list.cpp, with a text written over its beginning.
use spx.Prelude.{
  ℕ, zero, suc, ◌+◌, ◌≡◌, refl, sym, ap, ◌∙◌, List, [], ◌∷◌, ◌++◌, length, length-append, take,
  drop, arith,
}
use spx.Clients.Reading.{overwrite, strncpy, zeros}

drop-append : (n : ℕ) (l m : List ℕ) → drop (length l + n) (l ++ m) ≡ drop n m
drop-append n [] m = ap (λ i. drop i m) {x = 0 + n} {y = n} (omega arith)
drop-append n (x ∷ l) m =
    ap (λ i. drop i (x ∷ l ++ m)) {x = suc (length l) + n} {y = suc (length l + n)} (omega arith)
    ∙ drop-append n l m

drop-drop : (n k : ℕ) (l : List ℕ) → drop n (drop k l) ≡ drop (k + n) l
drop-drop n zero l = ap (λ i. drop i l) {x = n} {y = 0 + n} (omega arith)
drop-drop zero (suc k) [] = ap (λ i. drop i []) {x = suc k} {y = suc k + 0} (omega arith)
drop-drop (suc n) (suc k) [] =
    ap (λ i. drop i []) {x = suc (k + suc n)} {y = suc k + suc n} (omega arith)
drop-drop n (suc k) (x ∷ l) =
    drop-drop n k l ∙ ap (λ i. drop i (x ∷ l)) {x = suc (k + n)} {y = suc k + n} (omega arith)

pub take-append : (l m : List ℕ) → take (length l) (l ++ m) ≡ l
take-append [] m = refl
take-append (x ∷ l) m = ap (λ t. x ∷ t) (take-append l m)

length-zeros : (l : List ℕ) → length (zeros l) ≡ length l
length-zeros [] = refl
length-zeros (b ∷ l) = omega (arith, length-zeros l)

pub length-strncpy : (l : List ℕ) → length (strncpy l) ≡ length l
unfolding strncpy
length-strncpy [] = refl
length-strncpy (zero ∷ l) = omega (arith, length-zeros l)
length-strncpy (suc b ∷ l) = omega (arith, length-strncpy l)

-- The array once a text has been written over its beginning.
abbrev pub filled : List ℕ → List ℕ → List ℕ
filled text array = text ++ drop (length text) array

pub overwrite-filled :
    (text bytes array : List ℕ)
    → overwrite (length text) bytes (filled text array) ≡ filled (text ++ bytes) array
overwrite-filled text bytes array =
    let n = length text in
    let rest = drop n array in
    let beyond : drop (n + length bytes) (text ++ rest) ≡ drop (length (text ++ bytes)) array =
      drop-append (length bytes) text rest
      ∙ drop-drop (length bytes) n array
      ∙ ap (λ i. drop i array) (sym (length-append text bytes)) in
    ap (λ t. t ++ bytes ++ drop (n + length bytes) (text ++ rest)) (take-append text rest)
    ∙ ap (λ t. text ++ bytes ++ t) beyond
