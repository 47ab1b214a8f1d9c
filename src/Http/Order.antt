-- ===== src/Http/Order.antt =====
-- The order of `std::string` in src/http/http_request.cpp.
use spx.Prelude.{◌≡◌, refl, true, false, [], ◌∷◌, Str, arith}
use spx.Http.HttpRequest.{str_lt}

pub str_lt_irrefl : (s : Str) → str_lt s s ≡ false
unfolding str_lt
str_lt_irrefl [] = refl
str_lt_irrefl (a ∷ s) = ground (arith, str_lt_irrefl s)

pub str_lt_trans : (s t u : Str) → str_lt s t ≡ true → str_lt t u ≡ true → str_lt s u ≡ true
unfolding str_lt
str_lt_trans s t [] h k = cc
str_lt_trans s [] (c ∷ u) h k = cc
str_lt_trans [] (b ∷ t) (c ∷ u) h k = refl
str_lt_trans (a ∷ s) (b ∷ t) (c ∷ u) h k = ground (arith, str_lt_trans s t u)

pub str_lt_asymm : (s t : Str) → str_lt s t ≡ true → str_lt t s ≡ false
unfolding str_lt
str_lt_asymm s [] h = cc
str_lt_asymm [] (b ∷ t) h = refl
str_lt_asymm (a ∷ s) (b ∷ t) h = ground (arith, str_lt_asymm s t)

pub str_eq_of_lt : (s t : Str) → str_lt s t ≡ false → str_lt t s ≡ false → s ≡ t
unfolding str_lt
str_eq_of_lt [] [] h k = refl
str_eq_of_lt [] (b ∷ t) h k = cc
str_eq_of_lt (a ∷ s) [] h k = cc
str_eq_of_lt (a ∷ s) (b ∷ t) h k = ground (arith, str_eq_of_lt s t)
