-- ===== src/Dict.antt =====
-- `std::unordered_map` with keys of type `std::string`, as the code uses it: a list of keys with
-- their values.
use spx.Prelude.{◌≡◌, refl, List, [], ◌∷◌, Option, none, some, ite, Str, str_discrete, arith}

module _ {ℓ} {V : Type ℓ} where
  -- `find`, `[key] = v` and `erase`.
  unfoldable pub lookup : Str → List (Str × V) → Option V
  lookup k [] = none
  lookup k ((j, v) ∷ t) = ite (str_discrete j k) (some v) (lookup k t)

  unfoldable pub assign : Str → V → List (Str × V) → List (Str × V)
  assign k v [] = (k, v) ∷ []
  assign k v ((j, w) ∷ t) = ite (str_discrete j k) ((k, v) ∷ t) ((j, w) ∷ assign k v t)

  unfoldable pub erase_key : Str → List (Str × V) → List (Str × V)
  erase_key k [] = []
  erase_key k ((j, w) ∷ t) = ite (str_discrete j k) (erase_key k t) ((j, w) ∷ erase_key k t)

  pub lookup-assign :
      (j k : Str) (v : V) (t : List (Str × V))
      → lookup j (assign k v t) ≡ ite (str_discrete k j) (some v) (lookup j t)
  unfolding lookup assign
  lookup-assign j k v [] = refl
  lookup-assign j k v ((i, w) ∷ t) = ground (arith, lookup-assign j k v t)

  pub lookup-assign_self : (k : Str) (v : V) (t : List (Str × V)) → lookup k (assign k v t) ≡ some v
  lookup-assign_self k v t = ground (arith, lookup-assign k k v t)

  pub lookup-erase_key :
      (j k : Str) (t : List (Str × V))
      → lookup j (erase_key k t) ≡ ite (str_discrete k j) none (lookup j t)
  unfolding lookup erase_key
  lookup-erase_key j k [] = ground arith
  lookup-erase_key j k ((i, w) ∷ t) = ground (arith, lookup-erase_key j k t)
