-- ===== src/Cache/History.antt =====
-- Whole runs of `Cache` of src/cache, against the specification.
use mathlib.Core.Path.{ap₂}
use spx.Prelude.{sym, ℕ, ◌≡◌, refl, true, List, [], ◌∷◌, some, inl, inr, Str}
use spx.Outcome.{
  M, Outcome, ◌>>=◌, ◌>>◌, pure, returns, throws, fault, try_catch, or_handle, and_then,
}
use spx.Cache.Entry.{Entry}
use spx.Cache.Methods
use spx.Cache.Methods.{Cache}
use spx.Cache.Spec
use spx.Cache.Spec.{View, view}
use spx.Cache.Invariant.{IsValid}
use spx.Cache.Refinement.{Refines, read-Refines, use_entry-Refines, disuse_entry-Refines, key_cases}
use spx.Cache.Space.{write-Refines}

pub data Request : Type 0 where
  read : Str → ℕ → ℕ → Request
  write : Str → List ℕ → Request
  use_entry disuse_entry : Str → Request

-- One request, with the bytes that it reads.
unfoldable pub serve : Request → M Cache (List ℕ)
serve (read key offset len) = Methods.read key offset len
serve (write key buf) = Methods.write key buf >> pure []
serve (use_entry key) = Methods.use_entry key >> pure []
serve (disuse_entry key) = Methods.disuse_entry key >> pure []

unfoldable pub promise : Request → M View (List ℕ)
promise (read key offset len) = Spec.read key offset len
promise (write key buf) = Spec.write key buf >> pure []
promise (use_entry key) = Spec.use_entry key >> pure []
promise (disuse_entry key) = Spec.disuse_entry key >> pure []

-- A sequence of requests; as in the server, an exception ends its request alone.
unfoldable pub run {ℓ} :
    {S : Type ℓ} → (Request → M S (List ℕ)) → List Request → M S (List (List ℕ))
run step [] = pure []
run step (r ∷ rs) = do
  bytes ← try_catch (step r) (λ e. pure [])
  rest ← run step rs
  pure (bytes ∷ rest)

-- A write is only asked for under a key of the cache.
abbrev pub Allowed : Request → View → Type 0
Allowed (write key buf) v = (e : Entry) × (Spec.find key v.items ≡ some e)
Allowed r v = Unit

-- Every request of the sequence is allowed in the state in which it is made.
abbrev pub AllAllowed : List Request → View → Type 0
AllAllowed [] v = Unit
AllAllowed (r ∷ rs) v =
    Allowed r v
    × ((bytes : List ℕ) (w : View)
        → or_handle (promise r v) (λ e. pure []) ≡ returns bytes w
        → AllAllowed rs w)

contains-find :
    (c : Cache) (key : Str)
    → IsValid c
    → (e : Entry) → Spec.find key (view c).items ≡ some e
    → Methods.contains key c ≡ true
unfolding Methods.contains
contains-find c key v e f = elim (key_cases c key v) [
  | inl (miss, absent) ↦ absurd (cc)
  | inr (a, d, h) ↦ rw h.indexed
]

-- The agreement of two outcomes passes through a discarded result.
pure-Refines :
    (m : Outcome Cache (Unit {0})) (s : Outcome View (Unit {0}))
    → Refines m s
    → Refines {A = List ℕ} (and_then m (λ _. pure [])) (and_then s (λ _. pure []))
pure-Refines (returns a c) (returns b v) h = (h.0, h.1, refl)
pure-Refines (throws e c) (throws d v) h = h
pure-Refines (fault x) (fault y) h = h
pure-Refines (returns a c) (throws d v) h = absurd h
pure-Refines (returns a c) (fault y) h = absurd h
pure-Refines (throws e c) (returns b v) h = absurd h
pure-Refines (throws e c) (fault y) h = absurd h
pure-Refines (fault x) (returns b v) h = absurd h
pure-Refines (fault x) (throws d v) h = absurd h

serve-Refines :
    (r : Request) (c : Cache)
    → IsValid c
    → Allowed r (view c)
    → Refines (serve r c) (promise r (view c))
unfolding serve promise
serve-Refines (read key offset len) c v a = read-Refines c key v offset len
serve-Refines (write key buf) c v a =
    pure-Refines _ _ (write-Refines c v key buf (contains-find c key v a.0 a.1))
serve-Refines (use_entry key) c v a = pure-Refines _ _ (use_entry-Refines c key v)
serve-Refines (disuse_entry key) c v a = pure-Refines _ _ (disuse_entry-Refines c key v)

handled-Refines :
    (m : Outcome Cache (List ℕ)) (s : Outcome View (List ℕ))
    → Refines m s
    → Refines (or_handle m (λ e. pure [])) (or_handle s (λ e. pure []))
handled-Refines (returns a c) (returns b v) h = h
handled-Refines (throws e c) (throws d v) h = (h.0, h.1, refl)
handled-Refines (fault x) (fault y) h = h
handled-Refines (returns a c) (throws d v) h = absurd h
handled-Refines (returns a c) (fault y) h = absurd h
handled-Refines (throws e c) (returns b v) h = absurd h
handled-Refines (throws e c) (fault y) h = absurd h
handled-Refines (fault x) (returns b v) h = absurd h
handled-Refines (fault x) (throws d v) h = absurd h

-- Two outcomes that agree, each followed by a call, agree if the calls do.
then-Refines :
    {A B : Type 0} (m : Outcome Cache A) (s : Outcome View A) (f : A → M Cache B) (g : A → M View B)
    → Refines m s
    → ((a : A) (c : Cache) → IsValid c → s ≡ returns a (view c) → Refines (f a c) (g a (view c)))
    → Refines (and_then m f) (and_then s g)
then-Refines (returns a c) (returns b v) f g h k =
    let same : g b v ≡ g a (view c) = ap₂ g (sym h.2) (sym h.1) in rw same (k a c h.0 (cc))
then-Refines (throws e c) (throws d v) f g h k = h
then-Refines (fault x) (fault y) f g h k = h
then-Refines (returns a c) (throws d v) f g h k = absurd h
then-Refines (returns a c) (fault y) f g h k = absurd h
then-Refines (throws e c) (returns b v) f g h k = absurd h
then-Refines (throws e c) (fault y) f g h k = absurd h
then-Refines (fault x) (returns b v) f g h k = absurd h
then-Refines (fault x) (throws d v) f g h k = absurd h

-- From a valid cache, every sequence of requests that writes under keys of the cache alone reads
-- the bytes that the specification promises, ends as it does, and leaves a valid cache with its view.
pub run-Refines :
    (rs : List Request) (c : Cache)
    → IsValid c
    → AllAllowed rs (view c)
    → Refines (run serve rs c) (run promise rs (view c))
unfolding run
run-Refines [] c v a = (v, refl, refl)
run-Refines (r ∷ rs) c v a =
    then-Refines _ _ _ _ (handled-Refines _ _ (serve-Refines r c v a.0)) λ bytes d w e.
      then-Refines _ _ _ _ (run-Refines rs d w (a.1 bytes (view d) e))
        λ rest d' w' _. (w', refl, refl)
