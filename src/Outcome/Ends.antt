-- ===== src/Outcome/Ends.antt =====
-- How a call may end: a condition for its return and one for its exceptions, and no fault by a
-- reference to a client that is gone.
use spx.Prelude.{Bool, true, false, ◌≡◌, refl, if◌then◌else◌}
use spx.Outcome.{
  Outcome, M, Exn, Fault, returns, throws, fault, use_after_free, dangling_client,
  dangling_iterator, null_reference, out_of_bounds, assertion_failed, out_of_fuel, and_then,
  or_handle, within,
}

abbrev pub NotDangling : Fault → Type 0
NotDangling dangling_client = ⊥
NotDangling use_after_free = Unit
NotDangling dangling_iterator = Unit
NotDangling null_reference = Unit
NotDangling out_of_bounds = Unit
NotDangling assertion_failed = Unit
NotDangling out_of_fuel = Unit

pub data Ends {S A : Type 0} (Q : A → S → Type 0) (R : S → Type 0) : Outcome S A → Type 0 where
  returned : {a : A} {s : S} → Q a s → Ends Q R (returns a s)
  threw : {e : Exn} {s : S} → R s → Ends Q R (throws e s)
  faulted : {x : Fault} → NotDangling x → Ends Q R (fault x)

-- No condition on the state.
abbrev pub Harmless : {S A : Type 0} → Outcome S A → Type 0
Harmless (returns a s) = Unit
Harmless (throws e s) = Unit
Harmless (fault x) = NotDangling x

module _ {S A : Type 0} where
  -- Sequential composition and handlers.
  pub and_then-Ends :
      {B : Type 0} {Q : A → S → Type 0} {Q' : B → S → Type 0} {R : S → Type 0} {m : Outcome S A}
      (f : A → M S B)
      → Ends Q R m
      → ((a : A) (s : S) → Q a s → Ends Q' R (f a s))
      → Ends Q' R (and_then m f)
  and_then-Ends f (returned h) k = k _ _ h
  and_then-Ends f (threw h) k = threw h
  and_then-Ends f (faulted h) k = faulted h

  pub or_handle-Ends :
      {Q : A → S → Type 0} {R R' : S → Type 0} {m : Outcome S A} (f : Exn → M S A)
      → Ends Q R m
      → ((e : Exn) (s : S) → R s → Ends Q R' (f e s))
      → Ends Q R' (or_handle m f)
  or_handle-Ends f (returned h) k = returned h
  or_handle-Ends f (threw h) k = k _ _ h
  or_handle-Ends f (faulted h) k = faulted h

  pub Ends-mono :
      {Q Q' : A → S → Type 0} {R R' : S → Type 0} {m : Outcome S A}
      → Ends Q R m
      → ((a : A) (s : S) → Q a s → Q' a s)
      → ((s : S) → R s → R' s)
      → Ends Q' R' m
  Ends-mono (returned h) f g = returned (f _ _ h)
  Ends-mono (threw h) f g = threw (g _ h)
  Ends-mono (faulted h) f g = faulted h

  -- A call on a part of the state, that keeps a condition whatever becomes of the part.
  pub within-Ends :
      {T : Type 0} {P : S → Type 0} (f : T → S) (m : Outcome T A)
      → Harmless m
      → ((t : T) → P (f t))
      → Ends (λ a s. P s) P (within f m)
  within-Ends f (returns a t) h k = returned (k t)
  within-Ends f (throws e t) h k = threw (k t)
  within-Ends f (fault x) h k = faulted h

  pub within-Ends_post :
      {T : Type 0} {Q : A → T → Type 0} {R : T → Type 0} {Q' : A → S → Type 0} {R' : S → Type 0}
      (f : T → S) {m : Outcome T A}
      → Ends Q R m
      → ((a : A) (t : T) → Q a t → Q' a (f t))
      → ((t : T) → R t → R' (f t))
      → Ends Q' R' (within f m)
  within-Ends_post f (returned h) k l = returned (k _ _ h)
  within-Ends_post f (threw h) k l = threw (l _ h)
  within-Ends_post f (faulted h) k l = faulted h

  -- Branches.
  pub if-Ends :
      {Q : A → S → Type 0} {R : S → Type 0} (b : Bool) (m n : M S A) (s : S)
      → (b ≡ true → Ends Q R (m s))
      → (b ≡ false → Ends Q R (n s))
      → Ends Q R ((if b then m else n) s)
  if-Ends true m n s h k = h refl
  if-Ends false m n s h k = k refl

module _ {S A : Type 0} where
  pub Harmless-Ends : {m : Outcome S A} → Harmless m → Ends (λ a s. Unit {0}) (λ s. Unit {0}) m
  Harmless-Ends {m} h = of m h
    where
      of : (m : Outcome S A) → Harmless m → Ends (λ a s. Unit {0}) (λ s. Unit {0}) m
      of (returns a s) h = returned tt
      of (throws e s) h = threw tt
      of (fault x) h = faulted h

-- A call that ends well is harmless.
pub Ends-Harmless :
    {S A : Type 0} {Q : A → S → Type 0} {R : S → Type 0} {m : Outcome S A} → Ends Q R m → Harmless m
Ends-Harmless (returned h) = tt
Ends-Harmless (threw h) = tt
Ends-Harmless (faulted h) = h

-- What holds of a call that returned.
module _ {S A : Type 0} where
  abbrev pub Returned : (A → S → Type 0) → Outcome S A → Type 0
  Returned Q (returns a s) = Q a s
  Returned Q (throws e s) = Unit
  Returned Q (fault x) = Unit

  Ends-Returned :
      {Q : A → S → Type 0} {R : S → Type 0} {m : Outcome S A} → Ends Q R m → Returned Q m
  Ends-Returned (returned h) = h
  Ends-Returned (threw h) = tt
  Ends-Returned (faulted h) = tt

  pub Returned-returns :
      (Q : A → S → Type 0) (m : Outcome S A) (a : A) (s : S)
      → Returned Q m
      → m ≡ returns a s
      → Q a s
  Returned-returns Q m a s h e = rw e at h

  pub Ends-returns :
      {Q : A → S → Type 0} {R : S → Type 0} {m : Outcome S A} {a : A} {s : S}
      → Ends Q R m
      → m ≡ returns a s
      → Q a s
  Ends-returns h e = Returned-returns _ _ _ _ (Ends-Returned h) e

-- What is harmless, composed.
module _ {S A : Type 0} where
  pub and_then-Harmless :
      {B : Type 0} (m : Outcome S A) (f : A → M S B)
      → Harmless m
      → ((a : A) (s : S) → Harmless (f a s))
      → Harmless (and_then m f)
  and_then-Harmless (returns a s) f h k = k a s
  and_then-Harmless (throws e s) f h k = tt
  and_then-Harmless (fault x) f h k = h

  pub or_handle-Harmless :
      (m : Outcome S A) (f : Exn → M S A)
      → Harmless m
      → ((e : Exn) (s : S) → Harmless (f e s))
      → Harmless (or_handle m f)
  or_handle-Harmless (returns a s) f h k = tt
  or_handle-Harmless (throws e s) f h k = k e s
  or_handle-Harmless (fault x) f h k = h

  pub if-Harmless :
      (b : Bool) (m n : M S A) (s : S)
      → Harmless (m s)
      → Harmless (n s)
      → Harmless ((if b then m else n) s)
  if-Harmless true m n s h k = h
  if-Harmless false m n s h k = k
