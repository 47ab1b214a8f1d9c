-- ===== src/Outcome/Kept.antt =====
-- Conditions on the state that a call keeps, whether it returns or throws, with one rule for each way
-- to compose calls; the call follows no invalid iterator, and its loops end.
use spx.Prelude.{refl, Bool, true, false, ◌≡◌, Option, none, some, if◌then◌else◌}
use spx.Outcome.{
  use_after_free, dangling_client, dangling_iterator, null_reference, out_of_bounds,
  assertion_failed, out_of_fuel, Outcome, M, Exn, Fault, returns, throws, fault, and_then,
  or_handle, within, catch_exception, is_exception, throw,
}

-- A fault that is neither the use of an invalid iterator nor the end of a modelled loop's fuel.
abbrev pub Mild : Fault → Type 0
Mild use_after_free = Unit
Mild dangling_client = Unit
Mild dangling_iterator = ⊥
Mild null_reference = Unit
Mild out_of_bounds = Unit
Mild assertion_failed = Unit
Mild out_of_fuel = ⊥

pub data Kept {S A : Type 0} (P : S → Type 0) : Outcome S A → Type 0 where
  kept_returns : {a : A} {s : S} → P s → Kept P (returns a s)
  kept_throws : {e : Exn} {s : S} → P s → Kept P (throws e s)
  kept_fault : {x : Fault} → Mild x → Kept P (fault x)

module _ {S A : Type 0} {P : S → Type 0} where
  pub Kept-and_then :
      {B : Type 0} (m : Outcome S A) (f : A → M S B)
      → Kept P m
      → ((a : A) (s : S) → P s → Kept P (f a s))
      → Kept P (and_then m f)
  Kept-and_then _ f (kept_returns h) k = k _ _ h
  Kept-and_then _ f (kept_throws h) k = kept_throws h
  Kept-and_then _ f (kept_fault m) k = kept_fault m

  pub Kept-or_handle :
      (m : Outcome S A) (f : Exn → M S A)
      → Kept P m
      → ((e : Exn) (s : S) → P s → Kept P (f e s))
      → Kept P (or_handle m f)
  Kept-or_handle _ f (kept_returns h) k = kept_returns h
  Kept-or_handle _ f (kept_throws h) k = k _ _ h
  Kept-or_handle _ f (kept_fault m) k = kept_fault m

  pub Kept-if :
      (b : Bool) (m n : M S A) (s : S)
      → Kept P (m s)
      → Kept P (n s)
      → Kept P ((if b then m else n) s)
  Kept-if true m n s h k = h
  Kept-if false m n s h k = k

  pub Kept-test :
      (b : Bool) (m n : M S A) (s : S)
      → (b ≡ true → Kept P (m s))
      → (b ≡ false → Kept P (n s))
      → Kept P ((if b then m else n) s)
  Kept-test true m n s h k = h refl
  Kept-test false m n s h k = k refl

  -- `try { … } catch (const Exception &e) { … }`.
  pub Kept-try :
      (m : Outcome S A) (h : M S A)
      → Kept P m
      → ((t : S) → P t → Kept P (h t))
      → Kept P (or_handle m (catch_exception h))
  Kept-try m h k j =
      Kept-or_handle m _ k λ e t q. Kept-if (is_exception e) h (throw e) t (j t q) (kept_throws q)

  pub Kept-option :
      {B : Type 0} (o : Option B) (m : M S A) (f : B → M S A) (s : S)
      → Kept P (m s)
      → ((b : B) → Kept P (f b s))
      → Kept P ((elim o as (λ x. M S A) [ none ↦ m | some b ↦ f b ]) s)
  Kept-option none m f s h k = h
  Kept-option (some b) m f s h k = k b

  pub Kept-mono : {Q : S → Type 0} {m : Outcome S A} → ((s : S) → Q s → P s) → Kept Q m → Kept P m
  Kept-mono f (kept_returns h) = kept_returns (f _ h)
  Kept-mono f (kept_throws h) = kept_throws (f _ h)
  Kept-mono f (kept_fault x) = kept_fault x

  -- A call on a part of the state.
  pub Kept-within :
      {T : Type 0} {Q : T → Type 0} (f : T → S) (m : Outcome T A)
      → Kept Q m
      → ((t : T) → Q t → P (f t))
      → Kept P (within f m)
  Kept-within f _ (kept_returns h) k = kept_returns (k _ h)
  Kept-within f _ (kept_throws h) k = kept_throws (k _ h)
  Kept-within f _ (kept_fault m) k = kept_fault m

module _ {S A : Type 0} (P : S → Type 0) where
  abbrev Afterwards : Outcome S A → Type 0
  Afterwards (returns a s) = P s
  Afterwards (throws e s) = P s
  Afterwards (fault x) = Mild x

  Kept-Afterwards : {m : Outcome S A} → Kept P m → Afterwards m
  Kept-Afterwards (kept_returns h) = h
  Kept-Afterwards (kept_throws h) = h
  Kept-Afterwards (kept_fault m) = m

  pub Kept-returned : {m : Outcome S A} {a : A} {s : S} → Kept P m → m ≡ returns a s → P s
  Kept-returned h e = rw e at (Kept-Afterwards h)

  pub Kept-threw : {m : Outcome S A} {x : Exn} {s : S} → Kept P m → m ≡ throws x s → P s
  Kept-threw h e = rw e at (Kept-Afterwards h)

  pub Kept-faulted : {m : Outcome S A} {x : Fault} → Kept P m → m ≡ fault x → Mild x
  Kept-faulted h e = rw e at (Kept-Afterwards h)

pub ruleset kept_rules =
    (Kept-and_then, Kept-or_handle, Kept-if, Kept-option, kept_returns, kept_throws, kept_fault)
