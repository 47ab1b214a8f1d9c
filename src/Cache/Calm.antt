-- ===== src/Cache/Calm.antt =====
-- Which methods of src/cache throw nothing.
use spx.Prelude.{
  Option, ℕ, ◌≡◌, refl, true, ◌==◌, ◌&&◌, not, none, some, Str, inl, inr, Option-cases, get_last?,
  if◌then◌else◌,
}
use spx.Outcome.{M, ◌>>=◌, ◌>>◌, Outcome, pure}
use spx.Outcome.Ends.{Ends, Ends-mono, returned, faulted, and_then-Ends, if-Ends}
use spx.Dict.{lookup, lookup-assign_self}
use spx.Cache.Entry
use spx.Cache.Store.{find_node}
use spx.Cache.Methods
use spx.Cache.Methods.{Cache}

-- A call that returns or leaves defined behaviour.
abbrev pub Calm : {S A : Type 0} → (A → S → Type 0) → Outcome S A → Type 0
Calm Q = Ends Q (λ t. ⊥)

abbrev Holds : Str → Cache → Type 0
Holds k c = Methods.contains k c ≡ true

contains_of_lookup : {a : ℕ} (k : Str) (c : Cache) → lookup k c.hash_table ≡ some a → Holds k c
unfolding Methods.contains
contains_of_lookup k c e = rw e refl

lookup_of_contains : (k : Str) (c : Cache) → Holds k c → (a : ℕ) × (lookup k c.hash_table ≡ some a)
unfolding Methods.contains
lookup_of_contains k c h = elim (Option-cases (lookup k c.hash_table)) [ inl e ↦ cc | inr p ↦ p ]

deref-Calm : (a : ℕ) (c : Cache) → Calm (λ n t. t ≡ c) (Methods.deref a c)
deref-Calm a c = elim (Option-cases (find_node a c.list)) [
  | inl e ↦ rw (e, Methods.deref) (faulted tt)
  | inr (n, e) ↦ rw (e, Methods.deref) (returned refl)
]

back-Calm : (c : Cache) → Calm (λ n t. t ≡ c) (Methods.back c)
back-Calm c = elim (Option-cases (get_last? c.list)) [
  | inl e ↦ rw (e, Methods.back) (faulted tt)
  | inr (n, e) ↦ rw (e, Methods.back) (returned refl)
]

point_to_last-Calm : (k : Str) (c : Cache) → Calm (λ u t. Holds k t) (Methods.point_to_last k c)
point_to_last-Calm k c =
    and_then-Ends _ (back-Calm c)
      λ n t e. returned (contains_of_lookup k _ (lookup-assign_self k n.addr t.hash_table))

at_key-Calm : (k : Str) (c : Cache) → Holds k c → Calm (λ a t. t ≡ c) (Methods.at_key k c)
at_key-Calm k c h = let (a, e) = lookup_of_contains k c h in rw (e, Methods.at_key) (returned refl)

make_most_recently_used-Calm :
    (k : Str) (c : Cache)
    → Holds k c
    → Calm (λ u t. Holds k t) (Methods.make_most_recently_used k c)
unfolding Methods.make_most_recently_used
make_most_recently_used-Calm k c h = and_then-Ends _ (at_key-Calm k c h) λ a t e.
    and_then-Ends _ (deref-Calm a t) λ n t' e'. point_to_last-Calm k (Methods.splice_to_end n t')

get_entry-Calm : (k : Str) (c : Cache) → Holds k c → Calm (λ a t. Unit) (Methods.get_entry k c)
unfolding Methods.get_entry
get_entry-Calm k c h =
    and_then-Ends _ (make_most_recently_used-Calm k c h)
      λ u t h'. Ends-mono (at_key-Calm k t h') (λ a v e. tt) (λ v b. b)

found-Calm :
    (k : Str) (o : Option ℕ) (c : Cache)
    → Calm
        (λ a t. Unit)
        ((elim o as (λ _. M Cache (Unit {0})) [
          | none ↦ pure tt
          | some a ↦ Methods.drop_found (Methods.outside k) a
        ])
          c)
unfolding Methods.drop_found
found-Calm k none c = returned tt
found-Calm k (some a) c = and_then-Ends _ (deref-Calm a c) λ n t e. returned tt

drop_entry-Calm :
    (k : Str) (c : Cache) → Calm (λ a t. Unit) (Methods.drop_entry (Methods.outside k) c)
unfolding Methods.drop_entry
drop_entry-Calm k c = found-Calm k (lookup k c.hash_table) c

release-Calm :
    (k : Str) (c : Cache)
    → Holds k c
    → Calm
        (λ u t. Unit)
        ((do
          a ← Methods.get_entry k
          Methods.update_entry a Entry.decrement_use
          e ← Methods.load_entry a
          if e.in_use == 0 && not e.completed
              then Methods.drop_entry (Methods.outside k)
              else pure tt)
          c)
unfolding Methods.update_entry Methods.load_entry
release-Calm k c held = and_then-Ends _ (get_entry-Calm k c held) λ a d q.
    and_then-Ends {Q = λ u t. Unit {0}} _ (and_then-Ends _ (deref-Calm a d) λ n t e. returned tt)
      λ u t q'.
        and_then-Ends {Q = λ n t. Unit {0}} _
          (and_then-Ends _ (deref-Calm a t) λ n v e. returned tt)
          λ n v q''.
            if-Ends (n.in_use == 0 && not n.completed) _ (pure tt) v (λ e. drop_entry-Calm k v)
              (λ e. returned tt)

pub disuse_entry-Calm : (k : Str) (c : Cache) → Calm (λ u t. Unit) (Methods.disuse_entry k c)
unfolding Methods.disuse_entry
disuse_entry-Calm k c =
    if-Ends (Methods.contains k c) _ (pure tt) c (release-Calm k c) (λ e. returned tt)
