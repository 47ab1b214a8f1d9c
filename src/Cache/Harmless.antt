-- ===== src/Cache/Harmless.antt =====
-- The methods of `Cache` of src/cache know of no client.
use spx.Prelude.{
  ℕ, zero, suc, List, Option, none, some, inl, inr, Option-cases, Bool-cases, ltb, ◌==◌, ◌&&◌, not,
  if◌then◌else◌, Str, arith,
}
use spx.Dict.{lookup}
use spx.Outcome.{M, pure}
use spx.Outcome.Ends.{Harmless, and_then-Harmless, if-Harmless}
use spx.Cache.Entry
use spx.Cache.Entry.{Entry}
use spx.Cache.Methods
use spx.Cache.Methods.{Cache, KeyRef}

pub make_most_recently_used-Harmless :
    (k : Str) (c : Cache) → Harmless (Methods.make_most_recently_used k c)
unfolding Methods.make_most_recently_used
make_most_recently_used-Harmless k c = ground arith

pub get_entry-Harmless : (k : Str) (c : Cache) → Harmless (Methods.get_entry k c)
unfolding Methods.get_entry
get_entry-Harmless k c =
    and_then-Harmless _ _ (make_most_recently_used-Harmless k c) λ u d. ground arith

pub update_entry-Harmless :
    (a : ℕ) (f : Entry → Entry) (c : Cache) → Harmless (Methods.update_entry a f c)
unfolding Methods.update_entry
update_entry-Harmless a f c = ground arith

pub load_entry-Harmless : (a : ℕ) (c : Cache) → Harmless (Methods.load_entry a c)
unfolding Methods.load_entry
load_entry-Harmless a c = ground arith

pub read-Harmless : (k : Str) (offset len : ℕ) (c : Cache) → Harmless (Methods.read k offset len c)
unfolding Methods.read
read-Harmless k offset len c =
    and_then-Harmless _ _ (make_most_recently_used-Harmless k c) λ u d. ground arith

drop_found-Harmless : (k : KeyRef) (a : ℕ) (c : Cache) → Harmless (Methods.drop_found k a c)
unfolding Methods.drop_found
drop_found-Harmless (Methods.outside k) a c = ground arith
drop_found-Harmless (Methods.in_node b) a c = ground arith

load_key-Harmless : (k : KeyRef) (c : Cache) → Harmless (Methods.load_key k c)
load_key-Harmless (Methods.outside k) c = tt
load_key-Harmless (Methods.in_node b) c = ground arith

found-Harmless :
    (k : KeyRef) (o : Option ℕ) (c : Cache)
    → Harmless (
        (elim o as (λ _. M Cache (Unit {0})) [ none ↦ pure tt | some a ↦ Methods.drop_found k a ])
          c)
found-Harmless k none c = tt
found-Harmless k (some a) c = drop_found-Harmless k a c

drop_entry-Harmless : (k : KeyRef) (c : Cache) → Harmless (Methods.drop_entry k c)
unfolding Methods.drop_entry
drop_entry-Harmless k c =
    and_then-Harmless _ _ (load_key-Harmless k c) λ j d. found-Harmless k (lookup j d.hash_table) d

remove_least_recently_used-Harmless : (c : Cache) → Harmless (Methods.remove_least_recently_used c)
unfolding Methods.remove_least_recently_used
remove_least_recently_used-Harmless c = elim (Option-cases (Methods.find_unused c.list)) [
  | inl e ↦ ground arith
  | inr (n, e) ↦
      rw (e, Methods.remove_least_recently_used) (drop_entry-Harmless (Methods.in_node n.addr) c)
]

free_space_loop-Harmless :
    (fuel needed : ℕ) (c : Cache) → Harmless (Methods.free_space_loop fuel needed c)
unfolding Methods.free_space_loop
free_space_loop-Harmless zero needed c = tt
free_space_loop-Harmless (suc fuel) needed c =
    elim (Bool-cases (ltb (Methods.get_free_space c) needed)) [
      | inl short ↦ rw short (
          and_then-Harmless _ _ (remove_least_recently_used-Harmless c)
            (λ u d. free_space_loop-Harmless fuel needed d))
      | inr enough ↦ rw enough tt
    ]

write_to_front-Harmless : (buf : List ℕ) (c : Cache) → Harmless (Methods.write_to_front buf c)
unfolding Methods.write_to_front Methods.update_entry
write_to_front-Harmless buf c = ground arith

pub write-Harmless : (k : Str) (buf : List ℕ) (c : Cache) → Harmless (Methods.write k buf c)
unfolding Methods.write Methods.free_space Methods.append
write-Harmless k buf c = and_then-Harmless _ _ (free_space_loop-Harmless _ _ c) λ u d.
    and_then-Harmless _ _ (make_most_recently_used-Harmless k _)
      λ v e. write_to_front-Harmless buf e

pub use_entry-Harmless : (k : Str) (c : Cache) → Harmless (Methods.use_entry k c)
unfolding Methods.use_entry
use_entry-Harmless k c = elim (Bool-cases (Methods.contains k c)) [
  | inl held ↦ rw held (
      and_then-Harmless _ _ (get_entry-Harmless k c)
        (λ a d. update_entry-Harmless a Entry.increment_use d))
  | inr missing ↦ rw missing (ground arith)
]

drop_last-Harmless :
    (k : Str) (n : Entry) (c : Cache)
    → Harmless (
        (if n.in_use == 0 && not n.completed
            then Methods.drop_entry (Methods.outside k)
            else pure tt)
          c)
drop_last-Harmless k n c =
    if-Harmless (n.in_use == 0 && not n.completed) (Methods.drop_entry (Methods.outside k))
      (pure tt) c (drop_entry-Harmless (Methods.outside k) c) tt

pub disuse_entry-Harmless : (k : Str) (c : Cache) → Harmless (Methods.disuse_entry k c)
unfolding Methods.disuse_entry
disuse_entry-Harmless k c = elim (Bool-cases (Methods.contains k c)) [
  | inl held ↦ rw held (
      and_then-Harmless _ _ (get_entry-Harmless k c) λ a d.
        and_then-Harmless _ _ (update_entry-Harmless a Entry.decrement_use d)
          λ u e. and_then-Harmless _ _ (load_entry-Harmless a e) λ n f. drop_last-Harmless k n f)
  | inr missing ↦ rw missing tt
]
