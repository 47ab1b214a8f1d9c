-- ===== src/Cache/Sound.antt =====
-- The condition on `Cache` of src/cache that its methods keep also when they throw: a write under a
-- missing key counts its bytes and then throws, so the running size may be more than the entries hold.
pub mod Calls
use spx.Prelude.{
  ℕ, ◌+◌, ◌≤◌, ◌≡◌, ◌⊎◌, refl, ◌∙◌, sym, [], ◌∷◌, ◌++◌, List, none, Str, arith, length,
  length-append, inl, inr, Bool-cases, leb, ltb, ◌==◌, ◌&&◌, not, get_last?-append,
}
use spx.Prelude.Words.{add_size, sub_size}
use spx.Outcome.{◌>>=◌, returns, throws, fault, all_in_use, use_after_free}
use spx.Outcome.Kept.{Kept, kept_returns, kept_throws, kept_fault}
use spx.Cache.Entry
use spx.Cache.Entry.{Entry}
use spx.Cache.Store.{erase_node, lookup, assign}
use spx.Cache.Nodes.{total, erase_node-gone, find_node-total, find_node-absent}
use spx.Cache.Back.{total-append}
use spx.Cache.Methods
use spx.Cache.Methods.{
  Cache, push_back, get_free_space, free_space, free_space_loop, remove_least_recently_used,
}
use spx.Cache.Spec.{entries, any_unused}
use spx.Cache.Invariant.{
  IsValid, node, placed, dropped, placed-IsValid, dropped-IsValid, pushed-IsValid, create-IsValid,
}
use spx.Cache.Effects.{
  make_most_recently_used_miss, make_most_recently_used_hit, get_entry_miss, get_entry_hit,
  load_entry-placed, update_entry-placed, back-placed, drop_entry-placed, write_to_front-placed,
  drop_entry-in_node,
}
use spx.Cache.Entries.{find_unused-none, find_unused-some}
use spx.Cache.Refinement.{Held, Absent, key_cases}

-- The cache with the bytes of its entries as its running size.
abbrev pub rated : Cache → Cache
rated c = record c { current_size = total c.list }

-- Keys and addresses occur once, the hash table leads each key to its node and to nothing else, and
-- the entries hold no more bytes than the running size, which is within the limit `limit`.
pub record IsSound (limit : ℕ) (c : Cache) : Type 0 where
  pub valid : IsValid (rated c)
  pub counted : total c.list ≤ c.current_size
  pub bounded : c.current_size ≤ c.max_size
  pub limited : c.max_size ≡ limit

pub IsValid-IsSound : (c : Cache) → IsValid c → IsSound c.max_size c
IsValid-IsSound c v = record {
  valid = rw (sym v.sized) v;
  counted = omega (arith, v.sized);
  bounded = v.bounded;
  limited = refl;
}

module _ {limit : ℕ} (c : Cache) (key : Str) (k : IsSound limit c) where
  sound_cases : Absent (rated c) key ⊎ ((a : ℕ) × (e : Entry) × Held (rated c) key a e)
  sound_cases = key_cases (rated c) key k.valid

  module _ (a : ℕ) (e : Entry) (h : Held (rated c) key a e) where
    placed-IsSound :
        (e' : Entry) (s : ℕ)
        → s + Entry.size e ≡ c.current_size + Entry.size e'
        → s ≤ c.max_size
        → IsSound limit (placed a key e' s c)
    placed-IsSound e' s sum le =
        let n = node a key e' in
        let gone = find_node-total a (node a key e) c.list h.found in
        let back = total-append n (erase_node a c.list) in
        let new = total (erase_node a c.list ++ n ∷ []) in
        record {
          valid =
              placed-IsValid (rated c) a key e k.valid h.found e' new (omega (arith, gone, back))
                (omega (arith, gone, back, sum, le, k.counted));
          counted = omega (arith, gone, back, sum, k.counted);
          bounded = le;
          limited = k.limited;
        }

    dropped-IsSound :
        (s : ℕ) → s + Entry.size e ≡ c.current_size → IsSound limit (dropped a key s c)
    dropped-IsSound s sum =
        let gone = find_node-total a (node a key e) c.list h.found in
        record {
          valid =
              dropped-IsValid (rated c) a key e k.valid h.found (total (erase_node a c.list))
                (omega (arith, gone));
          counted = omega (arith, gone, sum, k.counted);
          bounded = omega (arith, sum, k.bounded);
          limited = k.limited;
        }

    size-sub : sub_size c.current_size (Entry.size e) + Entry.size e ≡ c.current_size
    size-sub =
        omega (
          arith,
          find_node-total a (node a key e) c.list h.found,
          k.counted,
          k.bounded,
          k.valid.word,
        )

pub create-IsSound : IsSound 16777216 (Methods.create 16777216)
unfolding Methods.create
create-IsSound = IsValid-IsSound (Methods.create 16777216) (create-IsValid 16777216 (omega arith))
