-- ===== src/Cache/Spec.antt =====
-- What `Cache` of src/cache promises, with no list nodes, iterators, hash table or running size: the
-- entries with their keys, the least recently used first, and what each method makes of them.
use spx.Prelude.{
  ℕ, ◌+◌, Bool, false, ◌&&◌, ◌||◌, not, List, [], ◌∷◌, ◌++◌, map, Option, none, some, ite, Str,
  str_discrete, if◌then◌else◌, leb, ◌==◌, length, take, drop,
}
use spx.Outcome.{
  M, all_in_use, key_not_found, use_after_free, out_of_bounds, returns, throws, fault,
}
use spx.Cache.Entry
use spx.Cache.Entry.{Entry}
use spx.Cache.Store.{Node}
use spx.Cache.Methods.{Cache}

abbrev pub Items : Type 0
Items = List (Str × Entry)

pub record View : Type 0 where
  pub max_size : ℕ
  pub items : Items

abbrev pub entries : List Node → Items
entries = map λ n. (n.key, n.entry)

abbrev pub view : Cache → View
view c = record { max_size = c.max_size; items = entries c.list }

unfoldable pub find : Str → Items → Option Entry
find k [] = none
find k ((j, e) ∷ l) = ite (str_discrete j k) (some e) (find k l)

unfoldable pub remove : Str → Items → Items
remove k [] = []
remove k ((j, e) ∷ l) = ite (str_discrete j k) l ((j, e) ∷ remove k l)

-- The entry of a key, with a new value, becomes the most recently used one.
abbrev pub touch : Str → Entry → Items → Items
touch k e l = remove k l ++ (k, e) ∷ []

unfoldable pub total_size : Items → ℕ
total_size [] = 0
total_size ((k, e) ∷ l) = Entry.size e + total_size l

unfoldable pub any_unused : Items → Bool
any_unused [] = false
any_unused ((k, e) ∷ l) = (e.in_use == 0) || any_unused l

abbrev pub Change : Type 0 → Type 0
Change A = M View A

-- `getEntry` and `makeMostRecentlyUsed`: the entry is looked up and becomes the latest.
unfoldable pub lookup_entry : Str → Change Entry
lookup_entry key v = elim (find key v.items) [
  | none ↦ throws key_not_found v
  | some e ↦ returns e (record v { items = touch key e v.items })
]

unfoldable pub read : Str → ℕ → ℕ → Change (List ℕ)
read key offset len v = elim (find key v.items) [
  | none ↦ throws key_not_found v
  | some e ↦
      if leb (offset + len) (Entry.size e)
      then returns (take len (drop offset e.buffer)) (record v { items = touch key e v.items })
      else fault out_of_bounds
]

-- A write that fits appends to the entry of its key. One that does not fit throws if every entry is
-- in use, and else leaves defined behaviour, since the eviction uses the key of an erased node.
unfoldable pub write : Str → List ℕ → Change (Unit {0})
write key buf v =
    if leb (total_size v.items + length buf) v.max_size
    then (elim (find key v.items) [
      | none ↦ throws key_not_found v
      | some e ↦ returns tt (record v { items = touch key (Entry.append_bytes buf e) v.items })
    ])
    else if any_unused v.items
    then fault use_after_free
    else throws all_in_use v

unfoldable pub use_entry : Str → Change (Unit {0})
use_entry key v = elim (find key v.items) [
  | none ↦ returns tt (record v { items = v.items ++ (key, Entry.new_entry) ∷ [] })
  | some e ↦ returns tt (record v { items = touch key (Entry.increment_use e) v.items })
]

-- The last user of an entry that is not complete takes it away.
unfoldable pub disuse_entry : Str → Change (Unit {0})
disuse_entry key v = elim (find key v.items) [
  | none ↦ returns tt v
  | some e ↦
      let e' = Entry.decrement_use e in
      if e'.in_use == 0 && not e'.completed
      then returns tt (record v { items = remove key v.items })
      else returns tt (record v { items = touch key e' v.items })
]
