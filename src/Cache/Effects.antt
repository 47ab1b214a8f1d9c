-- ===== src/Cache/Effects.antt =====
-- What the steps of the methods of `Cache` of src/cache do to a valid state.
use spx.Prelude.{ℕ, ◌≡◌, List, none, some, Str, arith, get_last?-append}
use spx.Prelude.Words.{sub_size}
use spx.Outcome.{returns, throws, fault, key_not_found, use_after_free}
use spx.Cache.Entry
use spx.Cache.Entry.{Entry}
use spx.Cache.Store.{find_node, erase_node, lookup}
use spx.Dict.{lookup-assign_self}
use spx.Cache.Nodes.{NoAddr}
use spx.Cache.Back.{find_node-append, erase_node-append, modify_node-append}
use spx.Cache.Methods.{
  Cache, make_most_recently_used, get_entry, load_entry, update_entry, back, drop_entry, drop_found,
  outside, in_node, write_to_front,
}
use spx.Cache.Invariant.{node, placed, dropped}

module _ (c : Cache) (key : Str) where
  pub make_most_recently_used_miss :
      lookup key c.hash_table ≡ none → make_most_recently_used key c ≡ throws key_not_found c
  unfolding make_most_recently_used
  make_most_recently_used_miss h = ground arith

  pub get_entry_miss : lookup key c.hash_table ≡ none → get_entry key c ≡ throws key_not_found c
  unfolding get_entry
  get_entry_miss h = ground (arith, make_most_recently_used_miss h)

module _ (c : Cache) (a : ℕ) (key : Str) where
  pub make_most_recently_used_hit :
      (e : Entry)
      → lookup key c.hash_table ≡ some a
      → find_node a c.list ≡ some (node a key e)
      → make_most_recently_used key c ≡ returns tt (placed a key e c.current_size c)
  unfolding make_most_recently_used
  make_most_recently_used_hit e h found =
      ground (arith, get_last?-append (erase_node a c.list) (node a key e))

  pub get_entry_hit :
      (e : Entry)
      → lookup key c.hash_table ≡ some a
      → find_node a c.list ≡ some (node a key e)
      → get_entry key c ≡ returns a (placed a key e c.current_size c)
  unfolding get_entry
  get_entry_hit e h found =
      ground (arith, make_most_recently_used_hit e h found, lookup-assign_self key a c.hash_table)

  module _ (e : Entry) (s : ℕ) (gone : NoAddr a (erase_node a c.list)) where
    pub load_entry-placed : load_entry a (placed a key e s c) ≡ returns e (placed a key e s c)
    unfolding load_entry
    load_entry-placed = ground (arith, find_node-append (node a key e) (erase_node a c.list) gone)

    pub update_entry-placed :
        (f : Entry → Entry)
        → update_entry a f (placed a key e s c) ≡ returns tt (placed a key (f e) s c)
    unfolding update_entry
    update_entry-placed f = ground (
      arith,
      find_node-append (node a key e) (erase_node a c.list) gone,
      modify_node-append (node a key e) f (erase_node a c.list) gone,
    )

    pub back-placed : back (placed a key e s c) ≡ returns (node a key e) (placed a key e s c)
    back-placed = ground (arith, get_last?-append (erase_node a c.list) (node a key e))

    pub write_to_front-placed :
        (buf : List ℕ)
        → write_to_front buf (placed a key e s c)
          ≡ returns tt (placed a key (Entry.append_bytes buf e) s c)
    unfolding write_to_front
    write_to_front-placed buf = ground (
      arith,
      get_last?-append (erase_node a c.list) (node a key e),
      update_entry-placed (Entry.append_bytes buf),
    )

    -- `drop` with a key that outlives the node.
    pub drop_entry-placed :
        drop_entry (outside key) (placed a key e s c)
        ≡ returns tt (dropped a key (sub_size s (Entry.size e)) c)
    unfolding drop_entry drop_found
    drop_entry-placed = ground (
      arith,
      lookup-assign_self key a c.hash_table,
      find_node-append (node a key e) (erase_node a c.list) gone,
      erase_node-append (node a key e) (erase_node a c.list) gone,
    )

-- `drop` with the key inside the node reads that key when the node is gone.
pub drop_entry-in_node :
    (c : Cache) (a : ℕ) (key : Str) (e : Entry)
    → lookup key c.hash_table ≡ some a
    → find_node a c.list ≡ some (node a key e)
    → find_node a (erase_node a c.list) ≡ none
    → drop_entry (in_node a) c ≡ fault use_after_free
unfolding drop_entry drop_found
drop_entry-in_node c a key e h found gone = ground arith
