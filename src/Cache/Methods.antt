-- ===== src/Cache/Methods.antt =====
-- src/cache/cache.cpp and the class of src/cache/cache.h: the methods of `Cache`, as calls on its
-- state. The back of the list is the most recently used entry. A reference to an entry is the
-- address of its node. Output to the log is left out.
use spx.Prelude.{
  ℕ, zero, suc, ◌+◌, Bool, true, false, List, [], ◌∷◌, ◌++◌, Option, none, some, Str, if◌then◌else◌,
  ltb, leb, ◌==◌, ◌&&◌, not, length, take, drop, get_last?,
}
use spx.Prelude.Words.{add_size, sub_size}
use spx.Outcome.{
  M, all_in_use, key_not_found, use_after_free, dangling_iterator, null_reference, out_of_bounds,
  out_of_fuel, pure, throw, fail, ◌>>=◌, ◌>>◌, get, modify,
}
use spx.Cache.Entry
use spx.Cache.Entry.{Entry}
use spx.Cache.Store.{Node, Table, find_node, erase_node, modify_node, lookup, assign, erase_key}

-- `next_addr` is the allocator's: the address of the next node.
pub record Cache : Type 0 where
  pub max_size : ℕ
  pub current_size : ℕ
  pub list : List Node
  pub hash_table : Table
  pub next_addr : ℕ

-- A call on the cache.
abbrev pub Call : Type 0 → Type 0
Call A = M Cache A

-- `Cache::create` and the constructor.
unfoldable pub create : ℕ → Cache
create max_bytes = record {
  max_size = max_bytes;
  current_size = 0;
  list = [];
  hash_table = [];
  next_addr = 0;
}

abbrev pub is_some {ℓ} : {A : Type ℓ} → Option A → Bool
is_some none = false
is_some (some a) = true

unfoldable pub contains : Str → Cache → Bool
contains key c = is_some (lookup key c.hash_table)

unfoldable pub get_free_space : Cache → ℕ
get_free_space c = sub_size c.max_size c.current_size

-- The node that an iterator or a reference holds.
abbrev pub deref : ℕ → Call Node
deref a c = elim (find_node a c.list) [ none ↦ fail dangling_iterator c | some n ↦ pure n c ]

-- `list_.back()`.
abbrev pub back : Call Node
back c = elim (get_last? c.list) [ none ↦ fail null_reference c | some n ↦ pure n c ]

-- `list_.splice(list_.end(), list_, it)` for a valid iterator.
abbrev pub splice_to_end : Node → Cache → Cache
splice_to_end n c = record c { list = erase_node n.addr c.list ++ n ∷ [] }

-- `hash_table_[key] = std::prev(list_.end())`.
abbrev pub point_to_last : Str → Call (Unit {0})
point_to_last key = do
  n ← back
  modify (λ c. record c { hash_table = assign key n.addr c.hash_table })

-- `hash_table_.at(key)`, with the handler that turns `std::out_of_range` into `KeyNotFoundException`.
abbrev pub at_key : Str → Call ℕ
at_key key c = elim (lookup key c.hash_table) [ none ↦ throw key_not_found c | some a ↦ pure a c ]

unfoldable pub make_most_recently_used : Str → Call (Unit {0})
make_most_recently_used key = do
  a ← at_key key
  n ← deref a
  modify (splice_to_end n)
  point_to_last key

-- The reference that the C++ method returns, as an address.
unfoldable pub get_entry : Str → Call ℕ
get_entry key = do make_most_recently_used key; at_key key

-- Reads and writes of an entry through a reference.
unfoldable pub load_entry : ℕ → Call Entry
load_entry a = do n ← deref a; pure n.entry

unfoldable pub update_entry : ℕ → (Entry → Entry) → Call (Unit {0})
update_entry a f = do n ← deref a; modify (λ c. record c { list = modify_node a f c.list })

unfoldable pub write_to_front : List ℕ → Call (Unit {0})
write_to_front buf = do n ← back; update_entry n.addr (Entry.append_bytes buf)

unfoldable pub append : Str → List ℕ → Call (Unit {0})
append key buf = do make_most_recently_used key; write_to_front buf

-- The bytes `data() + offset` up to `data() + offset + len`.
abbrev pub slice : ℕ → ℕ → List ℕ → Call (List ℕ)
slice offset len bytes =
    if leb (offset + len) (length bytes)
    then pure (take len (drop offset bytes))
    else fail out_of_bounds

unfoldable pub read : Str → ℕ → ℕ → Call (List ℕ)
read key offset len = do make_most_recently_used key; n ← back; slice offset len n.entry.buffer

-- The key that `drop` is given is a reference: to a string outside the cache, or to the key inside
-- a node of the list, which dies with the node.
pub data KeyRef : Type 0 where
  outside : Str → KeyRef
  in_node : ℕ → KeyRef

abbrev pub load_key : KeyRef → Call Str
load_key (outside key) c = pure key c
load_key (in_node a) c = elim (find_node a c.list) [
  | none ↦ fail use_after_free c
  | some n ↦ pure n.key c
]

-- The statements of `drop` after its guard; `key` is read again for each of them.
unfoldable pub drop_found : KeyRef → ℕ → Call (Unit {0})
drop_found key a = do
  n ← deref a
  modify (λ c. record c { current_size = sub_size c.current_size (Entry.size n.entry) })
  modify (λ c. record c { list = erase_node a c.list })
  k ← load_key key
  modify (λ c. record c { hash_table = erase_key k c.hash_table })

unfoldable pub drop_entry : KeyRef → Call (Unit {0})
drop_entry key = do
  k ← load_key key
  c ← get
  elim (lookup k c.hash_table) [ none ↦ pure tt | some a ↦ drop_found key a ]

-- The loop of `removeLeastRecentlyUsed`: the first node, from the least recently used on, that
-- nobody uses.
unfoldable pub find_unused : List Node → Option Node
find_unused [] = none
find_unused (n ∷ l) = if n.entry.in_use == 0 then some n else find_unused l

unfoldable pub remove_least_recently_used : Call (Unit {0})
remove_least_recently_used c = elim (find_unused c.list) [
  | none ↦ throw all_in_use c
  | some n ↦ drop_entry (in_node n.addr) c
]

-- The loop of `freeSpace`, on fuel.
unfoldable pub free_space_loop : ℕ → ℕ → Call (Unit {0})
free_space_loop zero needed = fail out_of_fuel
free_space_loop (suc fuel) needed =
    let rest = free_space_loop fuel needed in
    do
      c ← get
      if ltb (get_free_space c) needed then (remove_least_recently_used >> rest) else pure tt

-- One round for each entry and one more.
unfoldable pub free_space : ℕ → Call (Unit {0})
free_space needed c = free_space_loop (suc (length c.list)) needed c

unfoldable pub write : Str → List ℕ → Call (Unit {0})
write key buf = do
  free_space (length buf)
  modify (λ c. record c { current_size = add_size c.current_size (length buf) })
  append key buf

-- `list_.push_back({key, {}})`.
abbrev pub push_back : Str → Cache → Cache
push_back key c = record c {
  list = c.list ++ record { addr = c.next_addr; key = key; entry = Entry.new_entry } ∷ [];
  next_addr = suc c.next_addr;
}

unfoldable pub use_entry : Str → Call (Unit {0})
use_entry key = do
  c ← get
  if contains key c
      then (do a ← get_entry key; update_entry a Entry.increment_use)
      else (do modify (push_back key); point_to_last key)

unfoldable pub disuse_entry : Str → Call (Unit {0})
disuse_entry key = do
  c ← get
  if contains key c
      then (do
        a ← get_entry key
        update_entry a Entry.decrement_use
        e ← load_entry a
        if e.in_use == 0 && not e.completed then drop_entry (outside key) else pure tt)
      else pure tt
