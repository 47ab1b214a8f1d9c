-- ===== src/Cache/Invariant.antt =====
-- The invariant of `Cache` of src/cache, and the state in which a method leaves the entry that it
-- has made the most recently used one.
use spx.Prelude.{ℕ, suc, ◌+◌, ◌≤◌, ◌<◌, ◌≡◌, refl, List, [], ◌∷◌, ◌++◌, none, some, Str, arith}
use spx.Prelude.Words.{size_mod}
use spx.Cache.Entry
use spx.Cache.Entry.{Entry}
use spx.Cache.Store.{Node, find_node, erase_node, lookup, assign, erase_key}
use spx.Dict.{lookup-assign, lookup-erase_key}
use spx.Cache.Nodes.{
  NoKey, Distinct, Below, total, addr_of, NoKey-absent, NoAddr-Below, erase_node-Below,
  erase_node-Distinct, erase_node-gone, find_node-total, find_node-NoKey, find_node-Below,
  addr_of-erase_node, addr_of-find_node,
}
use spx.Cache.Back.{Distinct-append, Below-append, total-append, addr_of-append}
use spx.Cache.Methods.{Cache, push_back, create}

-- Keys and addresses occur once, the hash table leads each key to its node and to nothing else, the
-- running size is the sum of the sizes and within the limit, and the limit is a `size_t`.
pub record IsValid (c : Cache) : Type 0 where
  pub distinct : Distinct c.list
  pub indexed : (k : Str) → lookup k c.hash_table ≡ addr_of k c.list
  pub sized : c.current_size ≡ total c.list
  pub bounded : c.current_size ≤ c.max_size
  pub word : c.max_size < size_mod
  pub fresh : Below c.next_addr c.list

abbrev pub node : ℕ → Str → Entry → Node
node a key e = record { addr = a; key = key; entry = e }

-- The node `a` of `key` stands at the back with entry `e`, and the running size is `s`.
abbrev pub placed : ℕ → Str → Entry → ℕ → Cache → Cache
placed a key e s c = record c {
  current_size = s;
  list = erase_node a c.list ++ node a key e ∷ [];
  hash_table = assign key a c.hash_table;
}

abbrev pub dropped : ℕ → Str → ℕ → Cache → Cache
dropped a key s c = record c {
  current_size = s;
  list = erase_node a c.list;
  hash_table = erase_key key (assign key a c.hash_table);
}

-- What a hash table entry leads to.
pub lookup-find_node :
    (c : Cache) (key : Str) (a : ℕ)
    → IsValid c
    → lookup key c.hash_table ≡ some a
    → (e : Entry) × (find_node a c.list ≡ some (node a key e))
lookup-find_node c key a v h =
    let (n, found, k, addr) =
      addr_of-find_node key a c.list v.distinct (ground (arith, v.indexed key)) in
    (n.entry, ground arith)

module _ (c : Cache) (a : ℕ) (key : Str) (e : Entry) (v : IsValid c)
    (found : find_node a c.list ≡ some (node a key e)) where
  pub placed-IsValid :
      (e' : Entry) (s : ℕ)
      → s + Entry.size e ≡ c.current_size + Entry.size e'
      → s ≤ c.max_size
      → IsValid (placed a key e' s c)
  placed-IsValid e' s h b = record {
    distinct =
        Distinct-append n (erase_node a c.list) (erase_node-Distinct a c.list v.distinct) gone_key
          (erase_node-gone a c.list v.distinct);
    indexed = λ j. ground (
      arith,
      lookup-assign j key a c.hash_table,
      addr_of-append n j (erase_node a c.list) gone_key,
      addr_of-erase_node a (node a key e) j c.list v.distinct found,
      v.indexed j,
    );
    sized = ground (
      arith,
      total-append n (erase_node a c.list),
      find_node-total a (node a key e) c.list found,
      v.sized,
    );
    bounded = b;
    word = v.word;
    fresh =
        Below-append n c.next_addr (erase_node a c.list)
          (erase_node-Below a c.next_addr c.list v.fresh)
          (find_node-Below a (node a key e) c.next_addr c.list v.fresh found, tt);
  }
    where
      n : Node
      n = node a key e'

      gone_key : NoKey key (erase_node a c.list)
      gone_key = find_node-NoKey a (node a key e) c.list v.distinct found

  pub dropped-IsValid : (s : ℕ) → s + Entry.size e ≡ c.current_size → IsValid (dropped a key s c)
  dropped-IsValid s h = record {
    distinct = erase_node-Distinct a c.list v.distinct;
    indexed = λ j. ground (
      arith,
      lookup-assign j key a c.hash_table,
      lookup-erase_key j key (assign key a c.hash_table),
      addr_of-erase_node a (node a key e) j c.list v.distinct found,
      v.indexed j,
    );
    sized = ground (arith, find_node-total a (node a key e) c.list found, v.sized);
    bounded = ground (arith, v.bounded);
    word = v.word;
    fresh = erase_node-Below a c.next_addr c.list v.fresh;
  }

Below-suc : (b : ℕ) (l : List Node) → Below b l → Below (suc b) l
Below-suc b [] h = tt
Below-suc b (n ∷ l) h = (omega arith, Below-suc b l h.1)

-- A new entry at the back.
pub pushed-IsValid :
    (c : Cache) (key : Str)
    → IsValid c
    → lookup key c.hash_table ≡ none
    → IsValid (record (push_back key c) { hash_table = assign key c.next_addr c.hash_table })
pushed-IsValid c key v h = record {
  distinct = Distinct-append n c.list v.distinct gone_key (NoAddr-Below c.next_addr c.list v.fresh);
  indexed = λ j. ground (
    arith,
    lookup-assign j key c.next_addr c.hash_table,
    addr_of-append n j c.list gone_key,
    v.indexed j,
  );
  sized = ground (arith, total-append n c.list, v.sized);
  bounded = v.bounded;
  word = v.word;
  fresh =
      Below-append n (suc c.next_addr) c.list (Below-suc c.next_addr c.list v.fresh) (omega arith);
}
  where
    n : Node
    n = node c.next_addr key Entry.new_entry

    gone_key : NoKey key c.list
    gone_key = NoKey-absent key c.list (ground (arith, v.indexed key))

-- A new cache is valid.
pub create-IsValid : (max_bytes : ℕ) → max_bytes < size_mod → IsValid (create max_bytes)
unfolding create lookup addr_of total
create-IsValid max_bytes h = record {
  distinct = tt;
  indexed = λ k. refl;
  sized = refl;
  bounded = omega arith;
  word = h;
  fresh = tt;
}
