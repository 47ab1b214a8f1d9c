-- ===== src/Cache/Refinement.antt =====
-- The methods of `Cache` of src/cache implement their specification: from a valid state each ends as
-- the specification does, with the same result or exception, and in a valid state with its view.
use spx.Prelude.{
  get_last?-append, ℕ, ◌+◌, ◌≤◌, ◌≡◌, ◌⊎◌, refl, take, drop, ◌∙◌, sym, [], ◌∷◌, ◌++◌, none, some,
  Str, arith, Option-cases, inl, inr, Bool-cases, leb, ◌==◌, ◌&&◌, not,
}
use spx.Prelude.Words.{sub_size}
use spx.Outcome.{Outcome, Exn, Fault, ◌>>=◌, returns, throws, fault, key_not_found, out_of_bounds}
use spx.Cache.Entry
use spx.Cache.Entry.{Entry}
use spx.Cache.Store.{find_node, erase_node, lookup, assign}
use spx.Cache.Nodes.{NoAddr, erase_node-gone, find_node-total}
use spx.Cache.Methods
use spx.Cache.Methods.{Cache}
use spx.Cache.Spec
use spx.Cache.Spec.{View, view, entries, find, touch, remove}
use spx.Cache.Invariant.{
  IsValid, node, placed, dropped, lookup-find_node, placed-IsValid, dropped-IsValid, pushed-IsValid,
}
use spx.Cache.Effects.{
  make_most_recently_used_miss, make_most_recently_used_hit, get_entry_miss, get_entry_hit,
  load_entry-placed, update_entry-placed, back-placed, drop_entry-placed,
}
use spx.Cache.Entries.{find-absent, find-addr_of, entries-erase_node, entries-append}

-- An outcome of a method and one of its specification agree.
abbrev pub Refines : {A : Type 0} → Outcome Cache A → Outcome View A → Type 0
Refines (returns a c) (returns b v) = IsValid c × (view c ≡ v) × (a ≡ b)
Refines (throws e c) (throws d v) = IsValid c × (view c ≡ v) × (e ≡ d)
Refines (fault x) (fault y) = x ≡ y
Refines _ _ = ⊥

module _ {A : Type 0} {m : Outcome Cache A} {s : Outcome View A} where
  pub Refines-returns :
      (a : A) (c : Cache) (v : View)
      → m ≡ returns a c
      → s ≡ returns a v
      → IsValid c
      → view c ≡ v
      → Refines m s
  Refines-returns a c v p q valid same = rw (p, q) (valid, same, refl)

  pub Refines-throws :
      (e : Exn) (c : Cache) → m ≡ throws e c → s ≡ throws e (view c) → IsValid c → Refines m s
  Refines-throws e c p q valid = rw (p, q) (valid, refl, refl)

  pub Refines-fault : (x : Fault) → m ≡ fault x → s ≡ fault x → Refines m s
  Refines-fault x p q = rw (p, q) refl

-- The cache holds `e` under `key`, in the node `a`.
pub record Held (c : Cache) (key : Str) (a : ℕ) (e : Entry) : Type 0 where
  pub indexed : lookup key c.hash_table ≡ some a
  pub found : find_node a c.list ≡ some (node a key e)
  pub present : find key (entries c.list) ≡ some e
  pub gone : NoAddr a (erase_node a c.list)
  pub rest : entries (erase_node a c.list) ≡ remove key (entries c.list)

abbrev pub Absent : Cache → Str → Type 0
Absent c key = (lookup key c.hash_table ≡ none) × (find key (entries c.list) ≡ none)

module _ (c : Cache) (key : Str) (v : IsValid c) where
  pub Held-indexed : (a : ℕ) → lookup key c.hash_table ≡ some a → (e : Entry) × Held c key a e
  Held-indexed a h =
      let (e, found) = lookup-find_node c key a v h in
      let i = sym (v.indexed key) ∙ h in
      (
        e,
        record {
          indexed = h;
          found = found;
          present = find-addr_of key a e c.list v.distinct i found;
          gone = erase_node-gone a c.list v.distinct;
          rest = entries-erase_node key a c.list v.distinct i;
        },
      )

  -- The hash table and the view know the same keys.
  pub key_cases : Absent c key ⊎ ((a : ℕ) × (e : Entry) × Held c key a e)
  key_cases = elim (Option-cases (lookup key c.hash_table)) [
    | inl miss ↦ inl (miss, find-absent key c.list (sym (v.indexed key) ∙ miss))
    | inr (a, hit) ↦ let (e, h) = Held-indexed a hit in inr (a, e, h)
  ]

module _ (c : Cache) (key : Str) (a : ℕ) (e : Entry) (h : Held c key a e) where
  pub view-placed :
      (e' : Entry) (s : ℕ)
      → view (placed a key e' s c) ≡ record (view c) { items = touch key e' (entries c.list) }
  view-placed e' s = ground (arith, entries-append (erase_node a c.list) a key e', h.rest)

  pub view-dropped :
      (s : ℕ) → view (dropped a key s c) ≡ record (view c) { items = remove key (entries c.list) }
  view-dropped s = ground (arith, h.rest)

module _ (c : Cache) (key : Str) (v : IsValid c) where
  -- An entry that becomes the latest with a new value refines `touch`.
  pub placed-Refines :
      {A : Type 0} {m : Outcome Cache A} {s : Outcome View A} (r : A) (a : ℕ) (e e' : Entry) (n : ℕ)
      → Held c key a e
      → m ≡ returns r (placed a key e' n c)
      → s ≡ returns r (record (view c) { items = touch key e' (entries c.list) })
      → n + Entry.size e ≡ c.current_size + Entry.size e'
      → n ≤ c.max_size
      → Refines m s
  placed-Refines r a e e' n h p q sum le =
      Refines-returns r (placed a key e' n c) _ p q (placed-IsValid c a key e v h.found e' n sum le)
        (view-placed c key a e h e' n)

  size-sub :
      (a : ℕ) (e : Entry)
      → Held c key a e
      → sub_size c.current_size (Entry.size e) + Entry.size e ≡ c.current_size
  size-sub a e h =
      omega (arith, find_node-total a (node a key e) c.list h.found, v.sized, v.bounded, v.word)

  -- A read returns the bytes asked for and makes the entry the latest; a missing key throws, and
  -- bytes beyond the entry are read out of bounds.
  pub read-Refines :
      (offset len : ℕ) → Refines (Methods.read key offset len c) (Spec.read key offset len (view c))
  unfolding Methods.read Spec.read
  read-Refines offset len = elim (key_cases c key v) [
    | inl (miss, absent) ↦
        Refines-throws key_not_found c (ground (arith, make_most_recently_used_miss c key miss))
          (ground arith) v
    | inr (a, e, h) ↦
        let hit = make_most_recently_used_hit c a key e h.indexed h.found in
        let latest = back-placed c a key e c.current_size h.gone in
        elim (Bool-cases (leb (offset + len) (Entry.size e))) [
          | inl fits ↦
              placed-Refines (take len (drop offset e.buffer)) a e e c.current_size h
                (ground (arith, hit, latest)) (ground (arith, h.present)) refl v.bounded
          | inr over ↦
              Refines-fault out_of_bounds (ground (arith, hit, latest)) (ground (arith, h.present))
        ]
  ]

  -- A use of a missing key adds an entry with one user; any other use counts one user more.
  pub use_entry-Refines : Refines (Methods.use_entry key c) (Spec.use_entry key (view c))
  unfolding Methods.use_entry Methods.contains Spec.use_entry
  use_entry-Refines = elim (key_cases c key v) [
    | inl (miss, absent) ↦
        let n = node c.next_addr key Entry.new_entry in
        Refines-returns tt
          (record (Methods.push_back key c) { hash_table = assign key c.next_addr c.hash_table })
          (record (view c) { items = entries c.list ++ (key, Entry.new_entry) ∷ [] })
          (ground (arith, get_last?-append c.list n)) (ground arith) (pushed-IsValid c key v miss)
          (ground (arith, entries-append c.list c.next_addr key Entry.new_entry))
    | inr (a, e, h) ↦
        placed-Refines tt a e (Entry.increment_use e) c.current_size h
          (ground (
            arith,
            h.indexed,
            get_entry_hit c a key e h.indexed h.found,
            update_entry-placed c a key e c.current_size h.gone Entry.increment_use,
          ))
          (ground (arith, h.present)) refl v.bounded
  ]

  -- From a valid cache, to get the entry of a key that is held makes it the latest, and a missing key
  -- throws `KeyNotFoundException` and changes nothing; the cache stays valid.
  pub get_entry-Refines :
      Refines {A = Entry}
        ((Methods.get_entry key >>= Methods.load_entry) c)
        (Spec.lookup_entry key (view c))
  unfolding Spec.lookup_entry
  get_entry-Refines = elim (key_cases c key v) [
    | inl (miss, absent) ↦
        Refines-throws key_not_found c (ground (arith, get_entry_miss c key miss)) (ground arith) v
    | inr (a, e, h) ↦
        placed-Refines e a e e c.current_size h
          (ground (
            arith,
            get_entry_hit c a key e h.indexed h.found,
            load_entry-placed c a key e c.current_size h.gone,
          ))
          (ground (arith, h.present)) refl v.bounded
  ]

  -- The last user of an entry that is not complete removes it, with its bytes; any other end of use
  -- counts one user less.
  pub disuse_entry-Refines : Refines (Methods.disuse_entry key c) (Spec.disuse_entry key (view c))
  unfolding Methods.disuse_entry Methods.contains Spec.disuse_entry
  disuse_entry-Refines = elim (key_cases c key v) [
    | inl (miss, absent) ↦ Refines-returns tt c (view c) (ground arith) (ground arith) v refl
    | inr (a, e, h) ↦
        let e' = Entry.decrement_use e in
        let s = c.current_size in
        let got = get_entry_hit c a key e h.indexed h.found in
        let counted = update_entry-placed c a key e s h.gone Entry.decrement_use in
        let seen = load_entry-placed c a key e' s h.gone in
        let gone = drop_entry-placed c a key e' s h.gone in
        elim (Bool-cases (e'.in_use == 0 && not e'.completed)) [
          | inl last ↦
              Refines-returns tt (dropped a key (sub_size s (Entry.size e')) c)
                (record (view c) { items = remove key (entries c.list) })
                (ground (arith, h.indexed, got, counted, seen, gone, last))
                (ground (arith, h.present, last))
                (dropped-IsValid c a key e v h.found _ (size-sub a e h))
                (view-dropped c key a e h (sub_size s (Entry.size e')))
          | inr more ↦
              placed-Refines tt a e e' s h (ground (arith, h.indexed, got, counted, seen, more))
                (ground (arith, h.present, more)) refl v.bounded
        ]
  ]
