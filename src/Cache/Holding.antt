-- ===== src/Cache/Holding.antt =====
-- What `getEntry` and `read` of src/cache/cache.cpp find under a key that the cache holds.
use spx.Prelude.{
  ◌==◌, false, ℕ, ◌+◌, ◌≤◌, ◌<◌, ◌≡◌, ◌≢◌, refl, List, ap, ◌∙◌, [], ◌∷◌, ◌++◌, none, some, take,
  drop, length, Str, leb, arith, true, inl, inr, sym,
}
use mathlib.Core.Path.{subst}
use spx.Prelude.Words.{size_mod, int_mod}
use spx.Outcome.{Exn, key_not_found, Outcome, returns, throws, fault, ◌>>=◌}
use spx.Cache.Entry
use spx.Cache.Entry.{Entry}
use spx.Cache.Store.{erase_node}
use spx.Cache.Nodes.{find_node-NoKey, find_node-total, addr_of-absent}
use spx.Cache.Methods
use spx.Cache.Methods.{Cache}
use spx.Cache.Spec
use spx.Cache.Spec.{View, view, entries, find, remove, touch, Items}
use spx.Cache.Invariant.{IsValid, node}
use spx.Cache.Entries.{find-absent}
use spx.Cache.Space.{write-Refines}
use spx.Cache.Refinement.{
  Refines, Held, key_cases, read-Refines, get_entry-Refines, disuse_entry-Refines,
  use_entry-Refines,
}

-- A valid cache holds `e` under `key`.
pub record Holds (c : Cache) (key : Str) (e : Entry) : Type 0 where
  pub valid : IsValid c
  pub present : find key (view c).items ≡ some e

-- What a specification returns, the method returns.
pub Refines-inv :
    {A : Type 0} (m : Outcome Cache A) (s : Outcome View A) (b : A) (v : View)
    → Refines m s
    → s ≡ returns b v
    → (c : Cache) × (m ≡ returns b c) × IsValid c × (view c ≡ v)
Refines-inv (returns a c) (returns b' v') b v h e = (c, cc, h.0, cc)
Refines-inv (throws x c) (throws y d) b v h e = cc
Refines-inv (fault x) (fault y) b v h e = cc
Refines-inv (returns a c) (throws d v') b v h e = absurd h
Refines-inv (returns a c) (fault y) b v h e = absurd h
Refines-inv (throws x c) (returns b' v') b v h e = absurd h
Refines-inv (throws x c) (fault y) b v h e = absurd h
Refines-inv (fault x) (returns b' v') b v h e = absurd h
Refines-inv (fault x) (throws d v') b v h e = absurd h

Refines-inv_throws :
    {A : Type 0} (m : Outcome Cache A) (s : Outcome View A) (x : Exn) (v : View)
    → Refines m s
    → s ≡ throws x v
    → (c : Cache) × (m ≡ throws x c)
Refines-inv_throws (returns a c) (returns b' v') x v h e = cc
Refines-inv_throws (throws y c) (throws z d) x v h e = (c, cc)
Refines-inv_throws (fault y) (fault z) x v h e = cc
Refines-inv_throws (returns a c) (throws d v') x v h e = absurd h
Refines-inv_throws (returns a c) (fault y) x v h e = absurd h
Refines-inv_throws (throws y c) (returns b' v') x v h e = absurd h
Refines-inv_throws (throws y c) (fault z) x v h e = absurd h
Refines-inv_throws (fault y) (returns b' v') x v h e = absurd h
Refines-inv_throws (fault y) (throws d v') x v h e = absurd h

find-append :
    (k : Str) (e : Entry) (l : Items) → find k l ≡ none → find k (l ++ (k, e) ∷ []) ≡ some e
unfolding find
find-append k e [] h = ground arith
find-append k e ((j, d) ∷ l) h = ground (arith, find-append k e l)

find-append_other :
    (k j : Str) (e : Entry) (l : Items) → j ≢ k → find j (l ++ (k, e) ∷ []) ≡ find j l
unfolding find
find-append_other k j e [] n = ground arith
find-append_other k j e ((i, d) ∷ l) n = ground (arith, find-append_other k j e l n)

find-remove_other : (k j : Str) (l : Items) → j ≢ k → find j (remove k l) ≡ find j l
unfolding find remove
find-remove_other k j [] n = refl
find-remove_other k j ((i, d) ∷ l) n = ground (arith, find-remove_other k j l n)

find-touch_other : (k j : Str) (e : Entry) (l : Items) → j ≢ k → find j (touch k e l) ≡ find j l
find-touch_other k j e l n = find-append_other k j e (remove k l) n ∙ find-remove_other k j l n

module _ (c : Cache) (key : Str) (e : Entry) (h : Holds c key e) where
  holding : (a : ℕ) × Held c key a e
  holding = elim (key_cases c key h.valid) [
    | inl (miss, absent) ↦ let p = h.present in absurd (cc)
    | inr (a, d, held) ↦
        let same : d ≡ e = ground (arith, held.present, h.present) in
        (a, subst (Held c key a) same held)
  ]

  find-remove : find key (remove key (entries c.list)) ≡ none
  find-remove =
      let (a, held) = holding in
      let gone = find_node-NoKey a (node a key e) c.list h.valid.distinct held.found in
      let absent =
        find-absent key (erase_node a c.list) (addr_of-absent key (erase_node a c.list) gone) in
      ap (find key) (sym held.rest) ∙ absent

  find-touch : (e' : Entry) → find key (touch key e' (entries c.list)) ≡ some e'
  find-touch e' = find-append key e' (remove key (entries c.list)) find-remove

  pub Holds-word : length e.buffer < size_mod
  Holds-word =
      let (a, held) = holding in
      let v = h.valid in
      omega (arith, find_node-total a (node a key e) c.list held.found, v.sized, v.bounded, v.word)

  -- The entry is found, and is still held when it has become the latest.
  pub get_entry-Holds :
      (d : Cache) × ((Methods.get_entry key >>= Methods.load_entry) c ≡ returns e d) × Holds d key e
  unfolding Spec.lookup_entry
  get_entry-Holds =
      let v = record (view c) { items = touch key e (entries c.list) } in
      let (d, p, valid, same) =
        Refines-inv _ (Spec.lookup_entry key (view c)) e v (get_entry-Refines c key h.valid)
          (ground (arith, h.present)) in
      (d, p, record { valid = valid; present = ap (λ w. find key w.items) same ∙ find-touch e })

  pub read-Holds :
      (offset len : ℕ)
      → offset + len ≤ length e.buffer
      → (d : Cache) × (Methods.read key offset len c ≡ returns (take len (drop offset e.buffer)) d)
        × Holds d key e
  unfolding Spec.read
  read-Holds offset len le =
      let v = record (view c) { items = touch key e (entries c.list) } in
      let fits : leb (offset + len) (Entry.size e) ≡ true = ground arith in
      let (d, p, valid, same) =
        Refines-inv _ (Spec.read key offset len (view c)) (take len (drop offset e.buffer)) v
          (read-Refines c key h.valid offset len) (ground (arith, h.present)) in
      (d, p, record { valid = valid; present = ap (λ w. find key w.items) same ∙ find-touch e })

  -- Bytes for which there is room are appended to the entry, and to no other.
  pub write-Holds :
      (buf : List ℕ)
      → Spec.total_size (entries c.list) + length buf ≤ c.max_size
      → (d : Cache) × (Methods.write key buf c ≡ returns tt d)
        × Holds d key (Entry.append_bytes buf e)
        × ((j : Str) (x : Entry) → j ≢ key → Holds c j x → Holds d j x)
  unfolding Spec.write Methods.contains
  write-Holds buf room =
      let e' = Entry.append_bytes buf e in
      let v = record (view c) { items = touch key e' (entries c.list) } in
      let fits : leb (Spec.total_size (entries c.list) + length buf) c.max_size ≡ true =
        ground arith in
      let (a, held) = holding in
      let has : Methods.contains key c ≡ true = ground (arith, held.indexed) in
      let (d, p, valid, same) =
        Refines-inv _ (Spec.write key buf (view c)) tt v (write-Refines c h.valid key buf has)
          (ground (arith, h.present)) in
      let seen : (j : Str) → find j (view d).items ≡ find j (touch key e' (entries c.list)) =
        λ j. ap (λ w. find j w.items) same in
      (
        d,
        p,
        record { valid = valid; present = seen key ∙ find-touch e' },
        λ j x n k. record {
          valid = valid;
          present = seen j ∙ find-touch_other key j e' (entries c.list) n ∙ k.present;
        },
      )

  -- One user more.
  pub use_entry-Holds :
      (d : Cache) × (Methods.use_entry key c ≡ returns tt d) × Holds d key (Entry.increment_use e)
  unfolding Spec.use_entry
  use_entry-Holds =
      let e' = Entry.increment_use e in
      let v = record (view c) { items = touch key e' (entries c.list) } in
      let (d, p, valid, same) =
        Refines-inv _ (Spec.use_entry key (view c)) tt v (use_entry-Refines c key h.valid)
          (ground (arith, h.present)) in
      (d, p, record { valid = valid; present = ap (λ w. find key w.items) same ∙ find-touch e' })

  -- An entry with several users is still held when one of them goes.
  pub disuse_entry-Holds :
      (d : Cache)
      → 2 ≤ e.in_use
      → e.in_use < int_mod
      → Methods.disuse_entry key c ≡ returns tt d
      → Holds d key (Entry.decrement_use e)
  unfolding Spec.disuse_entry
  disuse_entry-Holds d two word run =
      let e' = Entry.decrement_use e in
      let v = record (view c) { items = touch key e' (entries c.list) } in
      let used : (e'.in_use == 0) ≡ false = ground arith in
      let (b, p, valid, same) =
        Refines-inv _ (Spec.disuse_entry key (view c)) tt v (disuse_entry-Refines c key h.valid)
          (ground (arith, h.present)) in
      let one : b ≡ d = ground (arith, p, run) in
      subst (λ x. Holds x key e') one
        (record { valid = valid; present = ap (λ w. find key w.items) same ∙ find-touch e' })

  -- A complete entry is still held when a user of it goes.
  pub disuse_entry_complete :
      e.completed ≡ true
      → (d : Cache) × (Methods.disuse_entry key c ≡ returns tt d)
        × Holds d key (Entry.decrement_use e)
  unfolding Spec.disuse_entry
  disuse_entry_complete whole =
      let e' = Entry.decrement_use e in
      let v = record (view c) { items = touch key e' (entries c.list) } in
      let (d, p, valid, same) =
        Refines-inv _ (Spec.disuse_entry key (view c)) tt v (disuse_entry-Refines c key h.valid)
          (ground (arith, h.present)) in
      (d, p, record { valid = valid; present = ap (λ w. find key w.items) same ∙ find-touch e' })

  -- The last user of an entry that is not complete takes it away.
  pub disuse_entry-last :
      (d : Cache)
      → e.in_use ≡ 1
      → e.completed ≡ false
      → Methods.disuse_entry key c ≡ returns tt d
      → (d' : Cache) × ((Methods.get_entry key >>= Methods.load_entry) d ≡ throws key_not_found d')
  unfolding Spec.disuse_entry Spec.lookup_entry
  disuse_entry-last d one partial run =
      let v = record (view c) { items = remove key (entries c.list) } in
      let (b, p, valid, same) =
        Refines-inv _ (Spec.disuse_entry key (view c)) tt v (disuse_entry-Refines c key h.valid)
          (ground (arith, h.present)) in
      let same_cache : b ≡ d = ground (arith, p, run) in
      let gone : find key (view d).items ≡ none =
        ap (λ x. find key (view x).items) (sym same_cache)
        ∙ ap (λ w. find key w.items) same
        ∙ find-remove in
      Refines-inv_throws _ (Spec.lookup_entry key (view d)) key_not_found (view d)
        (get_entry-Refines d key (subst IsValid same_cache valid)) (ground (arith, gone))
