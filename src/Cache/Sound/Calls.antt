-- ===== src/Cache/Sound/Calls.antt =====
-- The methods of `Cache` of src/cache keep a sound cache.
use spx.Prelude.{
  ℕ, ◌+◌, ◌≤◌, ◌≡◌, ◌⊎◌, refl, ◌∙◌, [], ◌∷◌, ◌++◌, List, none, Str, arith, length, length-append,
  inl, inr, Bool-cases, leb, ltb, ◌==◌, ◌&&◌, not, get_last?-append,
}
use spx.Prelude.Words.{add_size}
use spx.Outcome.{◌>>=◌, returns, throws, fault, all_in_use, use_after_free}
use spx.Outcome.Kept.{Kept, kept_returns, kept_throws, kept_fault}
use spx.Cache.Entry
use spx.Cache.Entry.{Entry}
use spx.Cache.Store.{erase_node, lookup, assign}
use spx.Cache.Nodes.{total, erase_node-gone, find_node-absent}
use spx.Cache.Back.{total-append}
use spx.Cache.Methods
use spx.Cache.Methods.{
  Cache, push_back, get_free_space, free_space, free_space_loop, remove_least_recently_used,
}
use spx.Cache.Spec.{entries, any_unused}
use spx.Cache.Invariant.{node, pushed-IsValid}
use spx.Cache.Effects.{
  make_most_recently_used_miss, make_most_recently_used_hit, get_entry_miss, get_entry_hit,
  load_entry-placed, update_entry-placed, back-placed, drop_entry-placed, write_to_front-placed,
  drop_entry-in_node,
}
use spx.Cache.Entries.{find_unused-none, find_unused-some}
use spx.Cache.Sound.{IsSound, rated, sound_cases, placed-IsSound, dropped-IsSound, size-sub}

module _ {limit : ℕ} (key : Str) (c : Cache) (k : IsSound limit c) where
  pub read-IsSound : (offset len : ℕ) → Kept (IsSound limit) (Methods.read key offset len c)
  unfolding Methods.read
  read-IsSound offset len = elim (sound_cases c key k) [
    | inl (miss, absent) ↦ rw (make_most_recently_used_miss c key miss) (kept_throws k)
    | inr (a, e, h) ↦
        let hit = make_most_recently_used_hit c a key e h.indexed h.found in
        let latest = back-placed c a key e c.current_size h.gone in
        elim (Bool-cases (leb (offset + len) (Entry.size e))) [
          | inl fits ↦
              rw (hit, latest, fits)
                (kept_returns (placed-IsSound c key k a e h e c.current_size refl k.bounded))
          | inr over ↦ rw (hit, latest, over) (kept_fault tt)
        ]
  ]

  pub get_entry-IsSound : Kept (IsSound limit) ((Methods.get_entry key >>= Methods.load_entry) c)
  get_entry-IsSound = elim (sound_cases c key k) [
    | inl (miss, absent) ↦ rw (get_entry_miss c key miss) (kept_throws k)
    | inr (a, e, h) ↦
        rw
          (
            get_entry_hit c a key e h.indexed h.found,
            load_entry-placed c a key e c.current_size h.gone,
          )
          (kept_returns (placed-IsSound c key k a e h e c.current_size refl k.bounded))
  ]

  pub complete_entry-IsSound :
      Kept
        (IsSound limit)
        ((Methods.get_entry key >>= λ a. Methods.update_entry a Entry.complete) c)
  complete_entry-IsSound = elim (sound_cases c key k) [
    | inl (miss, absent) ↦ rw (get_entry_miss c key miss) (kept_throws k)
    | inr (a, e, h) ↦
        rw
          (
            get_entry_hit c a key e h.indexed h.found,
            update_entry-placed c a key e c.current_size h.gone Entry.complete,
          )
          (kept_returns
            (placed-IsSound c key k a e h (Entry.complete e) c.current_size refl k.bounded))
  ]

  pub use_entry-IsSound : Kept (IsSound limit) (Methods.use_entry key c)
  unfolding Methods.use_entry Methods.contains
  use_entry-IsSound = elim (sound_cases c key k) [
    | inl (miss, absent) ↦
        rw
          (
            miss,
            Methods.point_to_last,
            Methods.back,
            get_last?-append c.list (node c.next_addr key Entry.new_entry),
          )
          (kept_returns (pushed miss))
    | inr (a, e, h) ↦
        rw
          (
            h.indexed,
            get_entry_hit c a key e h.indexed h.found,
            update_entry-placed c a key e c.current_size h.gone Entry.increment_use,
          )
          (kept_returns
            (placed-IsSound c key k a e h (Entry.increment_use e) c.current_size refl k.bounded))
  ]
    where
      pushed :
          lookup key c.hash_table ≡ none
          → IsSound limit
              (record (push_back key c) { hash_table = assign key c.next_addr c.hash_table })
      pushed miss =
          let n = node c.next_addr key Entry.new_entry in
          let back : total (c.list ++ n ∷ []) ≡ total c.list =
            omega (arith, total-append n c.list) in
          record {
            valid = rw back (pushed-IsValid (rated c) key k.valid miss);
            counted = omega (arith, back, k.counted);
            bounded = k.bounded;
            limited = k.limited;
          }

  pub disuse_entry-IsSound : Kept (IsSound limit) (Methods.disuse_entry key c)
  unfolding Methods.disuse_entry Methods.contains
  disuse_entry-IsSound = elim (sound_cases c key k) [
    | inl (miss, absent) ↦ rw miss (kept_returns k)
    | inr (a, e, h) ↦
        let e' = Entry.decrement_use e in
        let s = c.current_size in
        let got = get_entry_hit c a key e h.indexed h.found in
        let counted = update_entry-placed c a key e s h.gone Entry.decrement_use in
        let seen = load_entry-placed c a key e' s h.gone in
        let gone = drop_entry-placed c a key e' s h.gone in
        elim (Bool-cases (e'.in_use == 0 && not e'.completed)) [
          | inl last ↦
              rw (h.indexed, got, counted, seen, last, gone)
                (kept_returns (dropped-IsSound c key k a e h _ (size-sub c key k a e h)))
          | inr more ↦
              rw (h.indexed, got, counted, seen, more)
                (kept_returns (placed-IsSound c key k a e h e' s refl k.bounded))
        ]
  ]

-- `freeSpace` of a sound cache leaves it as it is when it returns, with the room asked for.
pub free_space_cases :
    {limit : ℕ} (needed : ℕ) (c : Cache)
    → IsSound limit c
    → ((free_space needed c ≡ returns tt c) × (c.current_size + needed ≤ c.max_size))
      ⊎ ((free_space needed c ≡ throws all_in_use c) ⊎ (free_space needed c ≡ fault use_after_free))
unfolding free_space free_space_loop remove_least_recently_used get_free_space
free_space_cases needed c k = elim (Bool-cases (ltb (get_free_space c) needed)) [
  | inr room ↦ inl (ground arith, ground (arith, k.bounded, k.valid.word))
  | inl full ↦ inr (elim (Bool-cases (any_unused (entries c.list))) [
    | inl free ↦
        let (n, first, found, addr) = find_unused-some c.list k.valid.distinct free in
        inr (
          ground (
            arith,
            first,
            drop_entry-in_node c n.addr n.key n.entry (k.valid.indexed n.key ∙ addr) found (
                find_node-absent n.addr (erase_node n.addr c.list)
                  (erase_node-gone n.addr c.list k.valid.distinct)),
          ))
    | inr busy ↦ inl (ground (arith, find_unused-none c.list busy))
  ])
]

pub write-IsSound :
    {limit : ℕ} (key : Str) (buf : List ℕ) (c : Cache)
    → IsSound limit c
    → Kept (IsSound limit) (Methods.write key buf c)
unfolding Methods.write Methods.append
write-IsSound {limit = limit} key buf c k = elim (free_space_cases (length buf) c k) [
  | inr (inl busy) ↦ rw busy (kept_throws k)
  | inr (inr free) ↦ rw free (kept_fault tt)
  | inl (room, fits) ↦
      let s = add_size c.current_size (length buf) in
      let sum : s ≡ c.current_size + length buf = omega (arith, k.bounded, k.valid.word) in
      let c' : Cache = record c { current_size = s } in
      let k' : IsSound limit c' = record {
        valid = k.valid;
        counted = omega (arith, sum, k.counted);
        bounded = omega (arith, sum);
        limited = k.limited;
      } in
      elim (sound_cases c' key k') [
        | inl (miss, absent) ↦ rw (room, make_most_recently_used_miss c' key miss) (kept_throws k')
        | inr (a, e, h) ↦
            rw
              (
                room,
                make_most_recently_used_hit c' a key e h.indexed h.found,
                write_to_front-placed c' a key e s h.gone buf,
              )
              (kept_returns (
                placed-IsSound c key k a e h (Entry.append_bytes buf e) s
                  (omega (arith, sum, length-append e.buffer buf)) (omega (arith, sum))))
      ]
]
