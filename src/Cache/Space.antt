-- ===== src/Cache/Space.antt =====
-- `freeSpace` and `write` of src/cache: space that is there, space that is not, and the eviction.
use spx.Prelude.{
  ℕ, ◌+◌, ◌≤◌, ◌<◌, ◌≡◌, ◌∙◌, true, false, List, Str, arith, length, inl, inr, Bool-cases, leb,
  length-append, leb→le,
}
use spx.Prelude.Words.{add_size}
use spx.Outcome.{returns, throws, fault, key_not_found, use_after_free, all_in_use}
use spx.Cache.Entry
use spx.Cache.Entry.{Entry}
use spx.Cache.Store.{erase_node}
use spx.Cache.Nodes.{erase_node-gone, find_node-absent}
use spx.Cache.Methods
use spx.Cache.Methods.{
  Cache, get_free_space, free_space, free_space_loop, remove_least_recently_used, find_unused,
}
use spx.Cache.Spec
use spx.Cache.Spec.{View, view, entries, find, any_unused, total_size}
use spx.Cache.Invariant.{IsValid, placed}
use spx.Cache.Effects.{
  make_most_recently_used_miss, make_most_recently_used_hit, write_to_front-placed,
  drop_entry-in_node,
}
use spx.Cache.Entries.{total_size-entries, find_unused-none, find_unused-some}
use spx.Cache.Refinement.{Refines, Held, key_cases, Refines-throws, Refines-fault, placed-Refines}

-- The free space of a valid cache does not wrap around.
pub get_free_space_lem :
    (c : Cache) → IsValid c → get_free_space c + total_size (entries c.list) ≡ c.max_size
unfolding get_free_space
get_free_space_lem c v = omega (arith, total_size-entries c.list, v.sized, v.bounded, v.word)

module _ (c : Cache) (v : IsValid c) where
  -- With every entry in use, an eviction throws and changes nothing.
  pub remove_least_recently_used_busy :
      any_unused (entries c.list) ≡ false → remove_least_recently_used c ≡ throws all_in_use c
  unfolding remove_least_recently_used
  remove_least_recently_used_busy h = ground (arith, find_unused-none c.list h)

  -- With an entry that nobody uses, the eviction erases its node and then reads the key in it.
  pub remove_least_recently_used_free :
      any_unused (entries c.list) ≡ true → remove_least_recently_used c ≡ fault use_after_free
  unfolding remove_least_recently_used
  remove_least_recently_used_free h =
      let (n, first, found, addr) = find_unused-some c.list v.distinct h in
      ground (
        arith,
        first,
        drop_entry-in_node c n.addr n.key n.entry (v.indexed n.key ∙ addr) found (
            find_node-absent n.addr (erase_node n.addr c.list)
              (erase_node-gone n.addr c.list v.distinct)),
      )

  module _ (needed : ℕ) where
    pub free_space_enough :
        total_size (entries c.list) + needed ≤ c.max_size → free_space needed c ≡ returns tt c
    unfolding free_space free_space_loop
    free_space_enough h = ground (arith, get_free_space_lem c v)

    pub free_space_busy :
        c.max_size < total_size (entries c.list) + needed
        → any_unused (entries c.list) ≡ false
        → free_space needed c ≡ throws all_in_use c
    unfolding free_space free_space_loop
    free_space_busy h u = ground (arith, get_free_space_lem c v, remove_least_recently_used_busy u)

    pub free_space_free :
        c.max_size < total_size (entries c.list) + needed
        → any_unused (entries c.list) ≡ true
        → free_space needed c ≡ fault use_after_free
    unfolding free_space free_space_loop
    free_space_free h u = ground (arith, get_free_space_lem c v, remove_least_recently_used_free u)

  module _ (key : Str) (buf : List ℕ) where
    write_fits :
        (a : ℕ) (e : Entry)
        → Held c key a e
        → total_size (entries c.list) + length buf ≤ c.max_size
        → Methods.write key buf c
          ≡ returns tt
              (placed a key (Entry.append_bytes buf e) (add_size c.current_size (length buf)) c)
    unfolding Methods.write Methods.append
    write_fits a e h fits =
        let s = add_size c.current_size (length buf) in
        let c' : Cache = record c { current_size = s } in
        ground (
          arith,
          free_space_enough (length buf) fits,
          make_most_recently_used_hit c' a key e h.indexed h.found,
          write_to_front-placed c' a key e s h.gone buf,
        )

    add_size_fits :
        total_size (entries c.list) + length buf ≤ c.max_size
        → add_size c.current_size (length buf) ≡ c.current_size + length buf
    add_size_fits fits = omega (arith, total_size-entries c.list, v.sized, v.word)

    current_size_lem : c.current_size ≡ total_size (entries c.list)
    current_size_lem = omega (arith, total_size-entries c.list, v.sized)

    -- A write under a key of the cache refines its specification: with room it appends to that entry
    -- alone and the cache stays within its limit; without room it throws if every entry is in use,
    -- and else the eviction leaves defined behaviour.
    pub write-Refines :
        Methods.contains key c ≡ true
        → Refines (Methods.write key buf c) (Spec.write key buf (view c))
    unfolding Methods.contains Methods.write Spec.write
    write-Refines has = elim (key_cases c key v) [
      | inl (miss, absent) ↦ absurd (ground arith)
      | inr (a, e, h) ↦
          elim (Bool-cases (leb (total_size (entries c.list) + length buf) c.max_size)) [
            | inl fits ↦
                placed-Refines c key v tt a e (Entry.append_bytes buf e)
                  (add_size c.current_size (length buf)) h (write_fits a e h (ground arith))
                  (ground (arith, h.present))
                  (omega (arith, add_size_fits (ground arith), length-append e.buffer buf))
                  (omega (arith, add_size_fits (ground arith), current_size_lem, leb→le _ _ fits))
            | inr full ↦ elim (Bool-cases (any_unused (entries c.list))) [
              | inl free ↦
                  Refines-fault use_after_free
                    (ground (arith, free_space_free (length buf) (ground arith) free))
                    (ground arith)
              | inr busy ↦
                  Refines-throws all_in_use c
                    (ground (arith, free_space_busy (length buf) (ground arith) busy))
                    (ground arith) v
            ]
          ]
    ]

    -- A write under a key that the cache does not hold, with room for its bytes, throws after it has
    -- counted them: the running size is then more than the entries hold.
    pub write_missing :
        Methods.contains key c ≡ false
        → total_size (entries c.list) + length buf ≤ c.max_size
        → Methods.write key buf c
          ≡ throws key_not_found (record c { current_size = c.current_size + length buf })
    unfolding Methods.contains Methods.write Methods.append
    write_missing absent fits = elim (key_cases c key v) [
      | inl (miss, _) ↦
          let c' : Cache = record c { current_size = c.current_size + length buf } in
          ground (
            arith,
            free_space_enough (length buf) fits,
            add_size_fits fits,
            make_most_recently_used_miss c' key miss,
          )
      | inr (a, e, h) ↦ absurd (ground (arith, h.indexed))
    ]
