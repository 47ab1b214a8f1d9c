-- ===== src/Cache/Entries.antt =====
-- The node list of src/cache and its abstract entries.
use spx.Prelude.{
  ℕ, ◌≡◌, ◌≢◌, refl, true, false, List, [], ◌∷◌, ◌++◌, none, some, Str, arith, ◌==◌, Bool-cases,
  inl, inr,
}
use mathlib.Core.List.{map-append}
use spx.Cache.Entry.{Entry}
use spx.Cache.Store.{Node, find_node, erase_node}
use spx.Cache.Nodes.{NoAddr, Distinct, total, addr_of, find_node-absent, addr_of-absent}
use spx.Cache.Methods.{find_unused}
use spx.Cache.Spec.{entries, find, remove, total_size, any_unused}
use spx.Cache.Invariant.{node}

pub find-absent : (k : Str) (l : List Node) → addr_of k l ≡ none → find k (entries l) ≡ none
unfolding find addr_of
find-absent k [] h = refl
find-absent k (n ∷ l) h = ground (arith, find-absent k l)

pub find-addr_of :
    (k : Str) (a : ℕ) (e : Entry) (l : List Node)
    → Distinct l
    → addr_of k l ≡ some a
    → find_node a l ≡ some (node a k e)
    → find k (entries l) ≡ some e
unfolding find addr_of find_node
find-addr_of k a e [] d h f = cc
find-addr_of k a e (n ∷ l) d h f =
    ground (arith, find-addr_of k a e l d.2, find_node-absent n.addr l d.1)

addr_of-NoAddr : (a : ℕ) (k : Str) (l : List Node) → NoAddr a l → addr_of k l ≢ some a
unfolding addr_of
addr_of-NoAddr a k [] h = λ e. cc
addr_of-NoAddr a k (n ∷ l) h = λ e. ground (arith, addr_of-NoAddr a k l h.1)

pub entries-erase_node :
    (k : Str) (a : ℕ) (l : List Node)
    → Distinct l
    → addr_of k l ≡ some a
    → entries (erase_node a l) ≡ remove k (entries l)
unfolding remove addr_of erase_node
entries-erase_node k a [] d h = refl
entries-erase_node k a (n ∷ l) d h =
    ground (arith, entries-erase_node k a l d.2, addr_of-NoAddr n.addr k l d.1)

pub entries-append :
    (l : List Node) (a : ℕ) (k : Str) (e : Entry)
    → entries (l ++ node a k e ∷ []) ≡ entries l ++ (k, e) ∷ []
entries-append l a k e = map-append (λ n. (n.key, n.entry)) l (node a k e ∷ [])

pub total_size-entries : (l : List Node) → total_size (entries l) ≡ total l
unfolding total_size total
total_size-entries [] = refl
total_size-entries (n ∷ l) = omega (arith, total_size-entries l)

-- The scan for an unused entry fails exactly when every entry is in use.
pub find_unused-none : (l : List Node) → any_unused (entries l) ≡ false → find_unused l ≡ none
unfolding find_unused any_unused
find_unused-none [] h = refl
find_unused-none (n ∷ l) h = ground (arith, find_unused-none l)

pub find_unused-some :
    (l : List Node)
    → Distinct l
    → any_unused (entries l) ≡ true
    → (n : Node) × (find_unused l ≡ some n)
      × (find_node n.addr l ≡ some n)
      × (addr_of n.key l ≡ some n.addr)
unfolding find_unused any_unused find_node addr_of
find_unused-some [] d h = cc
find_unused-some (n ∷ l) d h = elim (Bool-cases (n.entry.in_use == 0)) [
  | inl free ↦ (n, ground arith, ground arith, ground arith)
  | inr used ↦
      let (m, f, g, k) = find_unused-some l d.2 (ground arith) in
      (
        m,
        ground arith,
        ground (arith, find_node-absent n.addr l d.1),
        ground (arith, addr_of-absent n.key l d.0),
      )
]
