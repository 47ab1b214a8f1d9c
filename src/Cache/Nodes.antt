-- ===== src/Cache/Nodes.antt =====
-- Lemmas on the node list of src/cache: keys and addresses that occur once, and what erasing and
-- appending a node does to them.
use spx.Prelude.{
  ℕ, ◌+◌, ◌<◌, ◌≡◌, ◌≢◌, refl, List, [], ◌∷◌, Option, none, some, ite, Str, str_discrete, arith,
}
use spx.Cache.Entry
use spx.Cache.Entry.{Entry}
use spx.Cache.Store.{Node, find_node, erase_node}

abbrev pub NoKey : Str → List Node → Type 0
NoKey k [] = Unit
NoKey k (n ∷ l) = (n.key ≢ k) × NoKey k l

abbrev pub NoAddr : ℕ → List Node → Type 0
NoAddr a [] = Unit
NoAddr a (n ∷ l) = (n.addr ≢ a) × NoAddr a l

abbrev pub Distinct : List Node → Type 0
Distinct [] = Unit
Distinct (n ∷ l) = NoKey n.key l × NoAddr n.addr l × Distinct l

abbrev pub Below : ℕ → List Node → Type 0
Below b [] = Unit
Below b (n ∷ l) = (n.addr < b) × Below b l

-- The bytes that all entries hold.
unfoldable pub total : List Node → ℕ
total [] = 0
total (n ∷ l) = Entry.size n.entry + total l

-- The address of the first node with a key.
unfoldable pub addr_of : Str → List Node → Option ℕ
addr_of k [] = none
addr_of k (n ∷ l) = ite (str_discrete n.key k) (some n.addr) (addr_of k l)

module _ (k : Str) where
  pub addr_of-absent : (l : List Node) → NoKey k l → addr_of k l ≡ none
  unfolding addr_of
  addr_of-absent [] h = refl
  addr_of-absent (n ∷ l) h = ground (arith, addr_of-absent l h.1)

  pub NoKey-absent : (l : List Node) → addr_of k l ≡ none → NoKey k l
  unfolding addr_of
  NoKey-absent [] h = tt
  NoKey-absent (n ∷ l) h = ground (arith, NoKey-absent l)

module _ (a : ℕ) where
  pub find_node-absent : (l : List Node) → NoAddr a l → find_node a l ≡ none
  unfolding find_node
  find_node-absent [] h = refl
  find_node-absent (n ∷ l) h = ground (arith, find_node-absent l h.1)

  pub erase_node-absent : (l : List Node) → NoAddr a l → erase_node a l ≡ l
  unfolding erase_node
  erase_node-absent [] h = refl
  erase_node-absent (n ∷ l) h = ground (arith, erase_node-absent l h.1)

  pub NoAddr-Below : (l : List Node) → Below a l → NoAddr a l
  NoAddr-Below [] h = tt
  NoAddr-Below (n ∷ l) h = (omega arith, NoAddr-Below l h.1)

  pub erase_node-NoKey : (k : Str) (l : List Node) → NoKey k l → NoKey k (erase_node a l)
  unfolding erase_node
  erase_node-NoKey k [] h = tt
  erase_node-NoKey k (n ∷ l) h = ground (arith, erase_node-NoKey k l h.1)

  pub erase_node-NoAddr : (b : ℕ) (l : List Node) → NoAddr b l → NoAddr b (erase_node a l)
  unfolding erase_node
  erase_node-NoAddr b [] h = tt
  erase_node-NoAddr b (n ∷ l) h = ground (arith, erase_node-NoAddr b l h.1)

  pub erase_node-Below : (b : ℕ) (l : List Node) → Below b l → Below b (erase_node a l)
  unfolding erase_node
  erase_node-Below b [] h = tt
  erase_node-Below b (n ∷ l) h = ground (arith, erase_node-Below b l h.1)

  pub erase_node-Distinct : (l : List Node) → Distinct l → Distinct (erase_node a l)
  unfolding erase_node
  erase_node-Distinct [] h = tt
  erase_node-Distinct (n ∷ l) h = ground (
    arith,
    erase_node-Distinct l h.2,
    erase_node-NoKey n.key l h.0,
    erase_node-NoAddr n.addr l h.1,
  )

  -- The erased address is gone.
  pub erase_node-gone : (l : List Node) → Distinct l → NoAddr a (erase_node a l)
  unfolding erase_node
  erase_node-gone [] h = tt
  erase_node-gone (n ∷ l) h = ground (arith, erase_node-gone l h.2)

-- A node that the list holds at `a`.
module _ (a : ℕ) (m : Node) where
  pub find_node-addr : (l : List Node) → find_node a l ≡ some m → m.addr ≡ a
  unfolding find_node
  find_node-addr [] e = cc
  find_node-addr (n ∷ l) e = ground (arith, find_node-addr l)

  pub find_node-Below : (b : ℕ) (l : List Node) → Below b l → find_node a l ≡ some m → a < b
  unfolding find_node
  find_node-Below b [] h e = cc
  find_node-Below b (n ∷ l) h e = ground (arith, find_node-Below b l h.1)

  pub find_node-total :
      (l : List Node)
      → find_node a l ≡ some m
      → total (erase_node a l) + Entry.size m.entry ≡ total l
  unfolding find_node erase_node total
  find_node-total [] e = cc
  find_node-total (n ∷ l) e = ground (arith, find_node-total l)

  find_node-present : (k : Str) (l : List Node) → NoKey k l → find_node a l ≡ some m → m.key ≢ k
  unfolding find_node
  find_node-present k [] h e = cc
  find_node-present k (n ∷ l) h e = ground (arith, find_node-present k l h.1)

  -- Its key is gone with it.
  pub find_node-NoKey :
      (l : List Node) → Distinct l → find_node a l ≡ some m → NoKey m.key (erase_node a l)
  unfolding find_node erase_node
  find_node-NoKey [] h e = tt
  find_node-NoKey (n ∷ l) h e = ground (arith, find_node-NoKey l h.2, find_node-present n.key l h.0)

  pub addr_of-erase_node :
      (j : Str) (l : List Node)
      → Distinct l
      → find_node a l ≡ some m
      → addr_of j (erase_node a l) ≡ ite (str_discrete m.key j) none (addr_of j l)
  unfolding find_node erase_node addr_of
  addr_of-erase_node j [] h e = cc
  addr_of-erase_node j (n ∷ l) h e =
      ground (
        arith,
        addr_of-erase_node j l h.2,
        find_node-present n.key l h.0,
        addr_of-absent n.key l h.0,
      )

-- The address of a key leads to a node with that key.
pub addr_of-find_node :
    (k : Str) (a : ℕ) (l : List Node)
    → Distinct l
    → addr_of k l ≡ some a
    → (n : Node) × (find_node a l ≡ some n) × (n.key ≡ k) × (n.addr ≡ a)
unfolding find_node addr_of
addr_of-find_node k a [] h e = cc
addr_of-find_node k a (n ∷ l) h e = elim (str_discrete n.key k) [
  | yes p ↦ (n, ground arith, p, ground arith)
  | no p ↦
      let (m, found, key, addr) = addr_of-find_node k a l h.2 (ground arith) in
      (m, ground (arith, find_node-absent n.addr l h.1), key, addr)
]
