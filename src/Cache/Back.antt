-- ===== src/Cache/Back.antt =====
-- Lemmas on a node at the back of the list of src/cache, where the most recently used entry stands.
use spx.Prelude.{ℕ, ◌+◌, ◌≡◌, refl, List, [], ◌∷◌, ◌++◌, some, ite, Str, str_discrete, arith}
use spx.Cache.Entry
use spx.Cache.Entry.{Entry}
use spx.Cache.Store.{Node, find_node, erase_node, modify_node}
use spx.Cache.Nodes.{NoKey, NoAddr, Distinct, Below, total, addr_of}

module _ (n : Node) where
  pub NoKey-append : (k : Str) (l : List Node) → NoKey k l → (n.key ≡ k → ⊥) → NoKey k (l ++ n ∷ [])
  NoKey-append k [] h p = (p, tt)
  NoKey-append k (m ∷ l) h p = (h.0, NoKey-append k l h.1 p)

  pub NoAddr-append :
      (a : ℕ) (l : List Node) → NoAddr a l → (n.addr ≡ a → ⊥) → NoAddr a (l ++ n ∷ [])
  NoAddr-append a [] h p = (p, tt)
  NoAddr-append a (m ∷ l) h p = (h.0, NoAddr-append a l h.1 p)

  pub Distinct-append :
      (l : List Node) → Distinct l → NoKey n.key l → NoAddr n.addr l → Distinct (l ++ n ∷ [])
  Distinct-append [] d k a = (tt, tt, tt)
  Distinct-append (m ∷ l) d k a = (
    NoKey-append m.key l d.0 (λ e. k.0 (ground arith)),
    NoAddr-append m.addr l d.1 (λ e. a.0 (ground arith)),
    Distinct-append l d.2 k.1 a.1,
  )

  pub Below-append : (b : ℕ) (l : List Node) → Below b l → Below b (n ∷ []) → Below b (l ++ n ∷ [])
  Below-append b [] h p = p
  Below-append b (m ∷ l) h p = (h.0, Below-append b l h.1 p)

  pub total-append : (l : List Node) → total (l ++ n ∷ []) ≡ total l + Entry.size n.entry
  unfolding total
  total-append [] = omega arith
  total-append (m ∷ l) = omega (arith, total-append l)

  pub addr_of-append :
      (j : Str) (l : List Node)
      → NoKey n.key l
      → addr_of j (l ++ n ∷ []) ≡ ite (str_discrete n.key j) (some n.addr) (addr_of j l)
  unfolding addr_of
  addr_of-append j [] h = refl
  addr_of-append j (m ∷ l) h = ground (arith, addr_of-append j l h.1)

  pub find_node-append : (l : List Node) → NoAddr n.addr l → find_node n.addr (l ++ n ∷ []) ≡ some n
  unfolding find_node
  find_node-append [] h = ground arith
  find_node-append (m ∷ l) h = ground (arith, find_node-append l h.1)

  pub erase_node-append : (l : List Node) → NoAddr n.addr l → erase_node n.addr (l ++ n ∷ []) ≡ l
  unfolding erase_node
  erase_node-append [] h = ground arith
  erase_node-append (m ∷ l) h = ground (arith, erase_node-append l h.1)

  pub modify_node-append :
      (f : Entry → Entry) (l : List Node)
      → NoAddr n.addr l
      → modify_node n.addr f (l ++ n ∷ []) ≡ l ++ record n { entry = f n.entry } ∷ []
  unfolding modify_node
  modify_node-append f [] h = ground arith
  modify_node-append f (m ∷ l) h = ground (arith, modify_node-append f l h.1)
