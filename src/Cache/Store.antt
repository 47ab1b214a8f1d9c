-- ===== src/Cache/Store.antt =====
-- src/cache/cache.h, the two containers of `Cache`: `std::list` as a list of nodes, each with the
-- address that its iterators and references hold, and `std::unordered_map` from keys to iterators.
use spx.Prelude.{ℕ, List, [], ◌∷◌, Option, none, some, ite, Str, ℕ_discrete}
unfoldable pub use spx.Dict.{lookup, assign, erase_key}
use spx.Cache.Entry.{Entry}

pub record Node : Type 0 where
  pub addr : ℕ
  pub key : Str
  pub entry : Entry

-- The node at an address, if it is still in the list.
unfoldable pub find_node : ℕ → List Node → Option Node
find_node a [] = none
find_node a (n ∷ l) = ite (ℕ_discrete n.addr a) (some n) (find_node a l)

-- `list_.erase`.
unfoldable pub erase_node : ℕ → List Node → List Node
erase_node a [] = []
erase_node a (n ∷ l) = ite (ℕ_discrete n.addr a) l (n ∷ erase_node a l)

-- A write through a reference to an entry.
unfoldable pub modify_node : ℕ → (Entry → Entry) → List Node → List Node
modify_node a f [] = []
modify_node a f (n ∷ l) =
    ite (ℕ_discrete n.addr a) (record n { entry = f n.entry } ∷ l) (n ∷ modify_node a f l)

abbrev pub Table : Type 0
Table = List (Str × ℕ)
