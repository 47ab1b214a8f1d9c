-- ===== src/Server/Safety/Slots.antt =====
-- Lemmas on the table of clients of src/clients_list.cpp: a client stands at the index that is its
-- descriptor, and is found by the address of its object.
use spx.Prelude.{
  ap, ℕ, zero, suc, ◌+◌, ◌≡◌, ◌≢◌, ◌==◌, List, [], ◌∷◌, Option, none, some, if◌then◌else◌,
  Bool-cases, inl, inr, arith,
}
use spx.Http.Parser.{Parser}
use spx.Clients.Client.{Client}
use spx.Clients.ClientsList.{find_client, store_client, slot, set_slot}

abbrev pub Slots : Parser → Type 0
Slots lib = List (Option (Client lib))

module _ {lib : Parser} where
  -- From index `k` on, each client stands at its descriptor.
  abbrev pub Placed : ℕ → Slots lib → Type 0
  Placed k [] = Unit
  Placed k (none ∷ l) = Placed (suc k) l
  Placed k (some c ∷ l) = (c.client_connection.fd ≡ some k) × Placed (suc k) l

  abbrev pub Live : ℕ → Slots lib → Type 0
  Live id l = (c : Client lib) × (find_client id l ≡ some c)

  pub find_client-id :
      (id : ℕ) (l : Slots lib) (c : Client lib) → find_client id l ≡ some c → c.id ≡ id
  unfolding find_client
  find_client-id id [] c e = cc
  find_client-id id (none ∷ l) c e = find_client-id id l c e
  find_client-id id (some d ∷ l) c e = ground (arith, find_client-id id l c)

  pub find_client-store_client :
      (j : ℕ) (l : Slots lib) (c d : Client lib)
      → find_client d.id l ≡ some c
      → find_client j (store_client d l) ≡ (if d.id == j then some d else find_client j l)
  unfolding find_client store_client
  find_client-store_client j [] c d e = cc
  find_client-store_client j (none ∷ l) c d e = find_client-store_client j l c d e
  find_client-store_client j (some x ∷ l) c d e = ground (arith, find_client-store_client j l c d)

  pub store_client-Placed :
      (k : ℕ) (l : Slots lib) (c d : Client lib)
      → Placed k l
      → find_client d.id l ≡ some c
      → d.client_connection ≡ c.client_connection
      → Placed k (store_client d l)
  unfolding find_client store_client
  store_client-Placed k [] c d p e q = tt
  store_client-Placed k (none ∷ l) c d p e q = store_client-Placed (suc k) l c d p e q
  store_client-Placed k (some x ∷ l) c d p e q =
      ground (arith, store_client-Placed (suc k) l c d p.1)

  pub set_slot-Placed : (k n : ℕ) (l : Slots lib) → Placed k l → Placed k (set_slot l n none)
  unfolding set_slot
  set_slot-Placed k n [] p = tt
  set_slot-Placed k zero (none ∷ l) p = p
  set_slot-Placed k zero (some c ∷ l) p = p.1
  set_slot-Placed k (suc n) (none ∷ l) p = set_slot-Placed (suc k) n l p
  set_slot-Placed k (suc n) (some c ∷ l) p = (p.0, set_slot-Placed (suc k) n l p.1)

  -- The table without one client.
  abbrev pub remove_client : ℕ → Slots lib → Slots lib
  remove_client id [] = []
  remove_client id (none ∷ l) = none ∷ remove_client id l
  remove_client id (some c ∷ l) = if c.id == id then none ∷ l else some c ∷ remove_client id l

  -- A live client stands at its descriptor, and to clear that slot touches no other client.
  pub find_client-slot :
      (k id : ℕ) (l : Slots lib) (c : Client lib)
      → Placed k l
      → find_client id l ≡ some c
      → (n : ℕ) × (c.client_connection.fd ≡ some (k + n))
        × (slot l n ≡ some (some c))
        × (set_slot l n none ≡ remove_client id l)
        × ((j : ℕ) → j ≢ id → find_client j (set_slot l n none) ≡ find_client j l)
  unfolding find_client slot set_slot
  find_client-slot k id [] c p e = cc
  find_client-slot k id (none ∷ l) c p e =
      let (n, f, s, r, o) = find_client-slot (suc k) id l c p e in
      (suc n, ground arith, s, ap (λ t. none ∷ t) r, o)
  find_client-slot k id (some d ∷ l) c p e = elim (Bool-cases (d.id == id)) [
    | inl hit ↦ (0, ground arith, ground arith, ground arith, λ j h. ground arith)
    | inr miss ↦
        let (n, f, s, r, o) = find_client-slot (suc k) id l c p.1 (ground arith) in
        (suc n, ground arith, s, ground arith, λ j h. ground (arith, o j h))
  ]
