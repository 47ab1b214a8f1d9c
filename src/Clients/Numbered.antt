-- ===== src/Clients/Numbered.antt =====
-- The numbers of the clients of src/clients_list.cpp: the allocator has given out each of them.
use spx.Prelude.{
  ℕ, suc, zero, ◌≡◌, ◌≤◌, ◌<◌, refl, List, [], ◌∷◌, Option, none, some, inl, inr, Option-cases,
  arith,
}
use spx.Outcome.{M, Outcome, within}
use spx.Outcome.Kept.{Kept, kept_returns, kept_fault, Kept-within}
use spx.Net.Sys.{Sys, Host, Fd}
use spx.Net.ActiveSocket.{ActiveSocket}
use spx.Net.Onward.{From}
use spx.Http.Parser.{Parser}
use spx.Clients.Client
use spx.Clients.Client.{Client, Self}
use spx.Clients.ClientsList
use spx.Clients.ClientsList.{
  ClientsList, find_client, store_client, slot, set_slot, no_clients, assign_slot, accept_client,
  discard_client,
}
use spx.Clients.Onward.{At, destroy_client-Onward}

module _ {lib : Parser} where
  abbrev pub AllNumbered : ℕ → List (Option (Client lib)) → Type 0
  AllNumbered n [] = Unit
  AllNumbered n (none ∷ l) = AllNumbered n l
  AllNumbered n (some c ∷ l) = (c.id < n) × AllNumbered n l

  pub AllNumbered-mono :
      (n m : ℕ) (l : List (Option (Client lib))) → n ≤ m → AllNumbered n l → AllNumbered m l
  AllNumbered-mono n m [] k a = tt
  AllNumbered-mono n m (none ∷ l) k a = AllNumbered-mono n m l k a
  AllNumbered-mono n m (some c ∷ l) k a = (omega (arith, k, a.0), AllNumbered-mono n m l k a.1)

  AllNumbered-found :
      (n id : ℕ) (l : List (Option (Client lib))) (c : Client lib)
      → find_client id l ≡ some c
      → AllNumbered n l
      → c.id < n
  unfolding find_client
  AllNumbered-found n id [] c e a = cc
  AllNumbered-found n id (none ∷ l) c e a = AllNumbered-found n id l c e a
  AllNumbered-found n id (some d ∷ l) c e a = ground (arith, AllNumbered-found n id l c)

  -- The next number is no client's.
  pub AllNumbered-fresh :
      (n : ℕ) (l : List (Option (Client lib))) → AllNumbered n l → find_client n l ≡ none
  unfolding find_client
  AllNumbered-fresh n [] a = refl
  AllNumbered-fresh n (none ∷ l) a = AllNumbered-fresh n l a
  AllNumbered-fresh n (some d ∷ l) a = ground (arith, AllNumbered-fresh n l a.1)

  store_client-AllNumbered :
      (n : ℕ) (c : Client lib) (l : List (Option (Client lib)))
      → c.id < n
      → AllNumbered n l
      → AllNumbered n (store_client c l)
  unfolding store_client
  store_client-AllNumbered n c [] k a = tt
  store_client-AllNumbered n c (none ∷ l) k a = store_client-AllNumbered n c l k a
  store_client-AllNumbered n c (some d ∷ l) k a =
      ground (arith, store_client-AllNumbered n c l k a.1)

  set_slot-none-AllNumbered :
      (n i : ℕ) (l : List (Option (Client lib)))
      → AllNumbered n l
      → AllNumbered n (set_slot l i none)
  unfolding set_slot
  set_slot-none-AllNumbered n i [] a = tt
  set_slot-none-AllNumbered n zero (none ∷ l) a = a
  set_slot-none-AllNumbered n zero (some d ∷ l) a = a.1
  set_slot-none-AllNumbered n (suc i) (none ∷ l) a = set_slot-none-AllNumbered n i l a
  set_slot-none-AllNumbered n (suc i) (some d ∷ l) a = (a.0, set_slot-none-AllNumbered n i l a.1)

  set_slot-some-AllNumbered :
      (n i : ℕ) (c : Client lib) (l : List (Option (Client lib)))
      → c.id < n
      → AllNumbered n l
      → AllNumbered n (set_slot l i (some c))
  unfolding set_slot
  set_slot-some-AllNumbered n i c [] k a = tt
  set_slot-some-AllNumbered n zero c (none ∷ l) k a = (k, a)
  set_slot-some-AllNumbered n zero c (some d ∷ l) k a = (k, a.1)
  set_slot-some-AllNumbered n (suc i) c (none ∷ l) k a = set_slot-some-AllNumbered n i c l k a
  set_slot-some-AllNumbered n (suc i) c (some d ∷ l) k a =
      (a.0, set_slot-some-AllNumbered n i c l k a.1)

pub no_clients-AllNumbered : (lib : Parser) (n k : ℕ) → AllNumbered {lib = lib} n (no_clients k)
no_clients-AllNumbered lib n zero = tt
no_clients-AllNumbered lib n (suc k) = no_clients-AllNumbered lib n k

module _ {lib : Parser} {W : Type 0} where
  -- Each client's number is below the next one.
  abbrev pub Numbered : ClientsList lib W → Type 0
  Numbered s = AllNumbered s.host.next_id s.slots

  pub host-Numbered :
      {A : Type 0} (m : Outcome (Host W) A) (s : ClientsList lib W)
      → Kept (From s.host.next_id) m
      → Numbered s
      → Kept Numbered (within (λ h. record s { host = h }) m)
  host-Numbered m s k a = Kept-within _ m k (λ h q. AllNumbered-mono _ _ s.slots q a)

  pub on_client-Numbered :
      {A : Type 0} (id : ℕ) (m : M (Self lib W) A) (s : ClientsList lib W)
      → ((n i : ℕ) (t : Self lib W) → At n i t → Kept (At n i) (m t))
      → Numbered s
      → Kept Numbered (ClientsList.on_client id m s)
  unfolding ClientsList.on_client
  on_client-Numbered id m s go a = elim (Option-cases (find_client id s.slots)) [
    | inl e ↦ rw (ClientsList.on_client, e) (kept_fault tt)
    | inr (c, e) ↦
        let k = AllNumbered-found s.host.next_id id s.slots c e a in
        rw (ClientsList.on_client, e)
          (Kept-within _ (m (record { client = c; host = s.host }))
            (go s.host.next_id c.id (record { client = c; host = s.host }) (refl, omega arith))
            (λ t q.
              store_client-AllNumbered t.host.next_id t.client s.slots (ground (arith, q.0, q.1, k))
                (AllNumbered-mono _ _ s.slots q.1 a)))
  ]

  module _ (sys : Sys W) where
    replace-Numbered :
        (i : ℕ) (v : Option (Client lib)) (o : Option (Option (Client lib))) (s : ClientsList lib W)
        → AllNumbered s.host.next_id (set_slot s.slots i v)
        → Kept Numbered (ClientsList.replace sys i v o s)
    replace-Numbered i v none s a = (kept_fault tt)
    replace-Numbered i v (some none) s a = kept_returns a
    replace-Numbered i v (some (some old)) s a =
        host-Numbered (Client.destroy sys old s.host) (record s { slots = set_slot s.slots i v })
          (destroy_client-Onward sys s.host.next_id old s.host (omega arith)) a

    assign_slot-Numbered :
        (fd : Fd) (v : Option (Client lib)) (s : ClientsList lib W)
        → ((i : ℕ) → AllNumbered s.host.next_id (set_slot s.slots i v))
        → Kept Numbered (assign_slot sys fd v s)
    unfolding assign_slot
    assign_slot-Numbered none v s a = (kept_fault tt)
    assign_slot-Numbered (some i) v s a = replace-Numbered i v (slot s.slots i) s (a i)

    pub accept_client-Numbered :
        (conn : ActiveSocket) (s : ClientsList lib W)
        → Numbered s
        → Kept Numbered (accept_client sys conn s)
    unfolding accept_client Client.create
    accept_client-Numbered conn s a =
        let n = s.host.next_id in
        let more = AllNumbered-mono n (suc n) s.slots (omega arith) a in
        assign_slot-Numbered conn.fd _ _
          λ i. set_slot-some-AllNumbered (suc n) i _ s.slots (omega arith) more

    pub discard_client-Numbered :
        (id : ℕ) (s : ClientsList lib W) → Numbered s → Kept Numbered (discard_client sys id s)
    unfolding discard_client
    discard_client-Numbered id s a = elim (Option-cases (find_client id s.slots)) [
      | inl e ↦ rw (discard_client, e) (kept_fault tt)
      | inr (c, e) ↦
          rw (discard_client, e)
            (assign_slot-Numbered c.client_connection.fd none s
              (λ i. set_slot-none-AllNumbered s.host.next_id i s.slots a))
    ]
