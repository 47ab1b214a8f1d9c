-- ===== src/Server/Discarding.antt =====
-- The steps of `Server::discardClient` of src/server.cpp, computed.
use spx.Prelude.{
  ℕ, zero, suc, ◌≡◌, ◌≢◌, refl, ap, ◌∙◌, ◌==◌, ◌&&◌, not, true, false, Bool-cases, inl, inr, List,
  [], ◌∷◌, none, some, Option, Option-cases, Str, arith,
}
use spx.Outcome.{returns}
use spx.Dict.{lookup, assign, lookup-assign_self}
use spx.Cache.Methods
use spx.Cache.Spec
use spx.Cache.Spec.{View, view}
use spx.Cache.Entry
use spx.Cache.Invariant.{IsValid}
use spx.Cache.Refinement.{disuse_entry-Refines}
use spx.Cache.Holding.{Refines-inv}
use spx.Net.Sys.{Sys, Host}
use spx.Net.TcpSocket
use spx.Net.TcpSocket.{same_fd}
use spx.Net.ActiveSocket
use spx.Net.ActiveSocket.{ActiveSocket}
use spx.Http.Parser.{Parser}
use spx.Clients.Client
use spx.Clients.Client.{Client, same_client, destroy_connection}
use spx.Clients.ClientsList
use spx.Clients.ClientsList.{find_client, search_fd, slot, set_slot}
use spx.Server.State.{Server, load, request_clients}
use spx.Server.Requests.{without_client, remove_from_request_clients, has_clients_with_request}
use spx.Server.Discard.{pass_on_connection, is_waiting_response}
use spx.Server.Safety.Slots.{Placed, find_client-slot, remove_client}

module _ {W : Type 0} (sys : Sys W) where
  socket_destroyed :
      (s : ActiveSocket) (h : Host W) → (g : Host W) × (ActiveSocket.destroy sys s h ≡ returns tt g)
  unfolding ActiveSocket.destroy TcpSocket.destroy TcpSocket.close
  socket_destroyed s h = elim (Bool-cases (TcpSocket.is_valid s.socket)) [
    | inl e ↦ (record h { world = sys.close s.fd h.world }, rw e refl)
    | inr e ↦ (h, rw e refl)
  ]

  connection_destroyed :
      (s : Option ActiveSocket) (h : Host W)
      → (g : Host W) × (destroy_connection sys s h ≡ returns tt g)
  connection_destroyed none h = (h, refl)
  connection_destroyed (some s) h = socket_destroyed s h

  client_destroyed :
      {lib : Parser} (c : Client lib) (h : Host W)
      → (g : Host W) × (Client.destroy sys c h ≡ returns tt g)
  unfolding Client.destroy
  client_destroyed c h =
      let (g, p) = connection_destroyed c.server_connection h in
      let (g', p') = socket_destroyed c.client_connection g in (g', rw (p, p') refl)

slot-set_slot :
    {A : Type 0} (l : List (Option A)) (n : ℕ) (v x : Option A)
    → slot l n ≡ some x
    → slot (set_slot l n v) n ≡ some v
unfolding slot set_slot
slot-set_slot [] n v x e = cc
slot-set_slot (y ∷ l) zero v x e = refl
slot-set_slot (y ∷ l) (suc n) v x e = slot-set_slot l n v x e

disuse_entry-returns :
    (key : Str) (v : View) → (w : View) × (Spec.disuse_entry key v ≡ returns tt w)
unfolding Spec.disuse_entry
disuse_entry-returns key v = elim (Option-cases (Spec.find key v.items)) [
  | inl e ↦ (v, rw (Spec.disuse_entry, e) refl)
  | inr (x, e) ↦
      let x' = Entry.decrement_use x in
      elim (Bool-cases (x'.in_use == 0 && not x'.completed)) [
        | inl last ↦
            (record v { items = Spec.remove key v.items }, rw (Spec.disuse_entry, e, last) refl)
        | inr more ↦
            (record v { items = Spec.touch key x' v.items }, rw (Spec.disuse_entry, e, more) refl)
      ]
]

pub disused :
    (key : Str) (c : Methods.Cache)
    → IsValid c
    → (d : Methods.Cache) × (Methods.disuse_entry key c ≡ returns tt d)
disused key c v =
    let (w, e) = disuse_entry-returns key (view c) in
    let (d, p, _, _) =
      Refines-inv _ (Spec.disuse_entry key (view c)) tt w (disuse_entry-Refines c key v) e in
    (d, p)

module _ {lib : Parser} {W : Type 0} (sys : Sys W) where
  slot_freed :
      (k : ℕ) (c : Client lib) (l : ClientsList.ClientsList lib W) (g : Host W)
      → slot l.slots k ≡ some (some c)
      → Client.destroy sys c l.host ≡ returns tt g
      → ClientsList.assign_slot sys (some k) none l
        ≡ returns tt (record { slots = set_slot l.slots k none; host = g })
  unfolding ClientsList.assign_slot
  slot_freed k c l g at w = rw (ClientsList.assign_slot, at, w) refl

module _ {lib : Parser} {W : Type 0} (sys : Sys W) (id : ℕ) (s : Server lib W) (c : Client lib)
    (f : find_client id s.clients.slots ≡ some c) where
  pub removed :
      lookup c.request_str s.request_clients_map ≡ some (id ∷ [])
      → (m : List (Str × List ℕ)) × (remove_from_request_clients id s
          ≡ returns tt (record s { request_clients_map = m }))
        × (lookup c.request_str m ≡ some [])
  unfolding remove_from_request_clients load request_clients without_client same_client
  removed l =
      let r = c.request_str in
      let m = assign r [] (assign r (id ∷ []) s.request_clients_map) in
      let self : (c.client_connection.id == c.client_connection.id) ≡ true = ground arith in
      (
        m,
        rw
            (
              remove_from_request_clients, load, f, request_clients, l, without_client, load, f,
              same_client, self,
            )
            refl,
        lookup-assign_self r [] _,
      )

  pub removed_first :
      (o : ℕ) (d : Client lib)
      → find_client o s.clients.slots ≡ some d
      → same_client c d ≡ false
      → lookup c.request_str s.request_clients_map ≡ some (id ∷ o ∷ [])
      → (m : List (Str × List ℕ)) × (remove_from_request_clients id s
          ≡ returns tt (record s { request_clients_map = m }))
        × (lookup c.request_str m ≡ some (o ∷ []))
  unfolding remove_from_request_clients load request_clients without_client same_client
  removed_first o d g n l =
      let r = c.request_str in
      let m = assign r (o ∷ []) (assign r (id ∷ o ∷ []) s.request_clients_map) in
      let self : (c.client_connection.id == c.client_connection.id) ≡ true = ground arith in
      (
        m,
        rw
            (
              remove_from_request_clients, load, f, request_clients, l, without_client, load, f,
              same_client, self, g, n,
            )
            refl,
        lookup-assign_self r (o ∷ []) _,
      )

  -- No connection is handed over.
  pub nothing_passed :
      (is_waiting_response c.state && has_clients_with_request c.request_str s) ≡ false
      → pass_on_connection sys id s ≡ returns tt s
  unfolding pass_on_connection load
  nothing_passed w = rw (pass_on_connection, load, f, w) refl

  -- Its slot is cleared.
  pub cleared :
      (k : ℕ)
      → Placed 0 s.clients.slots
      → c.client_connection.fd ≡ some k
      → (g : Host W) × (l : List (Option (Client lib))) × (ClientsList.discard_client sys id
            s.clients
          ≡ returns tt (record { slots = l; host = g }))
        × (slot l k ≡ some none)
        × (l ≡ remove_client id s.clients.slots)
        × ((j : ℕ) → j ≢ id → find_client j l ≡ find_client j s.clients.slots)
  unfolding ClientsList.discard_client ClientsList.assign_slot
  cleared k p e =
      let (n, d, here, gone, others) = find_client-slot 0 id s.clients.slots c p f in
      let same : k ≡ n = ground arith in
      let l = s.clients.slots in
      let at : slot l k ≡ some (some c) = ap (slot l) same ∙ here in
      let (g, w) = client_destroyed sys c s.clients.host in
      (
        g,
        set_slot l k none,
        rw (ClientsList.discard_client, f)
            (ap (λ fd. ClientsList.assign_slot sys fd none s.clients) e
              ∙ slot_freed sys k c s.clients g at w),
        slot-set_slot l k none (some c) at,
        ap (λ i. set_slot l i none) same ∙ gone,
        λ j h. ap (λ i. find_client j (set_slot l i none)) same ∙ others j h,
      )
