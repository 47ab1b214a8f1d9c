-- ===== src/Server/Safety/Accepting.antt =====
-- A new client in src/server.cpp.
use spx.Prelude.{
  ℕ, zero, suc, ◌+◌, ◌≡◌, ◌≢◌, ◌∙◌, refl, ◌∷◌, [], List, Option, none, some, arith, Str,
}
use spx.Outcome.{
  exception, and_then, Outcome, returns, throws, fault, pure, is_exception, throw, within,
}
use spx.Outcome.Ends.{Harmless, Ends, returned, threw, faulted, or_handle-Ends, if-Ends}
use spx.Net.Sys.{Sys, Host, Fd}
use spx.Net.ActiveSocket
use spx.Net.ActiveSocket.{ActiveSocket}
use spx.Net.PassiveSocket
use spx.Http.Parser.{Parser}
use spx.Clients.Client
use spx.Clients.Client.{Client, State}
use spx.Clients.ClientsList
use spx.Clients.ClientsList.{ClientsList, find_client, slot, set_slot, assign_slot}
use spx.Server.State.{Server, on_clients}
use spx.Server.Discard.{accept_client}
use spx.Server.Events.{handle_server_socket_events, has_error, has_pollin}
use spx.Net.Onward.{From, accept-Onward}
use spx.Outcome.Kept.{Kept-returned}
use spx.Clients.Numbered.{AllNumbered-mono, AllNumbered-fresh}
use spx.Server.Stable.Instances.{Good}
use spx.Server.Safety.Slots.{Slots, Placed}
use spx.Server.Safety.Tame.{needs_server, AllJoined, AllListed, Joined}
use spx.Server.Safety.Invariant.{Inv, After-refl}
use spx.Server.Safety.Steps.{host-After}
use spx.Server.Safety.Responding.{Handled}

-- What the system promises of a new connection: its descriptor belongs to no client.
abbrev pub Fresh : {lib : Parser} {W : Type 0} → Sys W → Server lib W → Type 0
Fresh {lib} {W} sys s =
    (conn : ActiveSocket) (h : Host W)
    → PassiveSocket.accept sys s.server_socket s.clients.host ≡ returns conn h
    → (n : ℕ) (c : Client lib) → conn.fd ≡ some n
    → slot s.clients.slots n ≢ some (some c)

module _ {lib : Parser} where
  set_slot_new-Placed :
      (k n : ℕ) (l : Slots lib) (c : Client lib)
      → Placed k l
      → c.client_connection.fd ≡ some (k + n)
      → Placed k (set_slot l n (some c))
  unfolding set_slot
  set_slot_new-Placed k n [] c p e = tt
  set_slot_new-Placed k zero (none ∷ l) c p e = (e ∙ ground arith, p)
  set_slot_new-Placed k zero (some d ∷ l) c p e = (e ∙ ground arith, p.1)
  set_slot_new-Placed k (suc n) (none ∷ l) c p e =
      set_slot_new-Placed (suc k) n l c p (e ∙ ground arith)
  set_slot_new-Placed k (suc n) (some d ∷ l) c p e =
      (p.0, set_slot_new-Placed (suc k) n l c p.1 (e ∙ ground arith))

  find_client-set_slot_new :
      (j n : ℕ) (l : Slots lib) (c : Client lib)
      → slot l n ≡ some none
      → j ≢ c.id
      → find_client j (set_slot l n (some c)) ≡ find_client j l
  unfolding find_client set_slot slot
  find_client-set_slot_new j n [] c e m = cc
  find_client-set_slot_new j zero (none ∷ l) c e m = ground arith
  find_client-set_slot_new j zero (some d ∷ l) c e m = cc
  find_client-set_slot_new j (suc n) (none ∷ l) c e m = find_client-set_slot_new j n l c e m
  find_client-set_slot_new j (suc n) (some d ∷ l) c e m =
      ground (arith, find_client-set_slot_new j n l c e m)

  set_slot_new-AllJoined :
      (n : ℕ) (l : Slots lib) (c : Client lib)
      → Joined c
      → AllJoined l
      → AllJoined (set_slot l n (some c))
  unfolding set_slot
  set_slot_new-AllJoined n [] c j a = tt
  set_slot_new-AllJoined zero (none ∷ l) c j a = (j, a)
  set_slot_new-AllJoined zero (some d ∷ l) c j a = (j, a.1)
  set_slot_new-AllJoined (suc n) (none ∷ l) c j a = set_slot_new-AllJoined n l c j a
  set_slot_new-AllJoined (suc n) (some d ∷ l) c j a = (a.0, set_slot_new-AllJoined n l c j a.1)

  -- A client that was there is not the new one.
  set_slot_new-AllListed :
      (n : ℕ) (req : Str) (ids : List ℕ) (l : Slots lib) (c : Client lib)
      → slot l n ≡ some none
      → find_client c.id l ≡ none
      → AllListed req l ids
      → AllListed req (set_slot l n (some c)) ids
  set_slot_new-AllListed n req [] l c e f a = tt
  set_slot_new-AllListed n req (j ∷ ids) l c e f a =
      let (d, g, r, m) = a.0 in
      let other : j ≢ c.id = (λ q. ground arith) in
      (
        (d, find_client-set_slot_new j n l c e other ∙ g, r, m),
        set_slot_new-AllListed n req ids l c e f a.1,
      )

module _ {W : Type 0} (sys : Sys W) where
  accept-Harmless :
      (socket : PassiveSocket.PassiveSocket) (h : Host W)
      → Harmless (PassiveSocket.accept sys socket h)
  unfolding PassiveSocket.accept ActiveSocket.create
  accept-Harmless socket h = ground arith

module _ {lib : Parser} {W : Type 0} (sys : Sys W) where
  -- The new client stands in its slot, which is free.
  placed-Ends :
      (fd : Fd) (o : Option (Option (Client lib))) (n : ℕ) (s : Server lib W) (c : Client lib)
      → Inv s
      → c.client_connection.fd ≡ some n
      → slot s.clients.slots n ≡ o
      → ((d : Client lib) → o ≢ some (some d))
      → find_client c.id s.clients.slots ≡ none
      → Joined c
      → Ends
          (λ u t. Inv t)
          Inv
          (within (λ t. record s { clients = t }) (ClientsList.replace sys n (some c) o s.clients))
  placed-Ends fd none n s c v e q k f j = faulted tt
  placed-Ends fd (some none) n s c v e q k f j = returned (record {
    placed = set_slot_new-Placed 0 n s.clients.slots c v.placed (e ∙ ground arith);
    listed =
        λ req ids r. set_slot_new-AllListed n req ids s.clients.slots c q f (v.listed req ids r);
    joined = set_slot_new-AllJoined n s.clients.slots c j v.joined;
  })
  placed-Ends fd (some (some d)) n s c v e q k f j = absurd (k d refl)

  assigned-Ends :
      (fd : Fd) (s : Server lib W) (c : Client lib)
      → Inv s
      → c.client_connection.fd ≡ fd
      → ((n : ℕ) (d : Client lib) → fd ≡ some n → slot s.clients.slots n ≢ some (some d))
      → find_client c.id s.clients.slots ≡ none
      → Joined c
      → Ends (λ u t. Inv t) Inv (on_clients (assign_slot sys fd (some c)) s)
  unfolding assign_slot
  assigned-Ends none s c v e k f j = faulted tt
  assigned-Ends (some n) s c v e k f j =
      placed-Ends (some n) (slot s.clients.slots n) n s c v e refl (λ d. k n d refl) f j

  -- The number of the new client is that of no other.
  accepted_id :
      (conn : ActiveSocket) (h : Host W) (s : Server lib W)
      → PassiveSocket.accept sys s.server_socket s.clients.host ≡ returns conn h
      → Good s
      → find_client h.next_id s.clients.slots ≡ none
  accepted_id conn h s e good =
      let n = s.clients.host.next_id in
      let later =
        Kept-returned (From n) (accept-Onward sys n s.server_socket s.clients.host (omega arith))
          e in
      AllNumbered-fresh h.next_id s.clients.slots
        (AllNumbered-mono n h.next_id s.clients.slots later good.numbered)

  accepted-Ends :
      (o : Outcome (Host W) ActiveSocket) (s : Server lib W)
      → PassiveSocket.accept sys s.server_socket s.clients.host ≡ o
      → Harmless o
      → Fresh sys s
      → Good s
      → Inv s
      → Ends
          (λ u t. Inv t)
          Inv
          (and_then
            (within (λ h. record s { clients = record (s.clients) { host = h } }) o)
            (λ conn. on_clients (ClientsList.accept_client sys conn)))
  unfolding ClientsList.accept_client Client.create needs_server
  accepted-Ends (returns conn h) s e k fresh good v =
      assigned-Ends conn.fd _ _ (host-After _ s (After-refl s v)).inv refl (fresh conn h e)
        (accepted_id conn h s e good) (λ m. cc)
  accepted-Ends (throws x h) s e k fresh good v = threw (host-After h s (After-refl s v)).inv
  accepted-Ends (fault x) s e k fresh good v = faulted k

  accept_client-Ends :
      (s : Server lib W)
      → Fresh sys s
      → Good s
      → Inv s
      → Ends (λ u t. Inv t) Inv (accept_client sys s)
  unfolding accept_client
  accept_client-Ends s fresh good v =
      accepted-Ends (PassiveSocket.accept sys s.server_socket s.clients.host) s refl
        (accept-Harmless sys s.server_socket s.clients.host) fresh good v

  pub handle_server_socket_events-Handled :
      (events : ℕ) (s : Server lib W)
      → Fresh sys s
      → Good s
      → Inv s
      → Handled (handle_server_socket_events sys events s)
  unfolding handle_server_socket_events
  handle_server_socket_events-Handled events s fresh good v =
      if-Ends (has_error events) (throw exception) _ s (λ e. threw v)
        λ e.
          if-Ends (has_pollin events) _ (pure tt) s
            (λ q. or_handle-Ends {R = Inv} _ (accept_client-Ends s fresh good v) λ x t a.
              if-Ends (is_exception x) (pure tt) (throw x) t (λ r. returned a) (λ r. threw a))
            (λ q. returned v)
