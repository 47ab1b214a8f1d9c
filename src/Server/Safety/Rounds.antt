-- ===== src/Server/Safety/Rounds.antt =====
-- A ready descriptor of a client in the event loop of src/server.cpp.
use spx.Prelude.{
  ℕ, zero, suc, ◌≡◌, refl, ◌==◌, ◌∷◌, [], true, false, Option, none, some, Bool-cases, Option-cases,
  inl, inr, arith,
}
use spx.Outcome.Ends.{Ends, returned, faulted, and_then-Ends, if-Ends, within-Ends_post}
use spx.Net.Sys.{Sys, Fd, Pollfd}
use spx.Net.TcpSocket.{same_fd}
use spx.Http.Parser.{Parser}
use spx.Clients.Client.{Client}
use spx.Clients.ClientsList
use spx.Clients.ClientsList.{ClientsList, find_client, search_fd, has_fd, slot, get_client}
use spx.Server.State.{Server}
use spx.Server.Events.{handle_event, has_pollin, has_pollout}
use spx.Server.Safety.Slots.{Slots, Live}
use spx.Server.Safety.Invariant.{Inv}
use spx.Server.Safety.Responding.{Handled}
use spx.Server.Safety.Handlers.{handle_client_socket_events-Handled}

module _ {lib : Parser} where
  Live-cons : (id : ℕ) (o : Option (Client lib)) (l : Slots lib) → Live id l → Live id (o ∷ l)
  unfolding find_client
  Live-cons id none l h = h
  Live-cons id (some d) l (c, f) = elim (Bool-cases (d.id == id)) [
    | inl e ↦ (d, ground arith)
    | inr e ↦ (c, ground arith)
  ]

  Live-head : (c : Client lib) (l : Slots lib) → Live c.id (some c ∷ l)
  unfolding find_client
  Live-head c l = (c, ground arith)

  search_fd-Live :
      (fd : Fd) (l : Slots lib) (c : Client lib) → search_fd fd l ≡ some c → Live c.id l
  unfolding search_fd
  search_fd-Live fd [] c e = cc
  search_fd-Live fd (none ∷ l) c e = Live-cons c.id none l (search_fd-Live fd l c e)
  search_fd-Live fd (some d ∷ l) c e = elim (Bool-cases (has_fd d fd)) [
    | inl h ↦ let same : d ≡ c = ground arith in rw (← same) (Live-head d l)
    | inr h ↦ Live-cons c.id (some d) l (search_fd-Live fd l c (ground arith))
  ]

  slot-Live : (n : ℕ) (l : Slots lib) (c : Client lib) → slot l n ≡ some (some c) → Live c.id l
  unfolding slot
  slot-Live n [] c e = cc
  slot-Live zero (o ∷ l) c e = let same : o ≡ some c = ground arith in rw same (Live-head c l)
  slot-Live (suc n) (o ∷ l) c e = Live-cons c.id o l (slot-Live n l c e)

  module _ {W : Type 0} where
    at_slot-Ends :
        (n : ℕ) (o : Option (Option (Client lib))) (s : ClientsList lib W)
        → slot s.slots n ≡ o
        → Ends (λ id t. (t ≡ s) × Live id s.slots) (λ t. ⊥) (ClientsList.at_slot o s)
    at_slot-Ends n none s e = faulted tt
    at_slot-Ends n (some none) s e = faulted tt
    at_slot-Ends n (some (some c)) s e = returned (refl, slot-Live n s.slots c e)

    at_fd-Ends :
        (fd : Fd) (s : ClientsList lib W)
        → Ends (λ id t. (t ≡ s) × Live id s.slots) (λ t. ⊥) (ClientsList.at_fd fd s.slots s)
    at_fd-Ends none s = faulted tt
    at_fd-Ends (some n) s = at_slot-Ends n (slot s.slots n) s refl

    get_client-Ends :
        (fd : Fd) (s : ClientsList lib W)
        → Ends (λ id t. (t ≡ s) × Live id s.slots) (λ t. ⊥) (get_client fd s)
    unfolding get_client
    get_client-Ends fd s = elim (Option-cases (search_fd fd s.slots)) [
      | inl e ↦ rw (e, get_client) (at_fd-Ends fd s)
      | inr (c, e) ↦ rw (e, get_client) (returned (refl, search_fd-Live fd s.slots c e))
    ]

module _ {lib : Parser} {W : Type 0} (sys : Sys W) where
  -- From a state in which each client stands in the slot of its connection's descriptor and has
  -- the server connection that its state needs, and each client on the list of a request is alive
  -- and has read that very request, a ready descriptor that is not the server's own, and that
  -- polls as ready to read and ready to write at most one at a time, is handled without following
  -- a reference to a client that is gone; after that, whether the handler returned or threw, the
  -- state is such a one again.
  pub handle_event-Handled :
      (p : Pollfd) (s : Server lib W)
      → same_fd s.server_socket.socket.fd p.fd ≡ false
      → (has_pollin p.revents ≡ true → has_pollout p.revents ≡ false)
      → Inv s
      → Handled (handle_event sys p s)
  unfolding handle_event
  handle_event-Handled p s n k v =
      if-Ends (same_fd s.server_socket.socket.fd p.fd) _ _ s
        (λ e. let no : ⊥ = ground arith in absurd no)
        (λ e.
          and_then-Ends {Q = λ id t. Inv t × Live id t.clients.slots} _
            (within-Ends_post _ (get_client-Ends p.fd s.clients) (λ id t q. kept t id q.0 q.1)
              (λ t b. absurd b))
            λ id t q. handle_client_socket_events-Handled sys id p.revents t k q.1 q.0)
    where
      kept :
          (t : ClientsList lib W) (id : ℕ)
          → t ≡ s.clients
          → Live id s.clients.slots
          → Inv (record s { clients = t }) × Live id t.slots
      kept t id e l = rw e (v, l)
