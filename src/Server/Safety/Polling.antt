-- ===== src/Server/Safety/Polling.antt =====
-- What `getPollfds` and `poll` of src/server.cpp ask for and get.
use spx.Prelude.{
  ℕ, ◌≡◌, ◌++◌, ◌∷◌, [], List, true, false, Option, none, some, ◌==◌, Bool-cases, Option-cases, inl,
  inr, refl, arith,
}
use spx.Outcome.{returns}
use spx.Outcome.Ends.{Ends, returned, threw}
use spx.Net.Sys.{Sys, Fd, Pollfd}
use spx.Net.ActiveSocket.{ActiveSocket}
use spx.Http.Parser.{Parser}
use spx.Clients.Client.{State}
use spx.Clients.ClientsList.{get_pollfds, client_pollfds, server_pollfd, server_fd, pollfd}
use spx.Server.State.{Server}
use spx.Server.Events.{timeout, server_pollfds, poll, with_events, has_pollin, has_pollout}
use spx.Server.Safety.Slots.{Slots}
use spx.Server.Safety.Tame.{needs_server, has_server_fd, AllJoined}
use spx.Server.Safety.Invariant.{Inv, After-refl}
use spx.Server.Safety.Steps.{host-After}

-- A mask of events with at most one of POLLIN and POLLOUT.
abbrev pub Single : ℕ → Type 0
Single mask = has_pollin mask ≡ true → has_pollout mask ≡ false

abbrev pub AllPollfd : (Pollfd → Type 0) → List Pollfd → Type 0
AllPollfd P [] = Unit
AllPollfd P (p ∷ l) = P p × AllPollfd P l

-- What <poll.h> says of the call: it answers each entry, and reports reading or writing only where
-- that was asked for.
abbrev pub Answers : List Pollfd → List Pollfd → Type 0
Answers [] [] = Unit
Answers [] (q ∷ m) = ⊥
Answers (p ∷ l) [] = ⊥
Answers (p ∷ l) (q ∷ m) =
    (q.fd ≡ p.fd)
    × (has_pollin q.revents ≡ true → has_pollin p.events ≡ true)
    × (has_pollout q.revents ≡ true → has_pollout p.events ≡ true)
    × Answers l m

abbrev pub PollContract : {W : Type 0} → Sys W → Type 0
PollContract {W} sys =
    (pfds polled : List Pollfd) (timeout : ℕ) (w : W)
    → (sys.poll pfds timeout w).0 ≡ some polled
    → Answers pfds polled

AllPollfd-append :
    (P : Pollfd → Type 0) (l m : List Pollfd) → AllPollfd P l → AllPollfd P m → AllPollfd P (l ++ m)
AllPollfd-append P [] m a b = b
AllPollfd-append P (p ∷ l) m a b = (a.0, AllPollfd-append P l m a.1 b)

Answers-Single :
    (l m : List Pollfd)
    → AllPollfd (λ p. Single p.events) l
    → Answers l m
    → AllPollfd (λ p. Single p.revents) m
Answers-Single [] [] a h = tt
Answers-Single [] (q ∷ m) a h = absurd h
Answers-Single (p ∷ l) [] a h = absurd h
Answers-Single (p ∷ l) (q ∷ m) a (e, i, o, h) =
    ((λ r. ground (arith, i r, a.0 (i r))), Answers-Single l m a.1 h)

with_events-AllPollfd :
    (P : Pollfd → Type 0) (l : List Pollfd) → AllPollfd P l → AllPollfd P (with_events l)
unfolding with_events
with_events-AllPollfd P [] a = tt
with_events-AllPollfd P (p ∷ l) a = elim (Bool-cases (p.revents == 0)) [
  | inl e ↦ rw (e, with_events) (with_events-AllPollfd P l a.1)
  | inr e ↦ rw (e, with_events) (a.0, with_events-AllPollfd P l a.1)
]

-- The entries of one client exist, and each asks for one event.
Asked : Option (List Pollfd) → Type 0
Asked o = (ps : List Pollfd) × (o ≡ some ps) × AllPollfd (λ p. Single p.events) ps

valid_fd :
    (server : Option ActiveSocket)
    → has_server_fd server ≡ true
    → (i : ℕ) × (server_fd server ≡ some i)
valid_fd server h = elim (Option-cases (server_fd server)) [ inl e ↦ cc | inr p ↦ p ]

client_pollfds-Asked :
    (st : State) (client : Fd) (server : Option ActiveSocket)
    → (needs_server st ≡ true → has_server_fd server ≡ true)
    → Asked (client_pollfds st client server)
unfolding Asked client_pollfds needs_server server_pollfd
client_pollfds-Asked State.waiting_for_request client server j = (_, refl, ((λ e. refl), tt))
client_pollfds-Asked State.waiting_for_response_for_another_client client server j = ([], refl, tt)
client_pollfds-Asked State.sending_request client server j =
    let (i, e) = valid_fd server (j refl) in rw (e, server_pollfd) (_, refl, ((λ q. cc), tt))
client_pollfds-Asked State.waiting_response_status_code client server j =
    let (i, e) = valid_fd server (j refl) in rw (e, server_pollfd) (_, refl, ((λ q. refl), tt))
client_pollfds-Asked State.waiting_response client server j =
    let (i, e) = valid_fd server (j refl) in
    rw (e, server_pollfd) (_, refl, ((λ q. refl), ((λ q. cc), tt)))
client_pollfds-Asked State.got_response client server j = (_, refl, ((λ e. cc), tt))
client_pollfds-Asked State.getting_response_from_another_client client server j =
    (_, refl, ((λ e. cc), tt))

module _ {lib : Parser} where
  get_pollfds-Asked : (l : Slots lib) → AllJoined l → Asked (get_pollfds l)
  unfolding get_pollfds Asked
  get_pollfds-Asked [] a = ([], refl, tt)
  get_pollfds-Asked (none ∷ l) a = get_pollfds-Asked l a
  get_pollfds-Asked (some c ∷ l) a =
      let (ps, e, h) =
        client_pollfds-Asked c.state c.client_connection.fd c.server_connection a.0 in
      let (rs, f, k) = get_pollfds-Asked l a.1 in
      (ps ++ rs, ground arith, AllPollfd-append _ ps rs h k)

  module _ {W : Type 0} (sys : Sys W) where
    -- From a state in which the invariant holds, the assertions of `getPollfds` hold: it returns the
    -- entries to poll, the state is as before, and no entry asks both to read and to write.
    pub server_pollfds-Asked :
        (s : Server lib W)
        → Inv s
        → (pfds : List Pollfd) × (server_pollfds sys s ≡ returns pfds s)
          × AllPollfd (λ p. Single p.events) pfds
    unfolding server_pollfds Asked
    server_pollfds-Asked s v =
        let (ps, e, h) = get_pollfds-Asked s.clients.slots v.joined in
        (
          ps ++ pollfd s.server_socket.socket.fd 1 ∷ [],
          ground arith,
          AllPollfd-append _ ps (pollfd s.server_socket.socket.fd 1 ∷ []) h ((λ q. refl), tt),
        )

    pub poll-Ends :
        (s : Server lib W)
        → PollContract sys
        → Inv s
        → Ends (λ pfds t. Inv t × AllPollfd (λ p. Single p.revents) pfds) Inv (poll sys s)
    unfolding poll
    poll-Ends s k v =
        let (pfds, e, h) = server_pollfds-Asked s v in
        let w = s.clients.host.world in
        let inv : Inv (record s {
          clients = record (s.clients) {
            host = record (s.clients.host) { world = (sys.poll pfds timeout w).1 };
          };
        }) =
          (host-After _ s (After-refl s v)).inv in
        elim (Option-cases (sys.poll pfds timeout w).0) [
          | inl n ↦ rw (e, poll, n) (threw inv)
          | inr (polled, r) ↦
              rw (e, poll, r)
                (returned (
                  inv,
                  with_events-AllPollfd _ polled
                      (Answers-Single pfds polled h (k pfds polled timeout w r)),
                ))
        ]
