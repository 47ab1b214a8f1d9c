-- ===== src/Server/Safety/Reach.antt =====
-- The runs of `Server::start` of src/server.cpp, as a step relation.
use mathlib.Core.Path.{subst}
use spx.Prelude.{ℕ, zero, suc, ◌≡◌, ◌∷◌, [], List, true, false, Bool-cases, inl, inr}
use spx.Outcome.{within, and_then, get, pure, ◌>>=◌, Outcome, returns, throws, fault}
use spx.Outcome.Ends.{Returned, Returned-returns, Ends-Harmless, Ends-returns, Harmless}
use spx.Dict.{lookup}
use spx.Cache.Methods
use spx.Net.Sys.{Sys, Host, Pollfd}
use spx.Net.TcpSocket.{same_fd}
use spx.Net.PassiveSocket
use spx.Http.Parser.{Parser}
use spx.Clients.ClientsList
use spx.Clients.ClientsList.{no_clients}
use spx.Net.Onward.{listen-Onward}
use spx.Server.Safety.Steps.{host-After}
use spx.Server.State.{Server, on_host}
use spx.Server.Events
use spx.Server.Events.{poll, handle_event, server_pollfds, stop, pending_connections_queue_len}
use spx.Outcome.Kept.{Kept-returned}
use spx.Server.Stable.Instances.{Good, Good-IsStable}
use spx.Server.Stable.Rounds.{poll-Kept, handle_event-Kept}
use spx.Server.Stable.Runs.{create-Good}
use spx.Server.Safety.Slots.{Placed}
use spx.Server.Safety.Tame.{AllJoined}
use spx.Server.Safety.Invariant.{Inv, After-refl}
use spx.Server.Safety.Responding.{Handled}
use spx.Server.Safety.Rounds.{handle_event-Handled}
use spx.Server.Safety.Polling.{Single, AllPollfd, PollContract, poll-Ends, server_pollfds-Asked}
use spx.Server.Safety.Accepting.{Fresh, handle_server_socket_events-Handled}

module _ {lib : Parser} {W : Type 0} where
  abbrev pub running : Server lib W → Server lib W
  running t = record t { is_running = true }

module _ {lib : Parser} {W : Type 0} (sys : Sys W) (F : Server lib W → Type 0) where
  -- The runs of `start` on the server `s`: the server has listened, and is within a round, with the
  -- ready descriptors that it has not handled yet. A signal may come at any time. The listening
  -- socket's descriptor is handled only in states of `F`.
  pub data Reach (s : Server lib W) : Server lib W → List Pollfd → Type 0 where
    starts :
        {t : Server lib W}
        → on_host (PassiveSocket.listen sys s.server_socket pending_connections_queue_len) s
          ≡ returns tt t
        → Reach s (running t) []
    polls :
        {t u : Server lib W} {l : List Pollfd}
        → Reach s t []
        → t.is_running ≡ true
        → poll sys t ≡ returns l u
        → Reach s u l
    handles :
        {t u : Server lib W} {p : Pollfd} {l : List Pollfd}
        → Reach s t (p ∷ l)
        → (same_fd t.server_socket.socket.fd p.fd ≡ true → F t)
        → handle_event sys p t ≡ returns tt u
        → Reach s u l
    stops : {t : Server lib W} {l : List Pollfd} → Reach s t l → Reach s (stop sys t) l

module _ {lib : Parser} {W : Type 0} (sys : Sys W) where
  -- What holds between two steps.
  pub record Sound (s : Server lib W) (l : List Pollfd) : Type 0 where
    pub inv : Inv s
    pub good : Good s
    pub single : AllPollfd (λ p. Single p.revents) l

  event-Handled :
      (p : Pollfd) (s : Server lib W)
      → (same_fd s.server_socket.socket.fd p.fd ≡ true → Fresh sys s)
      → Single p.revents
      → Good s
      → Inv s
      → Handled (handle_event sys p s)
  unfolding handle_event
  event-Handled p s fresh k good v = elim (Bool-cases (same_fd s.server_socket.socket.fd p.fd)) [
    | inl e ↦
        rw (e, handle_event) (handle_server_socket_events-Handled sys p.revents s (fresh e) good v)
    | inr e ↦ handle_event-Handled sys p s e k v
  ]

  listened_Sound :
      (o : Outcome (Host W) (Unit {0})) (s t : Server lib W)
      → within (λ h. record s { clients = record (s.clients) { host = h } }) o ≡ returns tt t
      → Good t
      → Inv s
      → Sound (running t) []
  listened_Sound (returns u h) s t e good v =
      let after : Inv (record s { clients = record (s.clients) { host = h } }) =
        (host-After h s (After-refl s v)).inv in
      let same : record s { clients = record (s.clients) { host = h } } ≡ t = cc in
      let k : Inv t = subst (λ x. Inv x) same after in
      record {
        inv = record { placed = k.placed; listed = k.listed; joined = k.joined };
        good = record { cached = good.cached; numbered = good.numbered };
        single = tt;
      }
  listened_Sound (throws x h) s t e good v = cc
  listened_Sound (fault x) s t e good v = cc

  module _ (contract : PollContract sys) where
    Reach-Sound :
        {s t : Server lib W} {l : List Pollfd}
        → Reach sys (Fresh sys) s t l
        → Good s
        → Inv s
        → Sound t l
    unfolding stop
    Reach-Sound {s} (starts {t} e) good v =
        let listen = PassiveSocket.listen sys s.server_socket pending_connections_queue_len in
        let kept =
          (Good-IsStable sys).hosting listen s
            (λ n. listen-Onward sys n s.server_socket pending_connections_queue_len) good in
        listened_Sound (listen s.clients.host) s t e (Kept-returned Good kept e) v
    Reach-Sound (polls {t} {u} {l} r on e) good v =
        let k = Reach-Sound r good v in
        let (w, h) = Ends-returns (poll-Ends sys t contract k.inv) e in
        record {
          inv = w;
          good = Kept-returned Good (poll-Kept sys Good (Good-IsStable sys) t k.good) e;
          single = h;
        }
    Reach-Sound (handles {t} {u} {p} {l} r fresh e) good v =
        let k = Reach-Sound r good v in
        record {
          inv = Ends-returns (event-Handled p t fresh k.single.0 k.good k.inv) e;
          good = Kept-returned Good (handle_event-Kept sys Good (Good-IsStable sys) p t k.good) e;
          single = k.single.1;
        }
    Reach-Sound (stops r) good v =
        let k = Reach-Sound r good v in
        record {
          inv = record { placed = k.inv.placed; listed = k.inv.listed; joined = k.inv.joined };
          good = record { cached = k.good.cached; numbered = k.good.numbered };
          single = k.single;
        }

module _ (lib : Parser) where
  no_clients-Placed : (k n : ℕ) → Placed {lib = lib} k (no_clients n)
  no_clients-Placed k zero = tt
  no_clients-Placed k (suc n) = no_clients-Placed (suc k) n

  no_clients-AllJoined : (n : ℕ) → AllJoined {lib = lib} (no_clients n)
  no_clients-AllJoined zero = tt
  no_clients-AllJoined (suc n) = no_clients-AllJoined n

  module _ {W : Type 0} where
    created-Returned :
        (max_fds : ℕ) (o : Outcome (Host W) PassiveSocket.PassiveSocket)
        → Returned
            (λ s t. Inv s)
            (and_then o (λ socket. do
              h ← get
              pure (record {
                server_socket = socket;
                cache = Methods.create Events.max_cache_size;
                clients = ClientsList.create {lib = lib} max_fds h;
                request_clients_map = [];
                is_running = false;
              })))
    unfolding ClientsList.create lookup
    created-Returned max_fds (returns socket h) = record {
      placed = no_clients-Placed 0 (ClientsList.calculate_maximum_clients max_fds);
      listed = λ req ids e. cc;
      joined = no_clients-AllJoined (ClientsList.calculate_maximum_clients max_fds);
    }
    created-Returned max_fds (throws e h) = tt
    created-Returned max_fds (fault x) = tt

module _ {lib : Parser} {W : Type 0} (sys : Sys W) where
  create-Inv :
      (port max_fds : ℕ) (h h' : Host W) (s : Server lib W)
      → Events.create sys port max_fds h ≡ returns s h'
      → Inv s
  unfolding Events.create
  create-Inv port max_fds h h' s e =
      Returned-returns _ _ _ _ (created-Returned lib max_fds (PassiveSocket.create sys port h)) e

  -- With a poll that keeps to <poll.h>, at every point of a run of `start`, from the listening on a
  -- server that has just been constructed on, in which the descriptor of each connection that is
  -- accepted belongs to no client, the assertions of `getPollfds` hold and it returns what to poll.
  pub Reach-server_pollfds :
      (port max_fds : ℕ) (h h' : Host W) (s t : Server lib W) (l : List Pollfd)
      → PollContract sys
      → Events.create sys port max_fds h ≡ returns s h'
      → Reach sys (Fresh sys) s t l
      → (pfds : List Pollfd) × (server_pollfds sys t ≡ returns pfds t)
  Reach-server_pollfds port max_fds h h' s t l contract e r =
      let k =
        Reach-Sound sys contract r (create-Good sys port max_fds h h' s e)
          (create-Inv port max_fds h h' s e) in
      let (pfds, q, a) = server_pollfds-Asked sys t k.inv in (pfds, q)

  -- With a poll that keeps to <poll.h>, at every point of a run of `start`, from the listening on a
  -- server that has just been constructed on, in which the descriptor of each connection that is
  -- accepted belongs to no client, to handle the next ready descriptor, the listening socket's
  -- included if the connection that it accepts has such a descriptor, follows no reference to a
  -- client that is gone.
  pub Reach-Harmless :
      (port max_fds : ℕ) (h h' : Host W) (s t : Server lib W) (p : Pollfd) (l : List Pollfd)
      → PollContract sys
      → Events.create sys port max_fds h ≡ returns s h'
      → Reach sys (Fresh sys) s t (p ∷ l)
      → (same_fd t.server_socket.socket.fd p.fd ≡ true → Fresh sys t)
      → Harmless (handle_event sys p t)
  Reach-Harmless port max_fds h h' s t p l contract e r fresh =
      let k =
        Reach-Sound sys contract r (create-Good sys port max_fds h h' s e)
          (create-Inv port max_fds h h' s e) in
      Ends-Harmless (event-Handled sys p t fresh k.single.0 k.good k.inv)
