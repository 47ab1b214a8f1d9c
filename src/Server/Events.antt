-- ===== src/Server/Events.antt =====
-- The constructor and the event loop of src/server.cpp.
use spx.Prelude.{
  ℕ, ◌/◌, ◌%◌, Bool, true, false, ◌||◌, List, [], ◌∷◌, ◌++◌, Option, none, some, if◌then◌else◌,
  ◌==◌,
}
use spx.Outcome.{
  M, exception, assertion_failed, pure, throw, fail, ◌>>=◌, ◌>>◌, get, modify, try_catch,
  catch_exception,
}
use spx.Cache.Methods
use spx.Net.Sys.{Sys, Host, Pollfd, syscall}
use spx.Net.TcpSocket.{same_fd}
use spx.Net.PassiveSocket
use spx.Http.Parser.{Parser}
use spx.Clients.Client.{State}
use spx.Clients.ClientsList
use spx.Clients.ClientsList.{ClientsList, get_pollfds, pollfd, pollin}
use spx.Server.State.{Server, on_clients, on_host, load}
use spx.Server.Discard.{accept_client, discard_client}
use spx.Server.Response.{
  read_request_from_client, send_request_to_server, read_response_status_code_from_server,
  read_response_from_server,
}
use spx.Server.Sending.{send_response_to_client}

abbrev pub timeout : ℕ
timeout = 600000

abbrev pub pending_connections_queue_len : ℕ
pending_connections_queue_len = 5

abbrev pub max_cache_size : ℕ
max_cache_size = 16777216

-- Bits of the masks of <poll.h>: POLLIN is 1, POLLOUT 4, POLLERR 8, POLLHUP 16 and POLLNVAL 32.
abbrev pub has_pollin : ℕ → Bool
has_pollin revents = (revents % 2) == 1

abbrev pub has_pollout : ℕ → Bool
has_pollout revents = (revents / 4 % 2) == 1

abbrev pub has_error : ℕ → Bool
has_error revents = ((revents / 8 % 2) == 1) || ((revents / 32 % 2) == 1)

abbrev pub has_pollhup : ℕ → Bool
has_pollhup revents = (revents / 16 % 2) == 1

abbrev pub pollhup : ℕ
pollhup = 16

-- `std::remove_if` by `revents == 0`.
unfoldable pub with_events : List Pollfd → List Pollfd
with_events [] = []
with_events (p ∷ l) = if p.revents == 0 then with_events l else p ∷ with_events l

module _ {lib : Parser} {W : Type 0} (sys : Sys W) where
  -- The constructor.
  unfoldable pub create : ℕ → ℕ → M (Host W) (Server lib W)
  create port max_fds = do
    socket ← PassiveSocket.create sys port
    h ← get
    pure (record {
      server_socket = socket;
      cache = Methods.create max_cache_size;
      clients = ClientsList.create max_fds h;
      request_clients_map = [];
      is_running = false;
    })

  abbrev pub asserted : Option (List Pollfd) → M (Server lib W) (List Pollfd)
  asserted none = fail assertion_failed
  asserted (some pfds) = pure pfds

  -- `getPollfds`, with `addServerPollfd`.
  unfoldable pub server_pollfds : M (Server lib W) (List Pollfd)
  server_pollfds = do
    s ← get
    pfds ← asserted (get_pollfds s.clients.slots)
    pure (pfds ++ pollfd s.server_socket.socket.fd pollin ∷ [])

  unfoldable pub poll : M (Server lib W) (List Pollfd)
  poll = do
    pfds ← server_pollfds
    res ← on_host (syscall (sys.poll pfds timeout))
    elim res [ none ↦ throw exception | some polled ↦ pure (with_events polled) ]

  unfoldable pub handle_server_socket_events : ℕ → M (Server lib W) (Unit {0})
  handle_server_socket_events events =
      if has_error events
      then throw exception
      else if has_pollin events
      then try_catch (accept_client sys) (catch_exception (pure tt))
      else pure tt

  -- The last cases of the `switch`, into which `waiting_response` falls.
  unfoldable pub send_or_hang_up : ℕ → ℕ → M (Server lib W) (Unit {0})
  send_or_hang_up id revents =
      if revents == pollhup
      then discard_client sys id
      else if has_pollout revents
      then send_response_to_client sys id
      else pure tt

  -- The `switch` on the client's state.
  unfoldable pub dispatch : State → ℕ → ℕ → M (Server lib W) (Unit {0})
  dispatch State.waiting_for_request id revents = read_request_from_client sys id
  dispatch State.waiting_for_response_for_another_client id revents = pure tt
  dispatch State.sending_request id revents =
      if has_pollhup revents then discard_client sys id else send_request_to_server sys id
  dispatch State.waiting_response_status_code id revents =
      read_response_status_code_from_server sys id
  dispatch State.waiting_response id revents = do
    if has_pollin revents then read_response_from_server sys id else pure tt
    send_or_hang_up id revents
  dispatch State.getting_response_from_another_client id revents = send_or_hang_up id revents
  dispatch State.got_response id revents = send_or_hang_up id revents

  unfoldable pub handle_client_socket_events : ℕ → ℕ → M (Server lib W) (Unit {0})
  handle_client_socket_events id revents =
      try_catch
        (do
          client ← load id
          if has_error revents then discard_client sys id else dispatch client.state id revents)
        (catch_exception (pure tt))

  -- The body of the loop over the ready descriptors, and the loop.
  unfoldable pub handle_event : Pollfd → M (Server lib W) (Unit {0})
  handle_event p = do
    s ← get
    if same_fd s.server_socket.socket.fd p.fd then handle_server_socket_events p.revents else (do
      id ← on_clients (ClientsList.get_client p.fd)
      handle_client_socket_events id p.revents)

  unfoldable pub handle_events : List Pollfd → M (Server lib W) (Unit {0})
  handle_events [] = pure tt
  handle_events (p ∷ l) = handle_event p >> handle_events l

  -- `stop`, the handler of SIGTERM and SIGINT.
  unfoldable pub stop : Server lib W → Server lib W
  stop s = record s { is_running = false }

  abbrev pub signalled : Bool → M (Server lib W) (Unit {0})
  signalled true = modify stop
  signalled false = pure tt

  -- The loop of `start`, for one round for each element of the list, which says whether a signal
  -- arrives in that round.
  unfoldable pub run : List Bool → M (Server lib W) (Unit {0})
  run [] = pure tt
  run (signal ∷ rest) = do
    let again = run rest
    s ← get
    if s.is_running then (do pfds ← poll; handle_events pfds; signalled signal; again) else pure tt

  unfoldable pub start : List Bool → M (Server lib W) (Unit {0})
  start rounds = do
    s ← get
    on_host (PassiveSocket.listen sys s.server_socket pending_connections_queue_len)
    modify (λ t. record t { is_running = true })
    run rounds
