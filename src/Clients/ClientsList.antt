-- ===== src/Clients/ClientsList.antt =====
-- `ClientsList` of src/clients_list.cpp and src/clients_list.h: the clients by the descriptor of
-- their connection. A reference to a client is the address of the object.
use mathlib.Core.Option
use spx.Prelude.{
  ℕ, zero, suc, ◌/◌, Bool, false, ◌||◌, List, [], ◌∷◌, ◌++◌, Option, none, some, if◌then◌else◌,
  ◌==◌,
}
use spx.Prelude.Words.{sub_size}
use spx.Outcome.{
  M, null_reference, out_of_bounds, dangling_client, pure, fail, ◌>>=◌, ◌>>◌, modify, zoom,
}
use spx.Net.Sys.{Fd, Sys, Host, Pollfd}
use spx.Net.TcpSocket.{same_fd}
use spx.Net.ActiveSocket.{ActiveSocket}
use spx.Http.Parser.{Parser}
use spx.Clients.Client
use spx.Clients.Client.{Client, Self, State}

unfoldable pub calculate_maximum_clients : ℕ → ℕ
calculate_maximum_clients max_fds = sub_size max_fds 4 / 2

-- The masks of <poll.h>, by the number of their bit.
abbrev pub pollin : ℕ
pollin = 1

abbrev pub pollout : ℕ
pollout = 4

module _ {ℓ} {A : Type ℓ} where
  -- A vector of empty slots.
  abbrev pub no_clients : ℕ → List (Option A)
  no_clients zero = []
  no_clients (suc n) = none ∷ no_clients n

  -- The slot at an index, if there is one, and a write to it.
  unfoldable pub slot : List (Option A) → ℕ → Option (Option A)
  slot [] i = none
  slot (s ∷ l) zero = some s
  slot (s ∷ l) (suc i) = slot l i

  unfoldable pub set_slot : List (Option A) → ℕ → Option A → List (Option A)
  set_slot [] i v = []
  set_slot (s ∷ l) zero v = v ∷ l
  set_slot (s ∷ l) (suc i) v = s ∷ set_slot l i v

module _ (lib : Parser) (W : Type 0) where
  -- The list, and the host that its clients' sockets live on.
  pub record ClientsList : Type 0 where
    pub slots : List (Option (Client lib))
    pub host : Host W

abbrev pub server_fd : Option ActiveSocket → Fd
server_fd none = none
server_fd (some s) = s.fd

abbrev pub pollfd : Fd → ℕ → Pollfd
pollfd fd events = record { fd = fd; events = events; revents = 0 }

-- An entry for the server's socket, which is asserted to be there.
unfoldable pub server_pollfd : Fd → ℕ → Option Pollfd
server_pollfd none events = none
server_pollfd (some fd) events = some (pollfd (some fd) events)

-- The body of the loop of `getPollfds`; `none` is a failed assertion.
unfoldable pub client_pollfds : State → Fd → Option ActiveSocket → Option (List Pollfd)
client_pollfds State.waiting_for_request client server = some (pollfd client pollin ∷ [])
client_pollfds State.waiting_for_response_for_another_client client server = some []
client_pollfds State.sending_request client server =
    Option.map (λ p. p ∷ []) (server_pollfd (server_fd server) pollout)
client_pollfds State.waiting_response_status_code client server =
    Option.map (λ p. p ∷ []) (server_pollfd (server_fd server) pollin)
client_pollfds State.waiting_response client server =
    Option.map (λ p. p ∷ pollfd client pollout ∷ []) (server_pollfd (server_fd server) pollin)
client_pollfds State.got_response client server = some (pollfd client pollout ∷ [])
client_pollfds State.getting_response_from_another_client client server =
    some (pollfd client pollout ∷ [])

abbrev server_has_fd : Option ActiveSocket → Fd → Bool
server_has_fd none fd = false
server_has_fd (some s) fd = same_fd s.fd fd

module _ {lib : Parser} where
  -- The object at an address, if it is alive, and a write to it.
  unfoldable pub find_client : ℕ → List (Option (Client lib)) → Option (Client lib)
  find_client id [] = none
  find_client id (none ∷ l) = find_client id l
  find_client id (some c ∷ l) = if c.id == id then some c else find_client id l

  unfoldable pub store_client : Client lib → List (Option (Client lib)) → List (Option (Client lib))
  store_client c [] = []
  store_client c (none ∷ l) = none ∷ store_client c l
  store_client c (some d ∷ l) = if d.id == c.id then some c ∷ l else some d ∷ store_client c l

  unfoldable pub get_pollfds : List (Option (Client lib)) → Option (List Pollfd)
  get_pollfds [] = some []
  get_pollfds (none ∷ l) = get_pollfds l
  get_pollfds (some c ∷ l) =
      elim (client_pollfds c.state c.client_connection.fd c.server_connection) [
        | none ↦ none
        | some ps ↦ Option.map (λ r. ps ++ r) (get_pollfds l)
      ]

  -- Is `fd` one of the client's descriptors?
  unfoldable pub has_fd : Client lib → Fd → Bool
  has_fd c fd = same_fd c.client_connection.fd fd || server_has_fd c.server_connection fd

  -- The loop of `getClient`.
  unfoldable pub search_fd : Fd → List (Option (Client lib)) → Option (Client lib)
  search_fd fd [] = none
  search_fd fd (none ∷ l) = search_fd fd l
  search_fd fd (some c ∷ l) = if has_fd c fd then some c else search_fd fd l

  -- `*clients_[fd]`.
  abbrev pub at_slot {ℓ} : {S : Type ℓ} → Option (Option (Client lib)) → M S ℕ
  at_slot none = fail out_of_bounds
  at_slot (some none) = fail null_reference
  at_slot (some (some c)) = pure c.id

  abbrev pub at_fd {ℓ} : {S : Type ℓ} → Fd → List (Option (Client lib)) → M S ℕ
  at_fd none slots = fail out_of_bounds
  at_fd (some i) slots = at_slot (slot slots i)

  module _ {W : Type 0} where
    -- The constructor.
    unfoldable pub create : ℕ → Host W → ClientsList lib W
    create max_fds h = record { slots = no_clients (calculate_maximum_clients max_fds); host = h }

    -- A reference to the client.
    unfoldable pub get_client : Fd → M (ClientsList lib W) ℕ
    get_client fd s = elim (search_fd fd s.slots) [
      | none ↦ at_fd fd s.slots s
      | some c ↦ pure c.id s
    ]

    -- A method of the client that a reference leads to.
    unfoldable pub on_client : {A : Type 0} → ℕ → M (Self lib W) A → M (ClientsList lib W) A
    on_client id m s = elim (find_client id s.slots) [
      | none ↦ fail dangling_client s
      | some c ↦
          zoom (λ t. record { client = c; host = t.host })
            (λ u t. record t { slots = store_client u.client t.slots; host = u.host }) m s
    ]

    module _ (sys : Sys W) where
      abbrev on_host : {A : Type 0} → M (Host W) A → M (ClientsList lib W) A
      on_host = zoom (λ s. s.host) (λ h s. record s { host = h })

      -- `clients_[fd] = …`: the client that stood there dies.
      abbrev pub replace :
          ℕ → Option (Client lib) → Option (Option (Client lib)) → M (ClientsList lib W) (Unit {0})
      replace i v none = fail out_of_bounds
      replace i v (some none) = modify (λ s. record s { slots = set_slot s.slots i v })
      replace i v (some (some old)) = do
        modify (λ s. record s { slots = set_slot s.slots i v })
        on_host (Client.destroy sys old)

      unfoldable pub assign_slot : Fd → Option (Client lib) → M (ClientsList lib W) (Unit {0})
      assign_slot none v s = fail out_of_bounds s
      assign_slot (some i) v s = replace i v (slot s.slots i) s

      unfoldable pub accept_client : ActiveSocket → M (ClientsList lib W) (Unit {0})
      accept_client client_conn = do
        client ← on_host (Client.create client_conn)
        assign_slot client_conn.fd (some client)

      unfoldable pub discard_client : ℕ → M (ClientsList lib W) (Unit {0})
      discard_client id s = elim (find_client id s.slots) [
        | none ↦ fail dangling_client s
        | some c ↦ assign_slot c.client_connection.fd none s
      ]
