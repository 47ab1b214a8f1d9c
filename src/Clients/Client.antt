-- ===== src/Clients/Client.antt =====
-- `Client` of src/clients_list.cpp and src/clients_list.h.
use spx.Prelude.{
  ℕ, Bool, true, false, ◌&&◌, List, [], ◌∷◌, Option, none, some, Str, if◌then◌else◌, ◌==◌, ltb,
  length, drop,
}
use spx.Prelude.Words.{add_size}
use spx.Outcome.{M, null_reference, out_of_bounds, pure, fail, ◌>>=◌, ◌>>◌, get, returns, zoom}
use spx.Net.Sys.{Sys, Host, allocate}
use spx.Net.ActiveSocket
use spx.Net.ActiveSocket.{ActiveSocket}
use spx.Http.Parser.{Parser}
use spx.Http.HttpRequest
use spx.Http.HttpRequest.{HttpRequest}
use spx.Clients.Reading.{read_http_request}

pub data State : Type 0 where
  waiting_for_request waiting_for_response_for_another_client sending_request : State
  waiting_response_status_code waiting_response got_response : State
  getting_response_from_another_client : State

module _ (lib : Parser) where
  -- `id` is the address of the object.
  pub record Client : Type 0 where
    pub id : ℕ
    pub request_str : Str
    pub request : HttpRequest lib
    pub client_connection : ActiveSocket
    pub server_connection : Option ActiveSocket
    pub state : State
    pub sent_bytes : ℕ
    pub chunks : List (List ℕ)
    pub should_write_to_cache : Bool
    pub should_read_from_cache : Bool
    pub should_write_to_all : Bool

  -- The client that a method is called on, and the host.
  pub record Self (W : Type 0) : Type 0 where
    pub client : Client
    pub host : Host W

unfoldable pub is_got_response : State → Bool
is_got_response State.got_response = true
is_got_response _ = false

abbrev has_no_connection : Option ActiveSocket → Bool
has_no_connection none = true
has_no_connection (some s) = false

module _ {lib : Parser} where
  -- `operator==`: the same connection object.
  unfoldable pub same_client : Client lib → Client lib → Bool
  same_client c other = c.client_connection.id == other.client_connection.id

  unfoldable pub is_reading_from_cache : Client lib → Bool
  is_reading_from_cache c =
      is_got_response c.state && c.should_read_from_cache && has_no_connection c.server_connection

  -- The client and the one that it takes the connection from, which is left without.
  unfoldable pub obtain_server_connection : Client lib → Client lib → Client lib × Client lib
  obtain_server_connection c other = (
    record c {
      server_connection = other.server_connection;
      state = State.waiting_response;
      should_write_to_cache = true;
    },
    record other { server_connection = none },
  )

module _ {lib : Parser} {W : Type 0} where
  -- `Client::create`.
  unfoldable pub create : ActiveSocket → M (Host W) (Client lib)
  create client_conn = do
    id ← allocate
    pure (record {
      id = id;
      request_str = [];
      request = HttpRequest.empty lib;
      client_connection = client_conn;
      server_connection = none;
      state = State.waiting_for_request;
      sent_bytes = 0;
      chunks = [];
      should_write_to_cache = false;
      should_read_from_cache = false;
      should_write_to_all = false;
    })

abbrev pop_front : List (List ℕ) → List (List ℕ)
pop_front [] = []
pop_front (chunk ∷ rest) = rest

abbrev pub destroy_connection : {W : Type 0} → Sys W → Option ActiveSocket → M (Host W) (Unit {0})
destroy_connection sys none = pure tt
destroy_connection sys (some s) = ActiveSocket.destroy sys s

module _ {lib : Parser} {W : Type 0} (sys : Sys W) where
  abbrev pub on_host : {A : Type 0} → M (Host W) A → M (Self lib W) A
  on_host = zoom (λ s. s.host) (λ h s. record s { host = h })

  abbrev change : (Client lib → Client lib) → M (Self lib W) (Unit {0})
  change f s = returns tt (record s { client = f s.client })

  unfoldable pub get_http_request : M (Self lib W) (Unit {0})
  get_http_request = do
    s ← get
    text ← on_host (read_http_request sys s.client.client_connection)
    request ← HttpRequest.create lib text
    change (λ c. record c { request = request })
    request_str ← HttpRequest.to_string lib request
    change (λ c. record c { request_str = request_str })

  unfoldable pub send_to_client : List ℕ → M (Self lib W) ℕ
  send_to_client chunk = do
    s ← get
    written_size ← on_host (ActiveSocket.send sys s.client.client_connection chunk)
    change (λ c. record c { sent_bytes = add_size c.sent_bytes written_size })
    pure written_size

  -- The first chunk, which the caller has checked to exist.
  unfoldable pub front : List (List ℕ) → M (Self lib W) (List ℕ)
  front [] = fail null_reference
  front (chunk ∷ rest) = pure chunk

  unfoldable pub send_to_client_from_chunks : M (Self lib W) (Unit {0})
  send_to_client_from_chunks = do
    s ← get
    chunk ← front s.client.chunks
    change (λ c. record c { chunks = pop_front c.chunks })
    written_size ← send_to_client chunk
    if written_size == length chunk
        then pure tt
        else if ltb written_size (length chunk)
        then change (λ c. record c { chunks = drop written_size chunk ∷ c.chunks })
        else fail out_of_bounds

  -- The members that own sockets die in reverse order of declaration.
  unfoldable pub destroy : Client lib → M (Host W) (Unit {0})
  destroy c = do
    destroy_connection sys c.server_connection
    ActiveSocket.destroy sys c.client_connection
