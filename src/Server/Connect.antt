-- ===== src/Server/Connect.antt =====
-- `connectToHost`, `prepareForSendingRequest` and `readResponseChunk` of src/server.cpp.
use spx.Prelude.{ℕ, List, [], ◌∷◌, Option, none, some, Str, if◌then◌else◌}
use spx.Prelude.Decimal.{to_string}
use spx.Outcome.{
  M, exception, null_reference, pure, throw, fail, ◌>>=◌, ◌>>◌, try_catch, catch_exception,
}
use spx.Net.Sys.{Addrinfo, Sys, Host, syscall}
use spx.Net.TcpSocket
use spx.Net.ActiveSocket
use spx.Net.ActiveSocket.{ActiveSocket}
use spx.Http.Parser.{Parser}
use spx.Http.HttpRequest.{valid_url}
use spx.Clients.Client.{State, destroy_connection}
use spx.Server.State.{Server, on_host, load, change}

abbrev pub max_chunk_size : ℕ
max_chunk_size = 1024

module _ {W : Type 0} (sys : Sys W) where
  -- The body of the loop of `connectToHost`; a socket that cannot connect is closed again.
  unfoldable pub connect_to : Addrinfo → M (Host W) (Option ActiveSocket)
  connect_to p = do
    socket ← ActiveSocket.create_for sys p
    try_catch (ActiveSocket.connect sys socket p.ai_addr)
        (λ e. ActiveSocket.destroy sys socket >> throw e)
    pure (some socket)

  unfoldable pub connect_to_first : List Addrinfo → M (Host W) (Option ActiveSocket)
  connect_to_first [] = pure none
  connect_to_first (p ∷ rest) = do
    let next = connect_to_first rest
    res ← try_catch (connect_to p) (catch_exception (pure none))
    elim res [ none ↦ next | some socket ↦ pure (some socket) ]

  abbrev pub require_valid : Option ActiveSocket → M (Host W) ActiveSocket
  require_valid none = throw exception
  require_valid (some s) =
      if TcpSocket.is_valid s.socket
      then pure s
      else (ActiveSocket.destroy sys s >> throw exception)

  unfoldable pub connect_to_host : Str → Str → M (Host W) ActiveSocket
  connect_to_host hostname port = do
    servinfo ← syscall (sys.getaddrinfo (some hostname) port)
    elim servinfo [
      | none ↦ throw exception
      | some infos ↦ (connect_to_first infos >>= require_valid)
    ]

  module _ {lib : Parser} where
    unfoldable pub prepare_for_sending_request : ℕ → M (Server lib W) (Unit {0})
    prepare_for_sending_request id = do
      client ← load id
      hostname ← valid_url lib lib.hostname client.request.url
      port ← valid_url lib lib.http_port client.request.url
      connection ← on_host (connect_to_host hostname (to_string port))
      change id (λ c. record c { server_connection = some connection })
      on_host (destroy_connection sys client.server_connection)
      change id (λ c. record c { state = State.sending_request })

    -- `*client.server_connection`.
    abbrev pub server_connection : Option ActiveSocket → M (Server lib W) ActiveSocket
    server_connection none = fail null_reference
    server_connection (some s) = pure s

    unfoldable pub read_response_chunk : ℕ → M (Server lib W) (List ℕ)
    read_response_chunk id = do
      client ← load id
      connection ← server_connection client.server_connection
      on_host (ActiveSocket.receive sys connection max_chunk_size)
