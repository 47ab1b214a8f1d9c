-- ===== src/Server/Stable/Connect.antt =====
-- What `connectToHost`, `prepareForSendingRequest` and `readResponseChunk` of src/server.cpp keep.
use spx.Prelude.{ℕ, List, [], ◌∷◌, Option, none, some, Str, refl}
use spx.Prelude.Decimal.{to_string}
use spx.Outcome.{◌>>=◌}
use spx.Outcome.Kept.{
  Kept, kept_returns, kept_throws, kept_fault, kept_rules, Kept-and_then, Kept-or_handle,
  Kept-option,
}
use spx.Net.Sys.{Sys, Host, Addrinfo}
use spx.Net.ActiveSocket
use spx.Net.ActiveSocket.{ActiveSocket}
use spx.Net.Onward.{From, create_for-Onward, connect-Onward, destroy-Onward, receive-Onward}
use spx.Http.Parser.{Parser}
use spx.Clients.Onward.{destroy_connection-Onward, valid_url-Kept}
use spx.Server.State.{Server, on_host}
use spx.Server.Connect
use spx.Server.Connect.{
  connect_to, connect_to_first, connect_to_host, prepare_for_sending_request, read_response_chunk,
  max_chunk_size,
}
use spx.Server.Stable.{IsStable, load-Kept, change-Kept}

module _ {W : Type 0} (sys : Sys W) (n : ℕ) where
  connect_to-Onward : (p : Addrinfo) (h : Host W) → From n h → Kept (From n) (connect_to sys p h)
  unfolding connect_to
  connect_to-Onward p h k = search (kept_rules, create_for-Onward, connect-Onward, destroy-Onward)

  connect_to_first-Onward :
      (l : List Addrinfo) (h : Host W) → From n h → Kept (From n) (connect_to_first sys l h)
  unfolding connect_to_first
  connect_to_first-Onward [] h k = kept_returns k
  connect_to_first-Onward (p ∷ l) h k =
      Kept-and_then _ _ (Kept-or_handle _ _ (connect_to-Onward p h k) λ e t q. search kept_rules)
        λ res t q. Kept-option res _ _ t (connect_to_first-Onward l t q) (λ s. kept_returns q)

  require_valid-Onward :
      (o : Option ActiveSocket) (h : Host W)
      → From n h
      → Kept (From n) (Connect.require_valid sys o h)
  require_valid-Onward none h k = kept_throws k
  require_valid-Onward (some s) h k = search (kept_rules, destroy-Onward)

  pub connect_to_host-Onward :
      (hostname port : Str) (h : Host W)
      → From n h
      → Kept (From n) (connect_to_host sys hostname port h)
  unfolding connect_to_host
  connect_to_host-Onward hostname port h k =
      Kept-option (sys.getaddrinfo (some hostname) port h.world).0 _ _ _ (kept_throws k) λ infos.
        Kept-and_then _ _ (connect_to_first-Onward infos _ k) λ o t q. require_valid-Onward o t q

module _ {lib : Parser} {W : Type 0} (sys : Sys W) (P : Server lib W → Type 0)
    (stable : IsStable sys P) where
  pub prepare_for_sending_request-Kept :
      (id : ℕ) (s : Server lib W) → P s → Kept P (prepare_for_sending_request sys id s)
  unfolding prepare_for_sending_request
  prepare_for_sending_request-Kept id s p =
      Kept-and_then _ _ (load-Kept sys P stable id s p) λ c t q.
        Kept-and_then _ _ (valid_url-Kept lib P lib.hostname c.request.url t q) λ hostname u r.
          Kept-and_then _ _ (valid_url-Kept lib P lib.http_port c.request.url u r) λ port v k.
            Kept-and_then _ _
              (stable.hosting _ v (λ n. connect_to_host-Onward sys n hostname (to_string port)) k)
              λ conn w l. Kept-and_then _ _ (change-Kept sys P stable id _ w (λ x. refl) l) λ _ a m.
                Kept-and_then _ _
                  (stable.hosting _ a (λ n. destroy_connection-Onward sys n c.server_connection) m)
                  λ _ b o. change-Kept sys P stable id _ b (λ x. refl) o

  pub read_response_chunk-Kept :
      (id : ℕ) (s : Server lib W) → P s → Kept P (read_response_chunk sys id s)
  unfolding read_response_chunk
  read_response_chunk-Kept id s p =
      Kept-and_then _ _ (load-Kept sys P stable id s p) λ c t q. received c.server_connection t q
    where
      received :
          (o : Option ActiveSocket) (t : Server lib W)
          → P t
          → Kept P (
              (Connect.server_connection sys o >>= λ conn.
              on_host (ActiveSocket.receive sys conn max_chunk_size))
                t)
      received none t q = (kept_fault tt)
      received (some conn) t q =
          stable.hosting _ t (λ n. receive-Onward sys n conn max_chunk_size) q
