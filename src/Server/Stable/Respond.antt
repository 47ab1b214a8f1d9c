-- ===== src/Server/Stable/Respond.antt =====
-- What the handlers of src/server.cpp that read a request or a response keep.
use spx.Prelude.{ℕ, Option, none, some, List, ◌+◌, leb, length, take, drop, refl}
use spx.Prelude.Int.{Stoi, stoi}
use spx.Outcome.{
  Exn, all_in_use, exception, zero_length_message, key_not_found, invalid_argument, out_of_range,
}
use spx.Outcome.Kept.{
  Kept, kept_returns, kept_throws, kept_fault, Kept-and_then, Kept-or_handle, Kept-if, Kept-try,
}
use spx.Net.Sys.{Sys}
use spx.Net.ActiveSocket
use spx.Net.ActiveSocket.{ActiveSocket, c_str}
use spx.Net.Onward.{send-Onward, shutdown_write-Onward}
use spx.Http.Parser.{Parser}
use spx.Cache.Methods
use spx.Clients.Client
use spx.Clients.Client.{Client, same_client}
use spx.Clients.Onward.{get_http_request-At}
use spx.Server.State.{Server}
use spx.Server.Connect
use spx.Server.Requests.{has_clients_with_request}
use spx.Server.Response
use spx.Server.Response.{
  is_ok_status_code, read_request_from_client, send_request_to_server, share_with, start_sharing,
  keep_private, read_response_status_code_from_server, deliver, finish_response,
  read_response_from_server, status_code_offset, status_code_len,
}
use spx.Server.Stable.{IsStable, load-Kept, change-Kept, request_clients-Kept, for_each-Kept}
use spx.Server.Stable.Connect.{prepare_for_sending_request-Kept, read_response_chunk-Kept}
use spx.Server.Stable.Requests.{
  add_to_request_clients-Kept, prepare_all_waiting_clients_for_sending-Kept, discard_client-Kept,
}
use spx.Server.Stable.Share.{
  write_response_chunk_to_client_buffer-Kept, write_response_chunk_to_cache-Kept,
  set_client_to_get_response_from_cache-Kept,
}

module _ {S : Type 0} (P : S → Type 0) where
  converted-Kept : (n : Stoi) (s : S) → P s → Kept P (Response.converted n s)
  converted-Kept (Stoi.value n) s p = kept_returns p
  converted-Kept Stoi.no_conversion s p = kept_throws p
  converted-Kept Stoi.out_of_int s p = kept_throws p

  is_ok_status_code-Kept : (chunk : List ℕ) (s : S) → P s → Kept P (is_ok_status_code chunk s)
  unfolding is_ok_status_code
  is_ok_status_code-Kept chunk s p =
      Kept-if (leb (status_code_offset + status_code_len) (length chunk)) _ _ s
        (converted-Kept (stoi (take status_code_len (drop status_code_offset chunk))) s p)
        (kept_fault tt)

module _ {lib : Parser} {W : Type 0} (sys : Sys W) (P : Server lib W → Type 0)
    (stable : IsStable sys P) where
  pub read_request_from_client-Kept :
      (id : ℕ) (s : Server lib W) → P s → Kept P (read_request_from_client sys id s)
  unfolding read_request_from_client
  read_request_from_client-Kept id s p =
      Kept-try _ _
        (Kept-and_then _ _
          (stable.calling id (Client.get_http_request sys) s (λ n i. get_http_request-At sys n i) p)
          λ _ t q. Kept-and_then _ _ (load-Kept sys P stable id t q) λ c u r.
            Kept-and_then _ _
              (Kept-if (Methods.contains c.request_str u.cache) _ _ u
                (set_client_to_get_response_from_cache-Kept sys P stable id u r)
                (Kept-if (has_clients_with_request c.request_str u) _ _ u
                  (change-Kept sys P stable id _ u (λ x. refl) r)
                  (prepare_for_sending_request-Kept sys P stable id u r)))
              λ _ v k. add_to_request_clients-Kept sys P stable id v k)
        (discard_client-Kept sys P stable id)

  server_connection-Kept :
      (o : Option ActiveSocket) (s : Server lib W)
      → P s
      → Kept P (Connect.server_connection sys o s)
  server_connection-Kept none s p = (kept_fault tt)
  server_connection-Kept (some conn) s p = kept_returns p

  pub send_request_to_server-Kept :
      (id : ℕ) (s : Server lib W) → P s → Kept P (send_request_to_server sys id s)
  unfolding send_request_to_server ActiveSocket.send_string
  send_request_to_server-Kept id s p =
      Kept-try _ _
        (Kept-and_then _ _ (load-Kept sys P stable id s p) λ c t q.
          Kept-and_then _ _ (server_connection-Kept c.server_connection t q) λ conn u r.
            Kept-and_then _ _
              (stable.hosting _ u (λ n. send-Onward sys n conn (c_str c.request_str)) r)
              λ _ v k.
                Kept-and_then _ _ (stable.hosting _ v (λ n. shutdown_write-Onward sys n conn) k)
                  λ _ w l. change-Kept sys P stable id _ w (λ x. refl) l)
        (discard_client-Kept sys P stable id)

  share_with-Kept : (id other : ℕ) (s : Server lib W) → P s → Kept P (share_with sys id other s)
  share_with-Kept id other s p = Kept-and_then _ _ (load-Kept sys P stable id s p) λ client t q.
      Kept-and_then _ _ (load-Kept sys P stable other t q) λ c u r.
        Kept-if (same_client client c) _ _ u (kept_returns r)
          (set_client_to_get_response_from_cache-Kept sys P stable other u r)

  start_sharing-Kept :
      (id : ℕ) (chunk : List ℕ) (s : Server lib W) → P s → Kept P (start_sharing sys id chunk s)
  unfolding start_sharing
  start_sharing-Kept id chunk s p =
      Kept-and_then _ _ (change-Kept sys P stable id _ s (λ x. refl) p) λ _ t q.
        Kept-and_then _ _ (change-Kept sys P stable id _ t (λ x. refl) q) λ _ u r.
          Kept-and_then _ _ (load-Kept sys P stable id u r) λ c v k.
            Kept-and_then _ _ (stable.using c.request_str v k) λ _ w l.
              Kept-and_then _ _ (write_response_chunk_to_cache-Kept sys P stable id chunk w l)
                λ _ x m.
                  Kept-and_then _ _ (request_clients-Kept sys P stable c.request_str x m) λ ids y n.
                    for_each-Kept sys P stable (share_with sys id) ids y (share_with-Kept id) n

  keep_private-Kept :
      (id : ℕ) (chunk : List ℕ) (s : Server lib W) → P s → Kept P (keep_private sys id chunk s)
  unfolding keep_private
  keep_private-Kept id chunk s p =
      Kept-and_then _ _ (write_response_chunk_to_client_buffer-Kept sys P stable id chunk s p)
        λ _ t q.
          Kept-and_then _ _ (load-Kept sys P stable id t q)
            λ c u r. prepare_all_waiting_clients_for_sending-Kept sys P stable c.request_str u r

  pub read_response_status_code_from_server-Kept :
      (id : ℕ) (s : Server lib W) → P s → Kept P (read_response_status_code_from_server sys id s)
  unfolding read_response_status_code_from_server
  read_response_status_code_from_server-Kept id s p =
      Kept-try _ _
        (Kept-and_then _ _ (read_response_chunk-Kept sys P stable id s p) λ chunk t q.
          Kept-and_then _ _ (is_ok_status_code-Kept P chunk t q) λ ok u r.
            Kept-and_then _ _
              (Kept-if ok _ _ u (start_sharing-Kept id chunk u r) (keep_private-Kept id chunk u r))
              λ _ v k. change-Kept sys P stable id _ v (λ x. refl) k)
        λ t q. Kept-and_then _ _ (load-Kept sys P stable id t q) λ c u r.
          Kept-and_then _ _
            (prepare_all_waiting_clients_for_sending-Kept sys P stable c.request_str u r)
            λ _ v k. discard_client-Kept sys P stable id v k

  deliver-Kept :
      (id : ℕ) (chunk : List ℕ) (s : Server lib W) → P s → Kept P (deliver sys id chunk s)
  unfolding deliver
  deliver-Kept id chunk s p = Kept-and_then _ _ (load-Kept sys P stable id s p) λ c t q.
      Kept-if c.should_write_to_cache _ _ t
        (write_response_chunk_to_cache-Kept sys P stable id chunk t q)
        (Kept-if c.should_write_to_all _ _ t
          (Kept-and_then _ _ (request_clients-Kept sys P stable c.request_str t q) λ ids u r.
            for_each-Kept sys P stable _ ids u
              (λ other. write_response_chunk_to_client_buffer-Kept sys P stable other chunk) r)
          (write_response_chunk_to_client_buffer-Kept sys P stable id chunk t q))

  finish_response-Kept : (id : ℕ) (s : Server lib W) → P s → Kept P (finish_response sys id s)
  unfolding finish_response
  finish_response-Kept id s p =
      Kept-and_then _ _ (change-Kept sys P stable id _ s (λ x. refl) p) λ _ t q.
        Kept-and_then _ _ (load-Kept sys P stable id t q) λ c u r.
          Kept-if c.should_write_to_cache _ _ u (stable.completing c.request_str u r) (
            Kept-if c.should_write_to_all _ _ u
              (Kept-and_then _ _ (request_clients-Kept sys P stable c.request_str u r) λ ids v k.
                for_each-Kept sys P stable _ ids v
                  (λ other w l. change-Kept sys P stable other _ w (λ x. refl) l) k)
              (kept_returns r))

  pub read_response_from_server-Kept :
      (id : ℕ) (s : Server lib W) → P s → Kept P (read_response_from_server sys id s)
  unfolding read_response_from_server
  read_response_from_server-Kept id s p =
      Kept-or_handle _ _
        (Kept-and_then _ _ (read_response_chunk-Kept sys P stable id s p)
          λ chunk t q. deliver-Kept id chunk t q)
        handled
    where
      handled : (e : Exn) (t : Server lib W) → P t → Kept P (Response.catch_end_or_error sys id e t)
      handled zero_length_message t q = finish_response-Kept id t q
      handled all_in_use t q = discard_client-Kept sys P stable id t q
      handled exception t q = discard_client-Kept sys P stable id t q
      handled key_not_found t q = discard_client-Kept sys P stable id t q
      handled invalid_argument t q = kept_throws q
      handled out_of_range t q = kept_throws q
