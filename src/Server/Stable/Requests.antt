-- ===== src/Server/Stable/Requests.antt =====
-- What the lists of clients with one request, and `discardClient` of src/server.cpp, keep.
use spx.Prelude.{ℕ, List, [], ◌∷◌, Str, refl, ◌&&◌}
use spx.Outcome.Kept.{Kept, kept_returns, Kept-and_then, Kept-if, Kept-option}
use spx.Dict.{lookup}
use spx.Net.Sys.{Sys}
use spx.Http.Parser.{Parser}
use spx.Clients.Client.{Client, is_reading_from_cache, obtain_server_connection}
use spx.Server.State.{Server}
use spx.Server.Requests
use spx.Server.Requests.{
  add_to_request_clients, without_client, remove_from_request_clients,
  prepare_all_waiting_clients_for_sending, is_waiting_for_response_for_another_client,
  has_clients_with_request,
}
use spx.Server.Discard.{
  find_reading_from_cache, hand_over_connection, pass_on_connection, discard_client,
  is_waiting_response,
}
use spx.Server.Stable.{IsStable, load-Kept, change-Kept, request_clients-Kept, for_each-Kept}
use spx.Server.Stable.Connect.{prepare_for_sending_request-Kept}

module _ {lib : Parser} {W : Type 0} (sys : Sys W) (P : Server lib W → Type 0)
    (stable : IsStable sys P) where
  pub add_to_request_clients-Kept :
      (id : ℕ) (s : Server lib W) → P s → Kept P (add_to_request_clients id s)
  unfolding add_to_request_clients
  add_to_request_clients-Kept id s p = Kept-and_then _ _ (load-Kept sys P stable id s p) λ c t q.
      Kept-option (lookup c.request_str t.request_clients_map) _ _ t
        (kept_returns (stable.mapping _ t q)) λ ids. kept_returns (stable.mapping _ t q)

  without_client-Kept :
      (client : Client lib) (ids : List ℕ) (s : Server lib W)
      → P s
      → Kept P (without_client client ids s)
  unfolding without_client
  without_client-Kept client [] s p = kept_returns p
  without_client-Kept client (id ∷ ids) s p =
      Kept-and_then _ _ (load-Kept sys P stable id s p)
        λ c t q. Kept-and_then _ _ (without_client-Kept client ids t q) λ rest u r. kept_returns r

  remove_from_request_clients-Kept :
      (id : ℕ) (s : Server lib W) → P s → Kept P (remove_from_request_clients id s)
  unfolding remove_from_request_clients
  remove_from_request_clients-Kept id s p =
      Kept-and_then _ _ (load-Kept sys P stable id s p) λ c t q.
        Kept-and_then _ _ (request_clients-Kept sys P stable c.request_str t q) λ ids u r.
          Kept-and_then _ _ (without_client-Kept c ids u r)
            λ rest v k. kept_returns (stable.mapping _ v k)

  prepare_if_waiting-Kept :
      (id : ℕ) (s : Server lib W) → P s → Kept P (Requests.prepare_if_waiting sys id s)
  prepare_if_waiting-Kept id s p = Kept-and_then _ _ (load-Kept sys P stable id s p) λ c t q.
      Kept-if (is_waiting_for_response_for_another_client c.state) _ _ t
        (prepare_for_sending_request-Kept sys P stable id t q) (kept_returns q)

  pub prepare_all_waiting_clients_for_sending-Kept :
      (request : Str) (s : Server lib W)
      → P s
      → Kept P (prepare_all_waiting_clients_for_sending sys request s)
  unfolding prepare_all_waiting_clients_for_sending
  prepare_all_waiting_clients_for_sending-Kept request s p =
      Kept-and_then _ _ (request_clients-Kept sys P stable request s p)
        λ ids t q. for_each-Kept sys P stable _ ids t prepare_if_waiting-Kept q

  find_reading_from_cache-Kept :
      (ids : List ℕ) (s : Server lib W) → P s → Kept P (find_reading_from_cache ids s)
  unfolding find_reading_from_cache
  find_reading_from_cache-Kept [] s p = kept_returns p
  find_reading_from_cache-Kept (id ∷ ids) s p =
      Kept-and_then _ _ (load-Kept sys P stable id s p) λ c t q.
        Kept-if (is_reading_from_cache c) _ _ t (kept_returns q)
          (find_reading_from_cache-Kept ids t q)

  hand_over_connection-Kept :
      (to from : ℕ) (s : Server lib W) → P s → Kept P (hand_over_connection to from s)
  unfolding hand_over_connection obtain_server_connection
  hand_over_connection-Kept to from s p = Kept-and_then _ _ (load-Kept sys P stable to s p) λ r t q.
      Kept-and_then _ _ (load-Kept sys P stable from t q) λ c u k.
        Kept-and_then _ _
          (change-Kept sys P stable to (λ x. (obtain_server_connection x c).0) u (λ x. refl) k)
          λ _ v l.
            change-Kept sys P stable from (λ x. (obtain_server_connection r x).1) v (λ x. refl) l

  pass_on_connection-Kept : (id : ℕ) (s : Server lib W) → P s → Kept P (pass_on_connection sys id s)
  unfolding pass_on_connection
  pass_on_connection-Kept id s p = Kept-and_then _ _ (load-Kept sys P stable id s p) λ c t q.
      Kept-if (is_waiting_response c.state && has_clients_with_request c.request_str t) _ _ t
        (Kept-and_then _ _ (request_clients-Kept sys P stable c.request_str t q) λ ids u r.
          Kept-and_then _ _ (find_reading_from_cache-Kept ids u r) λ found v k.
            Kept-option found _ _ v (kept_returns k)
              λ reader. hand_over_connection-Kept reader id v k)
        (kept_returns q)

  pub discard_client-Kept : (id : ℕ) (s : Server lib W) → P s → Kept P (discard_client sys id s)
  unfolding discard_client
  discard_client-Kept id s p = Kept-and_then _ _ (load-Kept sys P stable id s p) λ c t q.
      Kept-and_then _ _ (request_clients-Kept sys P stable c.request_str t q) λ ids u r.
        Kept-and_then _ _ (remove_from_request_clients-Kept id u r) λ _ v k.
          Kept-and_then _ _ (pass_on_connection-Kept id v k) λ _ w l.
            Kept-and_then _ _ (stable.disusing c.request_str w l) λ _ x m. stable.discarding id x m
