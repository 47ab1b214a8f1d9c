-- ===== src/Server/Stable/Send.antt =====
-- What the handlers of src/server.cpp that send a response to a client keep.
use Prim.Native.Nat.{min}
use spx.Prelude.{ℕ, ◌-◌, ltb}
use spx.Outcome.{
  Exn, all_in_use, exception, zero_length_message, key_not_found, invalid_argument, out_of_range,
}
use spx.Outcome.Kept.{
  Kept, kept_returns, kept_throws, Kept-and_then, Kept-or_handle, Kept-if, Kept-try,
}
use spx.Cache.Entry
use spx.Net.Sys.{Sys}
use spx.Http.Parser.{Parser}
use spx.Clients.Client
use spx.Clients.Client.{State, is_got_response}
use spx.Clients.Onward.{send_to_client-At, send_to_client_from_chunks-At}
use spx.Server.Connect.{max_chunk_size}
use spx.Server.State.{Server}
use spx.Server.Sending
use spx.Server.Sending.{
  is_empty, send_uncached_response_to_client, send_cached_chunk, send_cached_response_to_client,
  send_response_to_client,
}
use spx.Server.Stable.{IsStable, load-Kept}
use spx.Server.Stable.Requests.{discard_client-Kept}

module _ {lib : Parser} {W : Type 0} (sys : Sys W) (P : Server lib W → Type 0)
    (stable : IsStable sys P) where
  send_uncached_response_to_client-Kept :
      (id : ℕ) (s : Server lib W) → P s → Kept P (send_uncached_response_to_client sys id s)
  unfolding send_uncached_response_to_client
  send_uncached_response_to_client-Kept id s p =
      Kept-try _ _
        (Kept-and_then _ _ (load-Kept sys P stable id s p) λ c t q.
          Kept-if (is_empty c.chunks) _ _ t
            (Kept-if (is_got_response c.state) _ _ t (discard_client-Kept sys P stable id t q)
              (kept_returns q))
            (stable.calling id (Client.send_to_client_from_chunks sys) t
              (λ n i. send_to_client_from_chunks-At sys n i) q))
        (discard_client-Kept sys P stable id)

  send_cached_chunk-Kept :
      (id received_bytes : ℕ) (s : Server lib W)
      → P s
      → Kept P (send_cached_chunk sys id received_bytes s)
  unfolding send_cached_chunk
  send_cached_chunk-Kept id received_bytes s p =
      Kept-and_then _ _ (load-Kept sys P stable id s p) λ c t q.
        Kept-and_then _ _
          (stable.reading c.request_str c.sent_bytes
            (min (received_bytes - c.sent_bytes) max_chunk_size) t q)
          λ chunk u r.
            Kept-and_then _ _
              (stable.calling id (Client.send_to_client sys chunk) u
                (λ n i. send_to_client-At sys n i chunk) r)
              λ _ v k. kept_returns k

  send_cached_response_to_client-Kept :
      (id : ℕ) (s : Server lib W) → P s → Kept P (send_cached_response_to_client sys id s)
  unfolding send_cached_response_to_client
  send_cached_response_to_client-Kept id s p =
      Kept-or_handle _ _
        (Kept-and_then _ _ (load-Kept sys P stable id s p) λ c t q.
          Kept-and_then _ _ (stable.getting c.request_str t q) λ entry u r.
            Kept-if (ltb c.sent_bytes (Entry.size entry)) _ _ u
              (send_cached_chunk-Kept id (Entry.size entry) u r)
              (Kept-if entry.completed _ _ u (discard_client-Kept sys P stable id u r)
                (kept_returns r)))
        handled
    where
      handled :
          (e : Exn) (t : Server lib W) → P t → Kept P (Sending.catch_missing_or_error sys id e t)
      handled key_not_found t q = kept_returns q
      handled all_in_use t q = discard_client-Kept sys P stable id t q
      handled exception t q = discard_client-Kept sys P stable id t q
      handled zero_length_message t q = discard_client-Kept sys P stable id t q
      handled invalid_argument t q = kept_throws q
      handled out_of_range t q = kept_throws q

  pub send_response_to_client-Kept :
      (id : ℕ) (s : Server lib W) → P s → Kept P (send_response_to_client sys id s)
  unfolding send_response_to_client
  send_response_to_client-Kept id s p = Kept-and_then _ _ (load-Kept sys P stable id s p) λ c t q.
      Kept-if c.should_read_from_cache _ _ t (send_cached_response_to_client-Kept id t q)
        (send_uncached_response_to_client-Kept id t q)
