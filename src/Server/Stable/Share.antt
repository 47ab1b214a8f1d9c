-- ===== src/Server/Stable/Share.antt =====
-- What the methods of src/server.cpp that bring one response to all its clients keep.
use spx.Prelude.{ℕ, List, ltb, length, refl}
use spx.Outcome.{
  Exn, all_in_use, exception, zero_length_message, key_not_found, invalid_argument, out_of_range,
}
use spx.Outcome.Kept.{Kept, kept_returns, kept_throws, Kept-and_then, Kept-or_handle, Kept-if}
use spx.Net.Sys.{Sys}
use spx.Http.Parser.{Parser}
use spx.Server.State.{Server}
use spx.Server.Sharing
use spx.Server.Sharing.{
  write_response_chunk_to_client_buffer, catch_up, fall_back, fallback_to_client_buffer,
  write_response_chunk_to_cache, set_client_to_get_response_from_cache,
}
use spx.Server.Stable.{IsStable, load-Kept, change-Kept, request_clients-Kept, for_each-Kept}

module _ {lib : Parser} {W : Type 0} (sys : Sys W) (P : Server lib W → Type 0)
    (stable : IsStable sys P) where
  pub write_response_chunk_to_client_buffer-Kept :
      (id : ℕ) (chunk : List ℕ) (s : Server lib W)
      → P s
      → Kept P (write_response_chunk_to_client_buffer id chunk s)
  unfolding write_response_chunk_to_client_buffer
  write_response_chunk_to_client_buffer-Kept id chunk s p =
      change-Kept sys P stable id _ s (λ x. refl) p

  catch_up-Kept :
      (id : ℕ) (buffer : List ℕ) (s : Server lib W) → P s → Kept P (catch_up id buffer s)
  catch_up-Kept id buffer s p = Kept-and_then _ _ (load-Kept sys P stable id s p) λ c t q.
      Kept-if (ltb c.sent_bytes (length buffer)) _ _ t
        (change-Kept sys P stable id _ t (λ x. refl) q) (kept_returns q)

  fall_back-Kept :
      (chunk : List ℕ) (id : ℕ) (s : Server lib W) → P s → Kept P (fall_back chunk id s)
  unfolding fall_back
  fall_back-Kept chunk id s p =
      Kept-and_then _ _ (change-Kept sys P stable id _ s (λ x. refl) p) λ _ t q.
        Kept-and_then _ _ (load-Kept sys P stable id t q) λ c u r.
          Kept-and_then _ _ (stable.getting c.request_str u r) λ entry v k.
            Kept-and_then _ _ (catch_up-Kept id entry.buffer v k) λ _ w l.
              Kept-and_then _ _ (write_response_chunk_to_client_buffer-Kept id chunk w l)
                λ _ x m. stable.disusing c.request_str x m

  fallback_to_client_buffer-Kept :
      (id : ℕ) (chunk : List ℕ) (s : Server lib W)
      → P s
      → Kept P (fallback_to_client_buffer id chunk s)
  unfolding fallback_to_client_buffer
  fallback_to_client_buffer-Kept id chunk s p =
      Kept-and_then _ _ (load-Kept sys P stable id s p) λ c t q.
        Kept-and_then _ _ (request_clients-Kept sys P stable c.request_str t q) λ ids u r.
          Kept-and_then _ _
            (for_each-Kept sys P stable (fall_back chunk) ids u (fall_back-Kept chunk) r)
            λ _ v k. change-Kept sys P stable id _ v (λ x. refl) k

  pub write_response_chunk_to_cache-Kept :
      (id : ℕ) (chunk : List ℕ) (s : Server lib W)
      → P s
      → Kept P (write_response_chunk_to_cache id chunk s)
  unfolding write_response_chunk_to_cache
  write_response_chunk_to_cache-Kept id chunk s p =
      Kept-and_then _ _ (load-Kept sys P stable id s p)
        λ c t q. Kept-or_handle _ _ (stable.writing c.request_str chunk t q) handled
    where
      handled :
          (e : Exn) (t : Server lib W)
          → P t
          → Kept P (Sharing.catch_all_in_use (fallback_to_client_buffer id chunk) e t)
      handled all_in_use t q = fallback_to_client_buffer-Kept id chunk t q
      handled exception t q = kept_throws q
      handled zero_length_message t q = kept_throws q
      handled key_not_found t q = kept_throws q
      handled invalid_argument t q = kept_throws q
      handled out_of_range t q = kept_throws q

  pub set_client_to_get_response_from_cache-Kept :
      (id : ℕ) (s : Server lib W) → P s → Kept P (set_client_to_get_response_from_cache id s)
  unfolding set_client_to_get_response_from_cache
  set_client_to_get_response_from_cache-Kept id s p =
      Kept-and_then _ _ (change-Kept sys P stable id _ s (λ x. refl) p) λ _ t q.
        Kept-and_then _ _ (load-Kept sys P stable id t q) λ c u r.
          Kept-and_then _ _ (stable.using c.request_str u r)
            λ _ v k. change-Kept sys P stable id _ v (λ x. refl) k
