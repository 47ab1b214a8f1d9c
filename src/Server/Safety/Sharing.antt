-- ===== src/Server/Safety/Sharing.antt =====
-- Lemmas on the methods of src/server.cpp that bring a response to the clients with its request.
use spx.Prelude.{ℕ, refl, ◌++◌, ◌∷◌, [], ltb, length, drop, true, List, if◌then◌else◌}
use spx.Outcome.{
  Exn, pure, ◌>>=◌, ◌>>◌, exception, zero_length_message, all_in_use, key_not_found,
  invalid_argument, out_of_range,
}
use spx.Outcome.Ends.{
  Ends, Ends-mono, returned, threw, and_then-Ends, or_handle-Ends, if-Ends, and_then-Harmless,
}
use spx.Cache.Methods
use spx.Cache.Methods.{Cache}
use spx.Cache.Harmless.{
  get_entry-Harmless, load_entry-Harmless, write-Harmless, use_entry-Harmless,
  disuse_entry-Harmless,
}
use spx.Http.Parser.{Parser}
use spx.Server.State.{Server, on_cache, load, change}
use spx.Server.Sharing
use spx.Server.Sharing.{
  write_response_chunk_to_client_buffer, write_response_chunk_to_cache, fall_back,
  fallback_to_client_buffer, set_client_to_get_response_from_cache,
}
use spx.Server.Safety.Slots.{Live}
use spx.Server.Safety.Invariant.{After, After-refl}
use spx.Server.Safety.Tame.{
  needs_server, Wired, Wired-Live, Wired-found, edit-Tame, advance-Tame, Ready, is_new,
}
use spx.Server.Safety.Steps.{
  Safe, on_cache-Safe, load-Safe, change-Safe, change-Ready, After-trans, request_clients-Safe,
  for_each-Safe, rebase,
}

module _ {lib : Parser} {W : Type 0} {base : Server lib W} where
  pub write_response_chunk_to_client_buffer-Safe :
      (id : ℕ) (chunk : List ℕ) (s : Server lib W)
      → Live id s.clients.slots
      → After base s
      → Safe base (write_response_chunk_to_client_buffer id chunk s)
  unfolding write_response_chunk_to_client_buffer
  write_response_chunk_to_client_buffer-Safe id chunk s l a =
      change-Safe id _ s (λ c e. edit-Tame refl refl refl refl (λ w. w)) l a

  catch_up-Safe :
      (id : ℕ) (buffer : List ℕ) (s : Server lib W)
      → Live id base.clients.slots
      → After base s
      → Safe base (
          (do
            c ← load id
            if ltb c.sent_bytes (length buffer)
                then change id
                    (λ c. record c { chunks = c.chunks ++ drop c.sent_bytes buffer ∷ [] })
                else pure tt)
            s)
  catch_up-Safe id buffer s l a = and_then-Ends _ (load-Safe id s (a.alive id l) a) λ c t q.
      if-Ends (ltb c.sent_bytes (length buffer)) _ (pure tt) t
        (λ e.
          change-Safe id _ t (λ d e. edit-Tame refl refl refl refl (λ w. w)) (q.0.alive id l) q.0)
        (λ e. returned q.0)

  fall_back-Safe :
      (chunk : List ℕ) (id : ℕ) (s : Server lib W)
      → Live id base.clients.slots
      → After base s
      → Safe base (fall_back chunk id s)
  unfolding fall_back is_new needs_server
  fall_back-Safe chunk id s l a =
      and_then-Ends _
        (change-Safe id _ s (λ c e. advance-Tame refl refl refl refl (λ m. cc) (λ w. w))
          (a.alive id l) a)
        λ u t b. and_then-Ends _ (load-Safe id t (b.alive id l) b) λ client t' q.
          and_then-Ends _
            (on_cache-Safe _ t'
              (λ c.
                and_then-Harmless _ _ (get_entry-Harmless client.request_str c)
                  λ e d. load_entry-Harmless e d)
              q.0)
            λ entry v d. and_then-Ends _ (catch_up-Safe id entry.buffer v l d) λ u' w e.
              and_then-Ends _
                (write_response_chunk_to_client_buffer-Safe id chunk w (e.alive id l) e)
                λ u'' x f. on_cache-Safe _ x (disuse_entry-Harmless client.request_str) f

module _ {lib : Parser} {W : Type 0} {base : Server lib W} where
  fallback_to_client_buffer-Safe :
      (original : ℕ) (chunk : List ℕ) (s : Server lib W)
      → Wired original base.clients.slots
      → After base s
      → Safe base (fallback_to_client_buffer original chunk s)
  unfolding fallback_to_client_buffer is_new needs_server
  fallback_to_client_buffer-Safe original chunk s l a =
      and_then-Ends _ (load-Safe original s (Wired-Live _ _ (a.wired original l)) a) λ client t q.
        and_then-Ends _ (request_clients-Safe client.request_str t q.0) λ ids t' r.
          and_then-Ends _
            (for_each-Safe client.request_str (fall_back chunk) ids t'
              (λ id v b k. rebase b (fall_back-Safe chunk id v k (After-refl v b.inv))) r.0 r.1)
            λ u v b.
              change-Safe original _ v
                (λ c e.
                  advance-Tame refl refl refl refl
                    (λ m. Wired-found original _ c (b.wired original l) e) (λ w. w))
                (Wired-Live _ _ (b.wired original l)) b

  caught-Safe :
      (id : ℕ) (chunk : List ℕ) (e : Exn) (s : Server lib W)
      → Wired id base.clients.slots
      → After base s
      → Safe base (Sharing.catch_all_in_use (fallback_to_client_buffer id chunk) e s)
  caught-Safe id chunk all_in_use s l a = fallback_to_client_buffer-Safe id chunk s l a
  caught-Safe id chunk exception s l a = threw a
  caught-Safe id chunk zero_length_message s l a = threw a
  caught-Safe id chunk key_not_found s l a = threw a
  caught-Safe id chunk invalid_argument s l a = threw a
  caught-Safe id chunk out_of_range s l a = threw a

  pub write_response_chunk_to_cache-Safe :
      (id : ℕ) (chunk : List ℕ) (s : Server lib W)
      → Wired id base.clients.slots
      → After base s
      → Safe base (write_response_chunk_to_cache id chunk s)
  unfolding write_response_chunk_to_cache
  write_response_chunk_to_cache-Safe id chunk s l a =
      and_then-Ends _ (load-Safe id s (Wired-Live _ _ (a.wired id l)) a) λ client t q.
        or_handle-Ends _ (on_cache-Safe _ t (write-Harmless client.request_str chunk) q.0)
          λ e v b. caught-Safe id chunk e v l b

  pub set_client_to_get_response_from_cache-Ready :
      (id : ℕ) (s : Server lib W)
      → Live id base.clients.slots
      → After base s
      → Ends
          (λ u t. After base t × Ready id t.clients.slots)
          (After base)
          (set_client_to_get_response_from_cache id s)
  unfolding set_client_to_get_response_from_cache is_new needs_server
  set_client_to_get_response_from_cache-Ready id s l a =
      and_then-Ends _
        (change-Ready id _ s (λ c e. advance-Tame refl refl refl refl (λ m. cc) (λ w. w))
          (λ c. refl) l a)
        λ u t b.
          Ends-mono (rest {base = t} t (b.0.alive id l) (After-refl t b.0.inv))
            (λ u' v k. (After-trans b.0 k, k.ready id b.1)) (λ v k. After-trans b.0 k)
    where
      rest :
          {base : Server lib W} (t : Server lib W)
          → Live id base.clients.slots
          → After base t
          → Safe base (
              (do
                client ← load id
                on_cache (Methods.use_entry client.request_str)
                change id (λ c. record c { should_read_from_cache = true }))
                t)
      rest t l b = and_then-Ends _ (load-Safe id t (b.alive id l) b) λ client t' q.
          and_then-Ends _ (on_cache-Safe _ t' (use_entry-Harmless client.request_str) q.0) λ u' v d.
            change-Safe id _ v (λ c e. edit-Tame refl refl refl refl (λ w. w)) (d.alive id l) d

  pub set_client_to_get_response_from_cache-Safe :
      (id : ℕ) (s : Server lib W)
      → Live id base.clients.slots
      → After base s
      → Safe base (set_client_to_get_response_from_cache id s)
  set_client_to_get_response_from_cache-Safe id s l a =
      Ends-mono (set_client_to_get_response_from_cache-Ready id s l a) (λ u t k. k.0) (λ t k. k)
