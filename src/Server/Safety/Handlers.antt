-- ===== src/Server/Safety/Handlers.antt =====
-- Lemmas on the handlers of src/server.cpp that send the response, and on the dispatch on a client's
-- events.
use spx.Prelude.{ℕ, ◌≡◌, refl, ◌==◌, ltb, ◌-◌, true, false, some, Bool-cases, inl, inr, arith}
use Prim.Native.Nat.{min}
use spx.Outcome.{
  Exn, pure, throw, is_exception, exception, zero_length_message, all_in_use, key_not_found,
  invalid_argument, out_of_range,
}
use spx.Outcome.Ends.{
  Ends, Ends-mono, returned, threw, and_then-Ends, or_handle-Ends, if-Ends, and_then-Harmless,
}
use spx.Cache.Entry
use spx.Cache.Harmless.{get_entry-Harmless, load_entry-Harmless, read-Harmless}
use spx.Net.Sys.{Sys}
use spx.Http.Parser.{Parser}
use spx.Clients.Client
use spx.Clients.Client.{Client, State, is_got_response}
use spx.Clients.ClientsList.{find_client}
use spx.Clients.Harmless.{send_to_client-Ends, send_to_client_from_chunks-Ends, itself, SameRequest}
use spx.Server.State.{Server, load}
use spx.Server.Connect.{max_chunk_size}
use spx.Server.Discard.{discard_client}
use spx.Server.Sending
use spx.Server.Sending.{
  send_uncached_response_to_client, send_cached_chunk, send_cached_response_to_client,
  send_response_to_client,
}
use spx.Server.Events
use spx.Server.Events.{
  dispatch, send_or_hang_up, handle_client_socket_events, has_pollin, has_pollout, has_error,
  has_pollhup,
}
use spx.Server.Safety.Slots.{Live}
use spx.Server.Safety.Invariant.{Inv, After, After-refl}
use spx.Server.Safety.Tame.{
  needs_server, Wired, Wired-Live, AllJoined-find, edit-Tame, needs_server, Tame, is_new,
}
use spx.Server.Safety.Steps.{Safe, on_cache-Safe, on_client-Safe, load-Safe}
use spx.Server.Safety.Discarding.{discard_client-Ends}
use spx.Server.Safety.Responding.{
  Handled, or_discard-Handled, read_request_from_client-Handled, send_request_to_server-Handled,
}
use spx.Server.Safety.Receiving.{
  read_response_status_code_from_server-Handled, read_response_from_server-Handled,
}

SameRequest-Tame : {lib : Parser} {c d : Client lib} → SameRequest c d → Tame c d
SameRequest-Tame k =
    edit-Tame k.same.id k.same.client_connection k.request_str k.same.state
      (λ w. ground (arith, k.same.server_connection))

module _ {lib : Parser} {W : Type 0} (sys : Sys W) where
  send_uncached_response_to_client-Handled :
      (id : ℕ) (s : Server lib W)
      → Live id s.clients.slots
      → Inv s
      → Handled (send_uncached_response_to_client sys id s)
  unfolding send_uncached_response_to_client
  send_uncached_response_to_client-Handled id s l v = or_discard-Handled sys {base = s} id l (
      and_then-Ends _ (load-Safe id s l (After-refl s v)) λ client t q.
        if-Ends (Sending.is_empty client.chunks) _ _ t
          (λ e.
            if-Ends (is_got_response client.state) _ (pure tt) t
              (λ e'. discard_client-Ends sys id t l q.0) (λ e'. returned q.0.inv))
          (λ e.
            Ends-mono
              (on_client-Safe id (Client.send_to_client_from_chunks sys) t
                (λ c h f.
                  Ends-mono
                    (send_to_client_from_chunks-Ends sys c (record { client = c; host = h })
                      (itself c))
                    (λ u w k. SameRequest-Tame k) (λ w k. SameRequest-Tame k))
                (q.0.alive id l) q.0)
              (λ u w k. k.inv) (λ w k. k)))

  send_cached_chunk-Safe :
      {base : Server lib W} (id received_bytes : ℕ) (s : Server lib W)
      → Live id base.clients.slots
      → After base s
      → Safe base (send_cached_chunk sys id received_bytes s)
  unfolding send_cached_chunk
  send_cached_chunk-Safe id received_bytes s l a =
      and_then-Ends _ (load-Safe id s (a.alive id l) a) λ client t q.
        let size = min (received_bytes - client.sent_bytes) max_chunk_size in
        and_then-Ends _
          (on_cache-Safe _ t (read-Harmless client.request_str client.sent_bytes size) q.0)
          λ chunk t1 b.
            and_then-Ends _
              (on_client-Safe id (Client.send_to_client sys chunk) t1
                (λ c h f.
                  Ends-mono
                    (send_to_client-Ends sys chunk c (record { client = c; host = h }) (itself c))
                    (λ n w k. SameRequest-Tame k) (λ w k. SameRequest-Tame k))
                (b.alive id l) b)
              λ n t2 d. returned d

  catch_missing_or_error-Handled :
      {base : Server lib W} (id : ℕ) (e : Exn) (s : Server lib W)
      → Live id base.clients.slots
      → After base s
      → Handled (Sending.catch_missing_or_error sys id e s)
  catch_missing_or_error-Handled id key_not_found s l a = returned a.inv
  catch_missing_or_error-Handled id zero_length_message s l a =
      Ends-mono (discard_client-Ends sys id s l a) (λ u t k. k) (λ t k. k.inv)
  catch_missing_or_error-Handled id exception s l a =
      Ends-mono (discard_client-Ends sys id s l a) (λ u t k. k) (λ t k. k.inv)
  catch_missing_or_error-Handled id all_in_use s l a =
      Ends-mono (discard_client-Ends sys id s l a) (λ u t k. k) (λ t k. k.inv)
  catch_missing_or_error-Handled id invalid_argument s l a = threw a.inv
  catch_missing_or_error-Handled id out_of_range s l a = threw a.inv

  send_cached_response_to_client-Handled :
      (id : ℕ) (s : Server lib W)
      → Live id s.clients.slots
      → Inv s
      → Handled (send_cached_response_to_client sys id s)
  unfolding send_cached_response_to_client
  send_cached_response_to_client-Handled id s l v =
      or_handle-Ends {R = After s} _
        (and_then-Ends _ (load-Safe id s l (After-refl s v)) λ client t q.
          and_then-Ends _
            (on_cache-Safe _ t
              (λ c.
                and_then-Harmless _ _ (get_entry-Harmless client.request_str c)
                  λ e d. load_entry-Harmless e d)
              q.0)
            λ entry t1 a.
              if-Ends (ltb client.sent_bytes (Entry.size entry)) _ _ t1
                (λ e.
                  Ends-mono (send_cached_chunk-Safe id (Entry.size entry) t1 l a) (λ u w k. k.inv)
                    (λ w k. k))
                (λ e.
                  if-Ends entry.completed _ (pure tt) t1 (λ e'. discard_client-Ends sys id t1 l a)
                    (λ e'. returned a.inv)))
        λ e t a. catch_missing_or_error-Handled id e t l a

  load-Handled :
      (id : ℕ) (s : Server lib W)
      → Live id s.clients.slots
      → Inv s
      → Ends (λ c t. After s t × (find_client id t.clients.slots ≡ some c)) Inv (load id s)
  load-Handled id s l v = Ends-mono (load-Safe id s l (After-refl s v)) (λ c t q. q) (λ t k. k.inv)

  send_response_to_client-Handled :
      (id : ℕ) (s : Server lib W)
      → Live id s.clients.slots
      → Inv s
      → Handled (send_response_to_client sys id s)
  unfolding send_response_to_client
  send_response_to_client-Handled id s l v = and_then-Ends _ (load-Handled id s l v) λ client t q.
      if-Ends client.should_read_from_cache _ _ t
        (λ e. send_cached_response_to_client-Handled id t (q.0.alive id l) q.0.inv)
        (λ e. send_uncached_response_to_client-Handled id t (q.0.alive id l) q.0.inv)

  discard_client-Handled :
      (id : ℕ) (s : Server lib W)
      → Live id s.clients.slots
      → Inv s
      → Handled (discard_client sys id s)
  discard_client-Handled id s l v =
      Ends-mono (discard_client-Ends sys {base = s} id s l (After-refl s v)) (λ u t k. k)
        (λ t k. k.inv)

  send_or_hang_up-Handled :
      (id revents : ℕ) (s : Server lib W)
      → Live id s.clients.slots
      → Inv s
      → Handled (send_or_hang_up sys id revents s)
  unfolding send_or_hang_up
  send_or_hang_up-Handled id revents s l v =
      if-Ends (revents == Events.pollhup) _ _ s (λ e. discard_client-Handled id s l v)
        λ e.
          if-Ends (has_pollout revents) _ (pure tt) s
            (λ e'. send_response_to_client-Handled id s l v) (λ e'. returned v)

  -- After a read, the client may be gone, and nothing is done with it.
  read_only_lem :
      (id revents : ℕ) (s : Server lib W)
      → has_pollin revents ≡ true
      → has_pollout revents ≡ false
      → Inv s
      → Handled (send_or_hang_up sys id revents s)
  unfolding send_or_hang_up
  read_only_lem id revents s i o v =
      if-Ends (revents == Events.pollhup) _ _ s (λ e. let no : ⊥ = ground arith in absurd no)
        λ e.
          if-Ends (has_pollout revents) _ (pure tt) s (λ e'. let no : ⊥ = ground arith in absurd no)
            (λ e'. returned v)

  waiting_response-Handled :
      (id revents : ℕ) (s : Server lib W)
      → (has_pollin revents ≡ true → has_pollout revents ≡ false)
      → Wired id s.clients.slots
      → Inv s
      → Handled (dispatch sys State.waiting_response id revents s)
  unfolding dispatch
  waiting_response-Handled id revents s contract w v = elim (Bool-cases (has_pollin revents)) [
    | inl e ↦
        rw (e, dispatch)
          (and_then-Ends _ (read_response_from_server-Handled sys id s w v)
            λ u t k. read_only_lem id revents t e (contract e) k)
    | inr e ↦ rw (e, dispatch) (send_or_hang_up-Handled id revents s (Wired-Live _ _ w) v)
  ]

  -- The invariant gives a client the connection that its state needs.
  wired :
      (id : ℕ) (s : Server lib W) (c : Client lib)
      → find_client id s.clients.slots ≡ some c
      → Inv s
      → needs_server c.state ≡ true
      → Wired id s.clients.slots
  wired id s c f v n = (c, f, AllJoined-find id s.clients.slots c f v.joined n)

  dispatch-Handled :
      (st : State) (id revents : ℕ) (s : Server lib W) (c : Client lib)
      → (has_pollin revents ≡ true → has_pollout revents ≡ false)
      → find_client id s.clients.slots ≡ some c
      → c.state ≡ st
      → Inv s
      → Handled (dispatch sys st id revents s)
  unfolding dispatch is_new needs_server
  dispatch-Handled State.waiting_for_request id revents s c k f e v =
      read_request_from_client-Handled sys id s c f (rw e refl) v
  dispatch-Handled State.waiting_for_response_for_another_client id revents s c k f e v = returned v
  dispatch-Handled State.sending_request id revents s c k f e v =
      if-Ends (has_pollhup revents) _ _ s (λ q. discard_client-Handled id s (c, f) v)
        (λ q. send_request_to_server-Handled sys id s (wired id s c f v (rw e refl)) v)
  dispatch-Handled State.waiting_response_status_code id revents s c k f e v =
      read_response_status_code_from_server-Handled sys id s (wired id s c f v (rw e refl)) v
  dispatch-Handled State.waiting_response id revents s c k f e v =
      waiting_response-Handled id revents s k (wired id s c f v (rw e refl)) v
  dispatch-Handled State.getting_response_from_another_client id revents s c k f e v =
      send_or_hang_up-Handled id revents s (c, f) v
  dispatch-Handled State.got_response id revents s c k f e v =
      send_or_hang_up-Handled id revents s (c, f) v

  pub handle_client_socket_events-Handled :
      (id revents : ℕ) (s : Server lib W)
      → (has_pollin revents ≡ true → has_pollout revents ≡ false)
      → Live id s.clients.slots
      → Inv s
      → Handled (handle_client_socket_events sys id revents s)
  unfolding handle_client_socket_events
  handle_client_socket_events-Handled id revents s k l v =
      or_handle-Ends {R = Inv} _
        (and_then-Ends _ (load-Handled id s l v) λ client t q.
          if-Ends (has_error revents) _ _ t
            (λ e. discard_client-Handled id t (q.0.alive id l) q.0.inv)
            (λ e. dispatch-Handled client.state id revents t client k q.1 refl q.0.inv))
        λ e t a. if-Ends (is_exception e) (pure tt) (throw e) t (λ q. returned a) (λ q. threw a)
