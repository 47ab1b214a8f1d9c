-- ===== src/Server/Safety/Delivering.antt =====
-- Lemmas on what the handlers of src/server.cpp do with a part of a response.
use spx.Prelude.{leb, length, take, drop, ℕ, refl, List}
use spx.Prelude.Int.{Stoi, stoi}
use spx.Outcome.{pure, fail, out_of_bounds}
use spx.Outcome.Ends.{Ends, returned, threw, faulted, and_then-Ends, if-Ends, and_then-Harmless}
use spx.Cache.Entry
use spx.Cache.Harmless.{get_entry-Harmless, update_entry-Harmless, use_entry-Harmless}
use spx.Net.Sys.{Sys}
use spx.Http.Parser.{Parser}
use spx.Clients.Client.{same_client}
use spx.Server.State.{Server}
use spx.Server.Response
use spx.Server.Response.{
  read_request_from_client, send_request_to_server, start_sharing, keep_private, is_ok_status_code,
  read_response_status_code_from_server, deliver, finish_response, read_response_from_server,
}
use spx.Server.Safety.Slots.{Live}
use spx.Server.Safety.Invariant.{After, After-refl}
use spx.Server.Safety.Tame.{needs_server, Wired, Wired-Live, edit-Tame, advance-Tame, is_new}
use spx.Server.Safety.Steps.{
  Safe, on_cache-Safe, load-Safe, change-Safe, request_clients-Safe, for_each-Safe, rebase,
}
use spx.Server.Safety.Listing.{prepare_all_waiting_clients_for_sending-Safe}
use spx.Server.Safety.Sharing.{
  write_response_chunk_to_client_buffer-Safe, write_response_chunk_to_cache-Safe,
  set_client_to_get_response_from_cache-Safe,
}

module _ {lib : Parser} {W : Type 0} (sys : Sys W) where
  pub is_ok_status_code-Ends :
      (chunk : List ℕ) (P : Server lib W → Type 0) (s : Server lib W)
      → P s
      → Ends (λ b t. P t) P (is_ok_status_code chunk s)
  unfolding is_ok_status_code
  is_ok_status_code-Ends chunk P s h =
      if-Ends (leb 12 (length chunk)) _ (fail out_of_bounds) s
        (λ e. converted-Ends (stoi (take 3 (drop 9 chunk)))) (λ e. faulted tt)
    where
      converted-Ends : (r : Stoi) → Ends (λ b t. P t) P (Response.converted r s)
      converted-Ends (Stoi.value n) = returned h
      converted-Ends Stoi.no_conversion = threw h
      converted-Ends Stoi.out_of_int = threw h

module _ {lib : Parser} {W : Type 0} (sys : Sys W) {base : Server lib W} where
  share_with-Safe :
      (id other : ℕ) (s : Server lib W)
      → Live id base.clients.slots
      → Live other base.clients.slots
      → After base s
      → Safe base (Response.share_with sys id other s)
  share_with-Safe id other s l k a = and_then-Ends _ (load-Safe id s (a.alive id l) a) λ client t q.
      and_then-Ends _ (load-Safe other t (q.0.alive other k) q.0) λ c t1 r.
        if-Ends (same_client client c) (pure tt) _ t1 (λ e. returned r.0)
          (λ e. set_client_to_get_response_from_cache-Safe other t1 k r.0)

module _ {lib : Parser} {W : Type 0} (sys : Sys W) {base : Server lib W} where
  pub start_sharing-Safe :
      (id : ℕ) (chunk : List ℕ) (s : Server lib W)
      → Wired id base.clients.slots
      → After base s
      → Safe base (start_sharing sys id chunk s)
  unfolding start_sharing
  start_sharing-Safe id chunk s l a =
      and_then-Ends _
        (change-Safe id _ s (λ c e. edit-Tame refl refl refl refl (λ w. w))
          (Wired-Live _ _ (a.wired id l)) a)
        λ u t b.
          and_then-Ends _
            (change-Safe id _ t (λ c e. edit-Tame refl refl refl refl (λ w. w))
              (Wired-Live _ _ (b.wired id l)) b)
            λ u1 t1 c.
              and_then-Ends _ (load-Safe id t1 (Wired-Live _ _ (c.wired id l)) c) λ client t2 q.
                and_then-Ends _ (on_cache-Safe _ t2 (use_entry-Harmless client.request_str) q.0)
                  λ u2 t3 d.
                    and_then-Ends _ (write_response_chunk_to_cache-Safe id chunk t3 l d) λ u3 t4 e.
                      and_then-Ends _ (request_clients-Safe client.request_str t4 e) λ ids t5 r.
                        for_each-Safe client.request_str _ ids t5
                          (λ other v f k. rebase f (
                            share_with-Safe sys id other v
                              (f.alive id (Wired-Live _ _ (r.0.wired id l))) k
                              (After-refl v f.inv)))
                          r.0 r.1

  pub keep_private-Safe :
      (id : ℕ) (chunk : List ℕ) (s : Server lib W)
      → Live id base.clients.slots
      → After base s
      → Safe base (keep_private sys id chunk s)
  unfolding keep_private
  keep_private-Safe id chunk s l a =
      and_then-Ends _ (write_response_chunk_to_client_buffer-Safe id chunk s (a.alive id l) a)
        λ u t b.
          and_then-Ends _ (load-Safe id t (b.alive id l) b) λ client t1 q.
            prepare_all_waiting_clients_for_sending-Safe sys client.request_str t1 q.0

  pub deliver-Safe :
      (id : ℕ) (chunk : List ℕ) (s : Server lib W)
      → Wired id base.clients.slots
      → After base s
      → Safe base (deliver sys id chunk s)
  unfolding deliver
  deliver-Safe id chunk s l a =
      and_then-Ends _ (load-Safe id s (Wired-Live _ _ (a.wired id l)) a) λ client t q.
        if-Ends client.should_write_to_cache _ _ t
          (λ e. write_response_chunk_to_cache-Safe id chunk t l q.0)
          (λ e.
            if-Ends client.should_write_to_all _ _ t
              (λ e'. and_then-Ends _ (request_clients-Safe client.request_str t q.0) λ ids t1 r.
                for_each-Safe client.request_str _ ids t1
                  (λ other v f k. write_response_chunk_to_client_buffer-Safe other chunk v k f) r.0
                  r.1)
              (λ e'.
                write_response_chunk_to_client_buffer-Safe id chunk t
                  (Wired-Live _ _ (q.0.wired id l)) q.0))

  pub finish_response-Safe :
      (id : ℕ) (s : Server lib W)
      → Live id base.clients.slots
      → After base s
      → Safe base (finish_response sys id s)
  unfolding finish_response is_new needs_server
  finish_response-Safe id s l a =
      and_then-Ends _
        (change-Safe id _ s (λ c e. advance-Tame refl refl refl refl (λ m. cc) (λ w. w))
          (a.alive id l) a)
        λ u t b. and_then-Ends _ (load-Safe id t (b.alive id l) b) λ client t1 q.
          if-Ends client.should_write_to_cache _ _ t1
            (λ e.
              on_cache-Safe _ t1
                (λ c.
                  and_then-Harmless _ _ (get_entry-Harmless client.request_str c)
                    λ entry d. update_entry-Harmless entry Entry.complete d)
                q.0)
            (λ e.
              if-Ends client.should_write_to_all _ (pure tt) t1
                (λ e'. and_then-Ends _ (request_clients-Safe client.request_str t1 q.0) λ ids t2 r.
                  for_each-Safe client.request_str _ ids t2
                    (λ other v f k.
                      change-Safe other _ v
                        (λ c e. advance-Tame refl refl refl refl (λ m. cc) (λ w. w)) k f)
                    r.0 r.1)
                (λ e'. returned q.0))
