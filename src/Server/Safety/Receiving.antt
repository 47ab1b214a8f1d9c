-- ===== src/Server/Safety/Receiving.antt =====
-- Lemmas on the handlers of src/server.cpp that read the response.
use spx.Prelude.{ℕ, refl, if◌then◌else◌}
use spx.Outcome.{
  Exn, throw, ◌>>=◌, ◌>>◌, is_exception, exception, zero_length_message, all_in_use, key_not_found,
  invalid_argument, out_of_range,
}
use spx.Outcome.Ends.{Ends-mono, threw, and_then-Ends, or_handle-Ends, if-Ends}
use spx.Net.Sys.{Sys}
use spx.Http.Parser.{Parser}
use spx.Clients.Client.{State}
use spx.Server.State.{Server, change}
use spx.Server.Response
use spx.Server.Response.{
  read_request_from_client, send_request_to_server, start_sharing, keep_private, is_ok_status_code,
  read_response_status_code_from_server, deliver, finish_response, read_response_from_server,
}
use spx.Server.Connect.{read_response_chunk}
use spx.Server.Safety.Slots.{Live}
use spx.Server.Safety.Invariant.{Inv, After, After-refl}
use spx.Server.Safety.Tame.{Wired, needs_server, Wired-Live, Wired-found, advance-Tame, is_new}
use spx.Server.Safety.Steps.{Safe, load-Safe, change-Safe}
use spx.Server.Safety.Connecting.{read_response_chunk-Safe}
use spx.Server.Safety.Listing.{prepare_all_waiting_clients_for_sending-Safe}
use spx.Server.Safety.Discarding.{discard_client-Ends}
use spx.Server.Safety.Responding.{Handled, after_inv}
use spx.Server.Safety.Delivering.{
  is_ok_status_code-Ends, start_sharing-Safe, keep_private-Safe, deliver-Safe, finish_response-Safe,
}

module _ {lib : Parser} {W : Type 0} (sys : Sys W) where
  catch_end_or_error-Handled :
      {base : Server lib W} (id : ℕ) (e : Exn) (s : Server lib W)
      → Live id base.clients.slots
      → After base s
      → Handled (Response.catch_end_or_error sys id e s)
  catch_end_or_error-Handled id zero_length_message s l a =
      Ends-mono (finish_response-Safe sys id s l a) (λ u t k. k.inv) (λ t k. k.inv)
  catch_end_or_error-Handled id exception s l a =
      Ends-mono (discard_client-Ends sys id s l a) (λ u t k. k) (λ t k. k.inv)
  catch_end_or_error-Handled id all_in_use s l a =
      Ends-mono (discard_client-Ends sys id s l a) (λ u t k. k) (λ t k. k.inv)
  catch_end_or_error-Handled id key_not_found s l a =
      Ends-mono (discard_client-Ends sys id s l a) (λ u t k. k) (λ t k. k.inv)
  catch_end_or_error-Handled id invalid_argument s l a = threw a.inv
  catch_end_or_error-Handled id out_of_range s l a = threw a.inv

  pub read_response_from_server-Handled :
      (id : ℕ) (s : Server lib W)
      → Wired id s.clients.slots
      → Inv s
      → Handled (read_response_from_server sys id s)
  unfolding read_response_from_server
  read_response_from_server-Handled id s l v =
      or_handle-Ends _
        (after_inv sys {base = s} (
          and_then-Ends _ (read_response_chunk-Safe sys id s (Wired-Live _ _ l) (After-refl s v))
            λ chunk t a. deliver-Safe sys id chunk t l a))
        λ e t a. catch_end_or_error-Handled id e t (Wired-Live _ _ l) a

  first_chunk-Safe :
      {base : Server lib W} (id : ℕ) (s : Server lib W)
      → Wired id base.clients.slots
      → After base s
      → Safe base (
          (do
            chunk ← read_response_chunk sys id
            ok ← is_ok_status_code chunk
            if ok then start_sharing sys id chunk else keep_private sys id chunk
            change id (λ c. record c { state = State.waiting_response }))
            s)
  unfolding is_new needs_server
  first_chunk-Safe id s w a =
      and_then-Ends _ (read_response_chunk-Safe sys id s (Wired-Live _ _ w) a) λ chunk t b.
        and_then-Ends _ (is_ok_status_code-Ends sys chunk (After _) t b) λ ok t1 c.
          and_then-Ends _
            (if-Ends ok _ _ t1 (λ e. start_sharing-Safe sys id chunk t1 w c)
              (λ e. keep_private-Safe sys id chunk t1 (Wired-Live _ _ w) c))
            λ u t2 d.
              change-Safe id _ t2
                (λ x e.
                  advance-Tame refl refl refl refl (λ m. Wired-found id _ x (d.wired id w) e)
                    (λ k. k))
                (d.alive id (Wired-Live _ _ w)) d

  pub read_response_status_code_from_server-Handled :
      (id : ℕ) (s : Server lib W)
      → Wired id s.clients.slots
      → Inv s
      → Handled (read_response_status_code_from_server sys id s)
  unfolding read_response_status_code_from_server
  read_response_status_code_from_server-Handled id s l v =
      or_handle-Ends _ (after_inv sys {base = s} (first_chunk-Safe id s l (After-refl s v)))
        λ e t a.
          if-Ends (is_exception e) _ (throw e) t
            (λ q.
              Ends-mono {R = After s}
                (and_then-Ends _ (load-Safe id t (a.alive id (Wired-Live _ _ l)) a) λ client t1 r.
                  and_then-Ends _
                    (prepare_all_waiting_clients_for_sending-Safe sys client.request_str t1 r.0)
                    λ u t2 b. discard_client-Ends sys id t2 (Wired-Live _ _ l) b)
                (λ u w k. k) (λ w k. k.inv))
            (λ q. threw a.inv)
