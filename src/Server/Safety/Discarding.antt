-- ===== src/Server/Safety/Discarding.antt =====
-- `discardClient` of src/server.cpp and the death of a client.
use spx.Prelude.{
  Bool, true, ◌+◌, ℕ, ◌≡◌, ◌≢◌, refl, ◌∙◌, ◌&&◌, ◌∷◌, [], List, Option, none, some, Str, arith,
}
use spx.Outcome.{M, pure}
use spx.Outcome.Ends.{Ends, Ends-mono, returned, and_then-Ends, if-Ends, within-Ends_post}
use spx.Cache.Calm.{disuse_entry-Calm}
use spx.Net.Sys.{Sys}
use spx.Http.Parser.{Parser}
use spx.Clients.Client.{State, Client, is_reading_from_cache, obtain_server_connection}
use spx.Clients.ClientsList
use spx.Clients.ClientsList.{ClientsList, find_client, slot, set_slot, assign_slot}
use spx.Clients.Harmless.{destroy_client-Ends}
use spx.Server.State.{change, on_cache, Server, on_clients, load}
use spx.Server.Requests.{has_clients_with_request}
use spx.Server.Discard.{
  find_reading_from_cache, hand_over_connection, pass_on_connection, discard_client,
  is_waiting_response,
}
use spx.Server.Safety.Slots.{find_client-id, Slots, Live, find_client-slot, set_slot-Placed}
use spx.Cache.Methods
use spx.Server.Safety.Invariant.{After-refl, InvBut, Inv-InvBut, store_client-InvBut, Inv, After}
use spx.Server.Safety.Tame.{
  Wired, Wired-Live, AllJoined-find, needs_server, advance-Tame, AllListed, is_new,
}
use spx.Server.Safety.Steps.{After-trans, load-Safe, change-Safe, request_clients-Safe}
use spx.Server.Safety.Leaving.{Ends-Leaves, pass_on_connection-Leaves}
use spx.Server.Safety.Listing.{Others, Unlisted, remove_from_request_clients-Ends}

waiting_needs :
    (st : State) (b : Bool) → (is_waiting_response st && b) ≡ true → needs_server st ≡ true
unfolding is_waiting_response needs_server
waiting_needs State.waiting_response b e = refl
waiting_needs State.waiting_for_request b e = cc
waiting_needs State.waiting_for_response_for_another_client b e = cc
waiting_needs State.sending_request b e = refl
waiting_needs State.waiting_response_status_code b e = refl
waiting_needs State.got_response b e = cc
waiting_needs State.getting_response_from_another_client b e = cc

module _ {lib : Parser} {W : Type 0} where
  -- A client of a list is found by the search for a reader.
  abbrev LiveOption : Option ℕ → Server lib W → Type 0
  LiveOption none s = Unit
  LiveOption (some id) s = Live id s.clients.slots

module _ {lib : Parser} {W : Type 0} {base : Server lib W} where
  find_reading_from_cache-Ends :
      (req : Str) (ids : List ℕ) (s : Server lib W)
      → After base s
      → AllListed req s.clients.slots ids
      → Ends (λ o t. After base t × LiveOption o t) (After base) (find_reading_from_cache ids s)
  unfolding find_reading_from_cache load
  find_reading_from_cache-Ends req [] s a h = returned (a, tt)
  find_reading_from_cache-Ends req (id ∷ ids) s a h =
      let (c, f, r, n) = h.0 in
      rw (f, find_reading_from_cache, load)
        (if-Ends (is_reading_from_cache c) (pure (some id)) (find_reading_from_cache ids) s
          (λ e. returned {a = some id} {s = s} (a, (c, f)))
          (λ e. find_reading_from_cache-Ends req ids s a h.1))

  release-Ends :
      (from : ℕ) (reader : Client lib) (s : Server lib W)
      → Inv s
      → Live from s.clients.slots
      → Ends
          (λ u t. InvBut from t)
          (After base)
          (change from (λ c. (obtain_server_connection reader c).1) s)
  unfolding change ClientsList.on_client obtain_server_connection
  release-Ends from reader s v (c, f) =
      rw (f, change, ClientsList.on_client)
        (returned (
          store_client-InvBut from s s.clients.host c (record c { server_connection = none }) v f
            (find_client-id from s.clients.slots c f)
            (record { id = refl; client_connection = refl; listed = λ m. (refl, m) })))

  hand_over_connection-Ends :
      (to from : ℕ) (s : Server lib W)
      → Live to s.clients.slots
      → Wired from s.clients.slots
      → After base s
      → Ends (λ u t. InvBut from t) (After base) (hand_over_connection to from s)
  unfolding hand_over_connection obtain_server_connection is_new needs_server load
  hand_over_connection-Ends to from s (c, f) (d, g, w) a =
      rw (f, hand_over_connection, load, g)
        (and_then-Ends _
          (Ends-mono
            (change-Safe {base = s} to _ s
              (λ x e. advance-Tame refl refl refl refl (λ m. w) (λ _. w)) (c, f)
              (After-refl s a.inv))
            (λ u t q. q) (λ t q. After-trans a q))
          λ u t b. release-Ends from c t b.inv (b.alive from (d, g)))

  found-Ends :
      (o : Option ℕ) (id : ℕ) (s : Server lib W)
      → LiveOption o s
      → Wired id s.clients.slots
      → After base s
      → Ends
          (λ u t. InvBut id t)
          (After base)
          ((elim o as (λ _. M (Server lib W) (Unit {0})) [
            | none ↦ pure tt
            | some reader ↦ hand_over_connection reader id
          ])
            s)
  found-Ends none id s h l a = returned (Inv-InvBut id s a.inv (Wired-Live _ _ l))
  found-Ends (some reader) id s h l a = hand_over_connection-Ends reader id s h l a

module _ {lib : Parser} {W : Type 0} (sys : Sys W) {base : Server lib W} where
  pass_on_connection-Ends :
      (id : ℕ) (s : Server lib W)
      → Live id base.clients.slots
      → After base s
      → Ends (λ u t. InvBut id t) (After base) (pass_on_connection sys id s)
  unfolding pass_on_connection
  pass_on_connection-Ends id s l a = and_then-Ends _ (load-Safe id s (a.alive id l) a) λ client t q.
      if-Ends (is_waiting_response client.state && has_clients_with_request client.request_str t) _
        (pure tt) t
        (λ e.
          let w =
            AllJoined-find id t.clients.slots client q.1 q.0.inv.joined
              (waiting_needs client.state _ e) in
          Ends-mono
            (and_then-Ends _
              (request_clients-Safe {base = t} client.request_str t (After-refl t q.0.inv))
              λ ids t1 r.
                and_then-Ends _
                  (find_reading_from_cache-Ends {base = t} client.request_str ids t1 r.0 r.1)
                  λ o t2 k. found-Ends {base = t} o id t2 k.1 (k.0.wired id (client, q.1, w)) k.0)
            (λ u v i. i) (λ v i. After-trans q.0 i))
        (λ e. returned (Inv-InvBut id t q.0.inv (q.0.alive id l)))

module _ {lib : Parser} where
  -- The other clients stay when one dies.
  AllListed-set_slot :
      (id n : ℕ) (req : Str) (ids : List ℕ) (l : Slots lib)
      → ((j : ℕ) → j ≢ id → find_client j (set_slot l n none) ≡ find_client j l)
      → AllListed req l ids
      → Others id ids
      → AllListed req (set_slot l n none) ids
  AllListed-set_slot id n req [] l k a o = tt
  AllListed-set_slot id n req (j ∷ ids) l k a o =
      let (c, f, r, m) = a.0 in
      ((c, k j o.0 ∙ f, r, m), AllListed-set_slot id n req ids l k a.1 o.1)

module _ {lib : Parser} {W : Type 0} where
  -- A client that no list has dies.
  kill-Ends :
      (sys : Sys W) (id : ℕ) (s : Server lib W)
      → InvBut id s
      → Unlisted id s.request_clients_map
      → Ends (λ u t. Inv t) (λ t. ⊥) (on_clients (ClientsList.discard_client sys id) s)
  unfolding ClientsList.discard_client assign_slot
  kill-Ends sys id s v h =
      let (c, f) = v.alive in
      let (n, fd, sl, r, others) = find_client-slot 0 id s.clients.slots c v.placed f in
      let z : 0 + n ≡ n = omega arith in
      rw (f, ClientsList.discard_client, fd, assign_slot, z, sl)
        (within-Ends_post {Q' = λ u t. Inv t} {R' = λ t. ⊥} _
          (within-Ends_post {Q' = λ u t. Inv (record s { clients = t })} {R' = λ t. ⊥} _
            (destroy_client-Ends sys c s.clients.host)
            (λ u t q. record {
              placed = set_slot-Placed 0 n s.clients.slots v.placed;
              listed = λ req ids e.
                  AllListed-set_slot id n req ids s.clients.slots others (v.listed req ids e)
                    (h req ids e);
              joined = rw r v.joined;
            })
            (λ t b. b))
          (λ u t q. q) (λ t b. b))

  -- The end of use of the cache throws nothing and knows of no client.
  disuse-Ends :
      (id : ℕ) (key : Str) (s : Server lib W)
      → InvBut id s
      → Unlisted id s.request_clients_map
      → Ends
          (λ u t. InvBut id t × Unlisted id t.request_clients_map)
          (λ t. ⊥)
          (on_cache (Methods.disuse_entry key) s)
  disuse-Ends id key s v h =
      within-Ends_post _ (disuse_entry-Calm key s.cache)
        (λ u c q.
          (record { placed = v.placed; listed = v.listed; joined = v.joined; alive = v.alive }, h))
        (λ c b. b)

module _ {lib : Parser} {W : Type 0} (sys : Sys W) {base : Server lib W} where
  -- Call a state good in which each client stands in the slot of its connection's descriptor and
  -- has the server connection that its state needs, and each client on the list of a request is
  -- alive and has read that very request. To discard a client that was alive in an earlier state,
  -- in a good state since when no client has gone, lost its request or lost its connection to a
  -- server, follows no reference to a client that is gone; if it returns, the state is good
  -- again; if it throws, it is too, and since the earlier state no client has gone, lost its
  -- request or lost its connection, the one to discard included.
  pub discard_client-Ends :
      (id : ℕ) (s : Server lib W)
      → Live id base.clients.slots
      → After base s
      → Ends (λ u t. Inv t) (After base) (discard_client sys id s)
  unfolding discard_client
  discard_client-Ends id s l a = and_then-Ends _ (load-Safe id s (a.alive id l) a) λ client t q.
      and_then-Ends _ (request_clients-Safe client.request_str t q.0) λ ids t1 r.
        and_then-Ends _ (remove_from_request_clients-Ends id t1 l r.0) λ u t2 k.
          and_then-Ends _
            (Ends-Leaves id (pass_on_connection-Ends sys id t2 l k.0)
              (pass_on_connection-Leaves sys id t2 k.1))
            λ u1 t3 m.
              Ends-mono {R = λ t. ⊥}
                (and_then-Ends _ (disuse-Ends id client.request_str t3 m.0 m.1)
                  λ u2 t4 n. kill-Ends sys id t4 n.0 n.1)
                (λ u3 t5 w. w) (λ t5 b. absurd b)
