-- ===== src/Server/Fallen.antt =====
-- `fallbackToClientBuffer` of src/server.cpp for one client: what its chunks become.
use spx.Prelude.{
  ℕ, ◌≡◌, refl, ap, ◌∙◌, ◌==◌, ltb, false, Bool-cases, inl, inr, List, [], ◌∷◌, ◌++◌, some,
  if◌then◌else◌, drop, length, arith,
}
use spx.Outcome.{returns}
use spx.Cache.Entry.{Entry}
use spx.Cache.Methods
use spx.Cache.Holding.{Holds, get_entry-Holds}
use spx.Http.Parser.{Parser}
use spx.Clients.Client.{Client, State}
use spx.Clients.ClientsList
use spx.Clients.ClientsList.{find_client, store_client}
use spx.Server.State.{Server, load, change}
use spx.Server.Sharing.{write_response_chunk_to_client_buffer, catch_up, fall_back}
use spx.Server.Discarding.{disused}
use spx.Server.Safety.Slots.{Slots, find_client-id, find_client-store_client}

module _ {lib : Parser} where
  -- The client in its own chunks: what it lacks of the entry, and the chunk.
  abbrev pub redirected : Client lib → Client lib
  redirected d = record d {
    should_read_from_cache = false;
    state = State.getting_response_from_another_client;
  }

  abbrev pub caught_up : Entry → Client lib → Client lib
  caught_up e d =
      if ltb d.sent_bytes (length e.buffer)
      then record d { chunks = d.chunks ++ drop d.sent_bytes e.buffer ∷ [] }
      else d

  abbrev pub fallen : Entry → List ℕ → Client lib → Client lib
  fallen e chunk d =
      let c = caught_up e (redirected d) in record c { chunks = c.chunks ++ chunk ∷ [] }

  -- The table after a change of the client at `o` to `d`.
  abbrev pub Edited : ℕ → Client lib → Slots lib → Slots lib → Type 0
  Edited o d l l' =
      (find_client o l' ≡ some d)
      × ((j : ℕ) (x : Client lib)
          → find_client j l ≡ some x
          → find_client j l' ≡ some (if o == j then d else x))

  pub store_client-Edited :
      (o : ℕ) (l : Slots lib) (c d : Client lib)
      → find_client o l ≡ some c
      → d.id ≡ c.id
      → Edited o d l (store_client d l)
  store_client-Edited o l c d f e =
      let same : d.id ≡ o = e ∙ find_client-id o l c f in
      let all : (j : ℕ)
          → find_client j (store_client d l) ≡ (if o == j then some d else find_client j l) =
        λ j.
          find_client-store_client j l c d (ap (λ k. find_client k l) same ∙ f)
          ∙ ap (λ k. if k == j then some d else find_client j l) same in
      (ground (arith, all o), λ j x g. ground (arith, all j, g))

  Edited-refl : (o : ℕ) (l : Slots lib) (d : Client lib) → find_client o l ≡ some d → Edited o d l l
  Edited-refl o l d f = (
    f,
    λ j x g. elim (Bool-cases (o == j)) [
      | inl hit ↦
          let same : find_client j l ≡ some d = ap (λ i. find_client i l) (ground arith) ∙ f in
          rw hit same
      | inr miss ↦ rw miss g
    ],
  )

  Edited-trans :
      (o : ℕ) (c d : Client lib) (k l m : Slots lib)
      → Edited o c k l
      → Edited o d l m
      → Edited o d k m
  Edited-trans o c d k l m a b = (
    b.0,
    λ j x g. elim (Bool-cases (o == j)) [
      | inl hit ↦ ground (arith, b.1 j c, a.1 j x g)
      | inr miss ↦ ground (arith, b.1 j x, a.1 j x g)
    ],
  )

module _ {lib : Parser} {W : Type 0} where
  abbrev pub put_client : Client lib → Server lib W → Server lib W
  put_client d s = record s {
    clients = record (s.clients) { slots = store_client d s.clients.slots };
  }

  pub changed :
      (i : ℕ) (f : Client lib → Client lib) (s : Server lib W) (c : Client lib)
      → find_client i s.clients.slots ≡ some c
      → change i f s ≡ returns tt (put_client (f c) s)
  unfolding change ClientsList.on_client
  changed i f s c e = rw (change, ClientsList.on_client, e) refl

  caught :
      (o : ℕ) (e : Entry) (s : Server lib W) (d : Client lib)
      → find_client o s.clients.slots ≡ some d
      → (l : Slots lib) × (catch_up o e.buffer s
          ≡ returns tt (record s { clients = record (s.clients) { slots = l } }))
        × Edited o (caught_up e d) s.clients.slots l
  unfolding load
  caught o e s d f = elim (Bool-cases (ltb d.sent_bytes (length e.buffer))) [
    | inl more ↦
        let c = record d { chunks = d.chunks ++ drop d.sent_bytes e.buffer ∷ [] } in
        (
          store_client c s.clients.slots,
          rw (load, f, more) (changed o _ s d f),
          rw more (store_client-Edited o s.clients.slots d c f refl),
        )
    | inr all ↦
        (s.clients.slots, rw (load, f, all) refl, rw all (Edited-refl o s.clients.slots d f))
  ]

  -- One client.
  pub fall_back_run :
      (o : ℕ) (chunk : List ℕ) (e : Entry) (s : Server lib W) (d : Client lib)
      → find_client o s.clients.slots ≡ some d
      → Holds s.cache d.request_str e
      → (c : Methods.Cache) × (h : Methods.Cache) × (l : Slots lib) × Holds c d.request_str e
        × (Methods.disuse_entry d.request_str c ≡ returns tt h)
        × (fall_back chunk o s
            ≡ returns tt (record s { cache = h; clients = record (s.clients) { slots = l } }))
        × Edited o (fallen e chunk d) s.clients.slots l
  unfolding fall_back load write_response_chunk_to_client_buffer
  fall_back_run o chunk e s d f h =
      let (c, got, held) = get_entry-Holds s.cache d.request_str e h in
      let (h', dis) = disused d.request_str c held.valid in
      let l = s.clients.slots in
      let d1 = redirected d in
      let l1 = store_client d1 l in
      let e1 = store_client-Edited o l d d1 f refl in
      let s1 = record s { cache = c; clients = record (s.clients) { slots = l1 } } in
      let (l2, run2, e2) = caught o e s1 d1 e1.0 in
      let d2 = caught_up e d1 in
      let s2 = record s1 { clients = record (s.clients) { slots = l2 } } in
      let e3 = store_client-Edited o l2 d2 (fallen e chunk d) e2.0 refl in
      (
        c,
        h',
        store_client (fallen e chunk d) l2,
        held,
        dis,
        rw
            (
              fall_back,
              changed o redirected s d f,
              load,
              e1.0,
              got,
              run2,
              write_response_chunk_to_client_buffer,
              changed o (λ x. record x { chunks = x.chunks ++ chunk ∷ [] }) s2 d2 e2.0,
              dis,
            )
            refl,
        Edited-trans o d2 (fallen e chunk d) l l2 _ (Edited-trans o d1 d2 l l1 l2 e1 e2) e3,
      )
