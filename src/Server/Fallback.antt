-- ===== src/Server/Fallback.antt =====
-- `fallbackToClientBuffer` of src/server.cpp: the cache has no room for the next chunk, and each client
-- gets the rest of the response in its own chunks.
use spx.Prelude.{
  ℕ, suc, ◌≤◌, ◌<◌, ◌≡◌, refl, sym, ap, ◌∙◌, ◌==◌, ltb, true, false, Bool-cases, inl, inr, List, [],
  ◌∷◌, ◌++◌, some, if◌then◌else◌, take, drop, length, take-drop, take-length, arith, Str,
}
use mathlib.Core.List.{append_assoc, append-nil}
use mathlib.Core.Path.{subst}
use spx.Prelude.Words.{int_mod}
use spx.Dict.{lookup, assign}
use spx.Outcome.{returns}
use spx.Cache.Entry
use spx.Cache.Entry.{Entry}
use spx.Cache.Methods
use spx.Cache.Holding.{Holds, disuse_entry-Holds}
use spx.Net.Sys.{Fd}
use spx.Http.Parser.{Parser}
use spx.Clients.Client.{Client, State}
use spx.Clients.ClientsList.{find_client}
use spx.Clients.Wire.{concat}
use spx.Server.State.{Server, load, request_clients, for_each}
use spx.Server.Sharing.{fall_back, fallback_to_client_buffer}
use spx.Server.Broadcast.{is_listed, Once}
use spx.Server.Synced.{Synced}
use spx.Server.Safety.Slots.{Slots}
use spx.Server.Fallen.{fallen, Edited, put_client, store_client-Edited, fall_back_run, changed}

module _ {lib : Parser} where
  -- The clients on the list are alive and read the response under `key`.
  abbrev pub AllReading : Str → List ℕ → Slots lib → Type 0
  AllReading key [] l = Unit
  AllReading key (i ∷ ids) l =
      ((d : Client lib) × (find_client i l ≡ some d) × (d.request_str ≡ key)) × AllReading key ids l

  fallen-request_str :
      (e : Entry) (chunk : List ℕ) (d : Client lib) → (fallen e chunk d).request_str ≡ d.request_str
  fallen-request_str e chunk d = elim (Bool-cases (ltb d.sent_bytes (length e.buffer))) [
    | inl q ↦ rw q refl
    | inr q ↦ rw q refl
  ]

  AllReading-Edited :
      (key : Str) (ids : List ℕ) (o : ℕ) (d : Client lib) (l l' : Slots lib)
      → Edited o d l l'
      → d.request_str ≡ key
      → AllReading key ids l
      → AllReading key ids l'
  AllReading-Edited key [] o d l l' a q r = tt
  AllReading-Edited key (i ∷ ids) o d l l' a q r =
      let (x, f, p) = r.0 in
      (
        elim (Bool-cases (o == i)) [
          | inl hit ↦ (d, a.1 i x f ∙ ap (λ b. some (if b then d else x)) hit, q)
          | inr miss ↦ (x, a.1 i x f ∙ ap (λ b. some (if b then d else x)) miss, p)
        ],
        AllReading-Edited key ids o d l l' a q r.1,
      )

same_found :
    {lib : Parser} (i j : ℕ) (l : Slots lib) (d x : Client lib)
    → find_client i l ≡ some d
    → find_client j l ≡ some x
    → i ≡ j
    → d ≡ x
same_found i j l d x f g same =
    let one : find_client i l ≡ some x = ap (λ k. find_client k l) same ∙ g in
    ground (arith, f, one)

-- The cache holds the entry, and each client on the list is one of its users.
abbrev pub Supply : Str → List ℕ → Methods.Cache → Entry → Type 0
Supply key [] c e = Unit
Supply key (i ∷ ids) c e = Holds c key e × (suc (length ids) ≤ e.in_use) × (e.in_use < int_mod)

Supply-next :
    (key : Str) (i : ℕ) (ids : List ℕ) (c h : Methods.Cache) (e : Entry)
    → Holds c key e
    → suc (length ids) ≤ e.in_use
    → e.in_use < int_mod
    → Methods.disuse_entry key c ≡ returns tt h
    → Supply key ids h (Entry.decrement_use e)
Supply-next key i [] c h e k many word run = tt
Supply-next key i (j ∷ ids) c h e k many word run =
    (disuse_entry-Holds c key e k h (omega arith) word run, omega arith, omega arith)

module _ {lib : Parser} {W : Type 0} where
  all_fallen :
      (key : Str) (ids chunk : List ℕ) (e : Entry) (s : Server lib W)
      → Once ids
      → AllReading key ids s.clients.slots
      → Supply key ids s.cache e
      → (h : Methods.Cache) × (l : Slots lib) × (for_each (fall_back chunk) ids s
          ≡ returns tt (record s { cache = h; clients = record (s.clients) { slots = l } }))
        × ((j : ℕ) (x : Client lib)
            → find_client j s.clients.slots ≡ some x
            → find_client j l ≡ some (if is_listed j ids then fallen e chunk x else x))
  unfolding for_each
  all_fallen key [] chunk e s once r k = (s.cache, s.clients.slots, refl, λ j x f. f)
  all_fallen key (i ∷ ids) chunk e s once r k =
      let (d, f, q) = r.0 in
      let l = s.clients.slots in
      let (c, h, l1, held, dis, run, edit) =
        fall_back_run i chunk e s d f (subst (λ y. Holds s.cache y e) (sym q) k.0) in
      let s1 = record s { cache = h; clients = record (s.clients) { slots = l1 } } in
      let next =
        Supply-next key i ids c h e (subst (λ y. Holds c y e) q held) k.1 k.2
          (ap (λ y. Methods.disuse_entry y c) (sym q) ∙ dis) in
      let reading =
        AllReading-Edited key ids i (fallen e chunk d) l l1 edit (fallen-request_str e chunk d ∙ q)
          r.1 in
      let (h', l2, rest, share) =
        all_fallen key ids chunk (Entry.decrement_use e) s1 once.1 reading next in
      (
        h',
        l2,
        rw (for_each, run) rest,
        λ j x g. elim (Bool-cases (i == j)) [
          | inl hit ↦
              let same : i ≡ j = ground arith in
              let z = fallen e chunk d in
              let absent : is_listed j ids ≡ false =
                ap (λ k. is_listed k ids) (sym same) ∙ once.0 in
              let one : d ≡ x = same_found i j l d x f g same in
              rw hit (
                share j z (edit.1 j x g ∙ ap (λ b. some (if b then z else x)) hit)
                ∙ ap (λ b. some (if b then fallen (Entry.decrement_use e) chunk z else z)) absent
                ∙ ap (λ y. some (fallen e chunk y)) one)
          | inr miss ↦
              rw miss
                (share j x (edit.1 j x g ∙ ap (λ b. some (if b then fallen e chunk d else x)) miss))
        ],
      )

module _ {lib : Parser} where
  -- What a client that has got a beginning of the entry, and has no chunks that wait, gets in all.
  fallen-concat :
      (e : Entry) (chunk : List ℕ) (d : Client lib)
      → d.sent_bytes ≤ length e.buffer
      → d.chunks ≡ []
      → take d.sent_bytes e.buffer ++ concat (fallen e chunk d).chunks ≡ e.buffer ++ chunk
  fallen-concat e chunk d le none_wait = elim (Bool-cases (ltb d.sent_bytes (length e.buffer))) [
    | inl more ↦
        rw (more, none_wait, append-nil chunk)
          (sym (append_assoc (take d.sent_bytes e.buffer) (drop d.sent_bytes e.buffer) chunk)
            ∙ ap (λ l. l ++ chunk) (take-drop d.sent_bytes e.buffer))
    | inr all ↦
        let whole : d.sent_bytes ≡ length e.buffer = ground arith in
        rw (all, none_wait, append-nil chunk)
          (ap (λ l. l ++ chunk) (ap (λ n. take n e.buffer) whole ∙ take-length e.buffer))
  ]

  fallen-connection :
      (e : Entry) (chunk : List ℕ) (d : Client lib)
      → (fallen e chunk d).client_connection ≡ d.client_connection
  fallen-connection e chunk d = elim (Bool-cases (ltb d.sent_bytes (length e.buffer))) [
    | inl q ↦ rw q refl
    | inr q ↦ rw q refl
  ]

  gets :
      (e : Entry) (chunk : List ℕ) (d : Client lib) (log : Fd → List ℕ)
      → log d.client_connection.fd ≡ take d.sent_bytes e.buffer
      → d.sent_bytes ≤ length e.buffer
      → d.chunks ≡ []
      → log (fallen e chunk d).client_connection.fd ++ concat (fallen e chunk d).chunks
        ≡ e.buffer ++ chunk
  gets e chunk d log y le empty =
      ap (λ x. log x.fd ++ concat (fallen e chunk d).chunks) (fallen-connection e chunk d)
      ∙ ap (λ l. l ++ concat (fallen e chunk d).chunks) y
      ∙ fallen-concat e chunk d le empty

module _ {lib : Parser} {W : Type 0} (sent : W → Fd → List ℕ) where
  -- The client at an address has, with the bytes sent to it, all of `bytes` to get.
  abbrev pub Gets : List ℕ → ℕ → Server lib W → Type 0
  Gets bytes j t =
      (d : Client lib) × (find_client j t.clients.slots ≡ some d)
      × (sent t.clients.host.world d.client_connection.fd ++ concat d.chunks ≡ bytes)

  -- The cache, which is valid, holds an entry with at least as many users, on its 32-bit counter,
  -- as clients stand on the list of its request; these are alive, have that request, and stand on
  -- it once each. Then the fallback with a further chunk returns, and each client on the list that
  -- had got a beginning of the entry and has no chunks that wait gets, with the bytes sent before,
  -- exactly the entry and the chunk.
  pub fallback_to_client_buffer-Gets :
      (original : ℕ) (chunk ids : List ℕ) (e : Entry) (s : Server lib W) (c : Client lib)
      → find_client original s.clients.slots ≡ some c
      → lookup c.request_str s.request_clients_map ≡ some ids
      → Once ids
      → AllReading c.request_str ids s.clients.slots
      → Supply c.request_str ids s.cache e
      → (t : Server lib W) × (fallback_to_client_buffer original chunk s ≡ returns tt t)
        × ((j : ℕ) (d : Client lib)
            → is_listed j ids ≡ true
            → Synced sent j e s d
            → d.chunks ≡ []
            → Gets (e.buffer ++ chunk) j t)
  unfolding fallback_to_client_buffer load request_clients
  fallback_to_client_buffer-Gets original chunk ids e s c f l once reading supply =
      let s1 = record s { request_clients_map = assign c.request_str ids s.request_clients_map } in
      let (h, slots, run, share) = all_fallen c.request_str ids chunk e s1 once reading supply in
      let s2 = record s1 { cache = h; clients = record (s.clients) { slots = slots } } in
      let o = if is_listed original ids then fallen e chunk c else c in
      let direct = λ (x : Client lib). record x {
        should_write_to_cache = false;
        should_write_to_all = true;
        state = State.waiting_response;
      } in
      let edit = store_client-Edited original slots o (direct o) (share original c f) refl in
      (
        put_client (direct o) s2,
        rw (fallback_to_client_buffer, load, f, request_clients, l, run)
            (changed original direct s2 o (share original c f)),
        λ j d on y empty.
            let z = fallen e chunk d in
            let got : find_client j slots ≡ some z =
              share j d y.live ∙ ap (λ b. some (if b then z else d)) on in
            let text = gets e chunk d (sent s.clients.host.world) y.synced y.bounded empty in
            elim (Bool-cases (original == j)) [
              | inl hit ↦
                  let one : o ≡ z =
                    same_found original j slots o z (share original c f) got (ground arith) in
                  (
                    direct o,
                    edit.1 j z got ∙ ap (λ b. some (if b then direct o else z)) hit,
                    subst
                        (λ x.
                          sent s.clients.host.world x.client_connection.fd ++ concat x.chunks
                          ≡ e.buffer ++ chunk)
                        (sym one) text,
                  )
              | inr miss ↦
                  (z, edit.1 j z got ∙ ap (λ b. some (if b then direct o else z)) miss, text)
            ],
      )
