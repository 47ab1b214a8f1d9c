-- ===== src/Server/Caching.antt =====
-- A chunk of a response that goes to the cache, in `readResponseFromServer` of src/server.cpp, and the
-- clients that read from there.
use spx.Prelude.{
  ℕ, zero, suc, ◌+◌, ◌≤◌, ◌≡◌, ◌≢◌, refl, sym, ap, ◌∙◌, true, List, [], ◌∷◌, ◌++◌, some, ite,
  if_pos, if_neg, Str, str_discrete, take, length, length-append, arith,
}
use mathlib.Core.Path.{subst}
use spx.Outcome.{returns}
use spx.Cache.Entry
use spx.Cache.Entry.{Entry}
use spx.Cache.Methods
use spx.Cache.Spec
use spx.Cache.Spec.{view, entries}
use spx.Cache.Holding.{Holds, write-Holds}
use spx.Net.Sys.{Sys, Fd}
use spx.Net.ActiveSocket.{ActiveSocket}
use spx.Http.Parser.{Parser}
use spx.Clients.Client.{Client}
use spx.Clients.ClientsList.{find_client}
use spx.Server.State.{Server, load}
use spx.Server.Connect.{max_chunk_size}
use spx.Server.Sharing.{write_response_chunk_to_cache}
use spx.Server.Response.{deliver, read_response_from_server}
use spx.Server.Errors.{read_response_chunk_received, in_world}
use spx.Server.Synced.{Synced}

take-append : (n : ℕ) (l m : List ℕ) → n ≤ length l → take n (l ++ m) ≡ take n l
take-append zero l m h = refl
take-append (suc n) [] m h = absurd (omega arith)
take-append (suc n) (x ∷ l) m h = ap (λ t. x ∷ t) (take-append n l m (omega arith))

-- The entry of the request `j` once `chunk` has been appended to that of `key`.
abbrev pub with_bytes : Str → List ℕ → Str → Entry → Entry
with_bytes key chunk j e = ite (str_discrete j key) (Entry.append_bytes chunk e) e

module _ (key : Str) (chunk : List ℕ) where
  with_bytes_same :
      (j : Str) (x : Entry) → j ≡ key → with_bytes key chunk j x ≡ Entry.append_bytes chunk x
  with_bytes_same j x same = if_pos (str_discrete j key) same (Entry.append_bytes chunk x) x

  with_bytes_other : (j : Str) (x : Entry) → j ≢ key → with_bytes key chunk j x ≡ x
  with_bytes_other j x other = if_neg (str_discrete j key) other (Entry.append_bytes chunk x) x

  -- What was a beginning of an entry still is.
  longer :
      (j : Str) (n : ℕ) (x : Entry)
      → n ≤ length x.buffer
      → (take n (with_bytes key chunk j x).buffer ≡ take n x.buffer)
        × (n ≤ length (with_bytes key chunk j x).buffer)
  longer j n x le =
      let P : Entry → Type 0 = λ y. (take n y.buffer ≡ take n x.buffer) × (n ≤ length y.buffer) in
      elim (str_discrete j key) [
        | yes same ↦
            subst P (sym (with_bytes_same j x same))
              (take-append n x.buffer chunk le, omega (arith, length-append x.buffer chunk))
        | no other ↦ subst P (sym (with_bytes_other j x other)) (refl, le)
      ]

  -- The entry of a request after the chunk.
  Holds-with_bytes :
      (c h : Methods.Cache) (e : Entry) (j : Str) (x : Entry)
      → Holds c key e
      → Holds h key (Entry.append_bytes chunk e)
      → ((i : Str) (y : Entry) → i ≢ key → Holds c i y → Holds h i y)
      → Holds c j x
      → Holds h j (with_bytes key chunk j x)
  Holds-with_bytes c h e j x held own others k = elim (str_discrete j key) [
    | yes same ↦
        let present : Spec.find key (view c).items ≡ some x =
          ap (λ i. Spec.find i (view c).items) (sym same) ∙ k.present in
        let one : e ≡ x = ground (arith, present, held.present) in
        subst (Holds h j) (ap (Entry.append_bytes chunk) one ∙ sym (with_bytes_same j x same))
          (subst (λ i. Holds h i (Entry.append_bytes chunk e)) (sym same) own)
    | no other ↦ subst (Holds h j) (sym (with_bytes_other j x other)) (others j x other k)
  ]

module _ {lib : Parser} {W : Type 0} (sys : Sys W) (sent : W → Fd → List ℕ) where
  -- A client that writes its response to the cache gets a chunk from its server, recv(2) sends nothing,
  -- and the cache, which is valid, holds an entry for the request and has room for the chunk. Then the
  -- handler returns, no client has changed, and each client that had got a beginning of a cached entry
  -- still has exactly that; the chunk is appended to the entry of the request, and to no other.
  pub read_response_from_server-Synced :
      (id b : ℕ) (rest : List ℕ) (w : W) (s : Server lib W) (c : Client lib) (conn : ActiveSocket)
      (e : Entry)
      → find_client id s.clients.slots ≡ some c
      → c.server_connection ≡ some conn
      → sys.recv conn.fd max_chunk_size s.clients.host.world ≡ (some (b ∷ rest), w)
      → ((fd : Fd) → sent w fd ≡ sent s.clients.host.world fd)
      → c.should_write_to_cache ≡ true
      → Holds s.cache c.request_str e
      → Spec.total_size (entries s.cache.list) + length (b ∷ rest) ≤ s.cache.max_size
      → (t : Server lib W) × (read_response_from_server sys id s ≡ returns tt t)
        × (t.clients.slots ≡ s.clients.slots)
        × ((o : ℕ) (x : Entry) (d : Client lib)
            → Synced sent o x s d
            → Synced sent o (with_bytes c.request_str (b ∷ rest) d.request_str x) t d)
  unfolding read_response_from_server deliver write_response_chunk_to_cache load
  read_response_from_server-Synced id b rest w s c conn e f k r quiet cache held room =
      let chunk = b ∷ rest in
      let (h, p, own, others) = write-Holds s.cache c.request_str e held chunk room in
      let t = record (in_world sys w s) { cache = h } in
      (
        t,
        rw
            (
              read_response_from_server,
              read_response_chunk_received sys id b rest w s c conn f k r,
              deliver,
              load,
              f,
              cache,
              write_response_chunk_to_cache,
              load,
              f,
              p,
            )
            refl,
        refl,
        λ o x d y.
            let (begin, bound) =
              longer c.request_str chunk d.request_str d.sent_bytes x y.bounded in
            record {
              live = y.live;
              cached =
                  Holds-with_bytes c.request_str chunk s.cache h e d.request_str x held own others
                    y.cached;
              synced = quiet d.client_connection.fd ∙ y.synced ∙ sym begin;
              bounded = bound;
            },
      )
