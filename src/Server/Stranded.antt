-- ===== src/Server/Stranded.antt =====
-- `fallbackToClientBuffer` of src/server.cpp on the first chunk of a response that several clients
-- wait for.
mod Tests
use spx.Prelude.{
  ℕ, ◌≡◌, refl, sym, ap, ◌∙◌, ◌==◌, true, false, List, ◌∷◌, some, if◌then◌else◌, arith,
}
use mathlib.Core.Path.{subst}
use spx.Outcome.{throws, key_not_found, returns, ◌>>=◌, ◌>>◌}
use spx.Dict.{lookup, assign}
use spx.Cache.Entry.{Entry}
use spx.Cache.Methods
use spx.Cache.Holding.{Holds, disuse_entry-last}
use spx.Http.Parser.{Parser}
use spx.Clients.Client.{Client}
use spx.Clients.ClientsList.{find_client, store_client}
use spx.Server.State.{Server, load, request_clients, for_each}
use spx.Server.Sharing.{fall_back, fallback_to_client_buffer}
use spx.Server.Fallen.{
  fallen, redirected, Edited, put_client, store_client-Edited, fall_back_run, changed,
}

module _ {lib : Parser} {W : Type 0} where
  fall_back_missing :
      (o : ℕ) (chunk : List ℕ) (s : Server lib W) (d : Client lib) (c : Methods.Cache)
      → find_client o s.clients.slots ≡ some d
      → (Methods.get_entry d.request_str >>= Methods.load_entry) s.cache ≡ throws key_not_found c
      → fall_back chunk o s
        ≡ throws key_not_found (record (put_client (redirected d) s) { cache = c })
  unfolding fall_back load
  fall_back_missing o chunk s d c f k =
      let edit = store_client-Edited o s.clients.slots d (redirected d) f refl in
      rw (fall_back, changed o redirected s d f, load, edit.0, k) refl

  -- A client writes its response to the cache, which is valid and holds an entry of it that is not
  -- complete and has one user, as it is when the first chunk arrives; another client with the request
  -- follows the first on its list, and both are alive. Then the fallback throws
  -- `KeyNotFoundException`: the first client has its chunks, the other is left with no source of the
  -- response, in the state in which it waits for chunks.
  pub fallback_to_client_buffer_stranded :
      (i o : ℕ) (chunk rest : List ℕ) (e : Entry) (s : Server lib W) (c d : Client lib)
      → find_client i s.clients.slots ≡ some c
      → find_client o s.clients.slots ≡ some d
      → (i == o) ≡ false
      → d.request_str ≡ c.request_str
      → lookup c.request_str s.request_clients_map ≡ some (i ∷ o ∷ rest)
      → Holds s.cache c.request_str e
      → e.in_use ≡ 1
      → e.completed ≡ false
      → (t : Server lib W) × (fallback_to_client_buffer i chunk s ≡ throws key_not_found t)
        × (find_client i t.clients.slots ≡ some (fallen e chunk c))
        × (find_client o t.clients.slots ≡ some (redirected d))
  unfolding fallback_to_client_buffer load request_clients for_each
  fallback_to_client_buffer_stranded i o chunk rest e s c d f g apart same l h one partial =
      let ids = i ∷ o ∷ rest in
      let s1 = record s { request_clients_map = assign c.request_str ids s.request_clients_map } in
      let (b, b', slots, held, dis, run, edit) = fall_back_run i chunk e s1 c f h in
      let s2 = record s1 { cache = b'; clients = record (s.clients) { slots = slots } } in
      let stays : find_client o slots ≡ some d =
        edit.1 o d g ∙ ap (λ x. some (if x then fallen e chunk c else d)) apart in
      let (b2, missing) = disuse_entry-last b c.request_str e held b' one partial dis in
      let stop =
        fall_back_missing o chunk s2 d b2 stays
          (ap (λ r. (Methods.get_entry r >>= Methods.load_entry) b') same ∙ missing) in
      let edit2 = store_client-Edited o slots d (redirected d) stays refl in
      let other : (o == i) ≡ false = ground arith in
      (
        record (put_client (redirected d) s2) { cache = b2 },
        rw (fallback_to_client_buffer, load, f, request_clients, l, for_each, run, for_each, stop)
            refl,
        edit2.1 i (fallen e chunk c) edit.0
            ∙ ap (λ x. some (if x then redirected d else fallen e chunk c)) other,
        edit2.0,
      )
