-- ===== src/Server/Safety/Listing.antt =====
-- Lemmas on `addToRequestClients`, `removeFromRequestClients` and
-- `prepareAllWaitingClientsForSending` of src/server.cpp, and on the lists without one client.
use spx.Prelude.{
  ℕ, ◌≡◌, ◌≢◌, refl, str_discrete, ◌∷◌, ◌++◌, [], List, Option, none, some, Str, inl, inr,
  Option-cases, Bool-cases, arith,
}
use spx.Outcome.{M, returns, pure}
use spx.Outcome.Ends.{Ends, returned, and_then-Ends, if-Ends}
use spx.Dict.{lookup, assign, lookup-assign}
use spx.Net.Sys.{Sys}
use spx.Http.Parser.{Parser}
use spx.Clients.Client.{Client, same_client}
use spx.Clients.ClientsList.{find_client}
use spx.Server.State.{Server, load, request_clients, set_request_clients}
use spx.Server.Requests
use spx.Server.Requests.{
  add_to_request_clients, without_client, remove_from_request_clients,
  prepare_all_waiting_clients_for_sending, is_waiting_for_response_for_another_client,
}
use spx.Server.Safety.Slots.{Slots, Live}
use spx.Server.Safety.Invariant.{Inv, After, After-refl, assign-After}
use spx.Server.Safety.Tame.{AllListed, Listed, Ready}
use spx.Server.Safety.Steps.{Safe, load-Safe, request_clients-Safe, for_each-Safe, rebase}
use spx.Server.Safety.Connecting.{prepare_for_sending_request-Safe}

-- None of the list is that client; no list of the map has it.
abbrev pub Others : ℕ → List ℕ → Type 0
Others id [] = Unit
Others id (j ∷ ids) = (j ≢ id) × Others id ids

abbrev pub Unlisted : ℕ → List (Str × List ℕ) → Type 0
Unlisted id map = (req : Str) (ids : List ℕ) → lookup req map ≡ some ids → Others id ids

module _ {lib : Parser} where
  AllListed-snoc :
      (req : Str) (l : Slots lib) (ids : List ℕ) (id : ℕ)
      → AllListed req l ids
      → Listed req l id
      → AllListed req l (ids ++ id ∷ [])
  AllListed-snoc req l [] id a h = (h, tt)
  AllListed-snoc req l (j ∷ ids) id a h = (a.0, AllListed-snoc req l ids id a.1 h)

  AllListed-Others :
      (id : ℕ) (client : Client lib) (req : Str) (ids : List ℕ) (l : Slots lib)
      → find_client id l ≡ some client
      → client.request_str ≢ req
      → AllListed req l ids
      → Others id ids
  AllListed-Others id client req [] l f n a = tt
  AllListed-Others id client req (j ∷ ids) l f n a =
      let (c, g, r, k) = a.0 in ((λ q. ground arith), AllListed-Others id client req ids l f n a.1)

module _ {lib : Parser} {W : Type 0} where
  added-Safe :
      {base : Server lib W} (id : ℕ) (client : Client lib) (o : Option (List ℕ)) (s : Server lib W)
      → lookup client.request_str s.request_clients_map ≡ o
      → Listed client.request_str s.clients.slots id
      → After base s
      → Safe base (
          (elim o as (λ _. M (Server lib W) (Unit {0})) [
            | none ↦ set_request_clients client.request_str (id ∷ [])
            | some ids ↦ set_request_clients client.request_str (ids ++ id ∷ [])
          ])
            s)
  added-Safe id client none s e h a =
      returned (assign-After s client.request_str (id ∷ []) a (h, tt))
  added-Safe id client (some ids) s e h a = returned (
      assign-After s client.request_str (ids ++ id ∷ []) a (
        AllListed-snoc client.request_str s.clients.slots ids id
          (a.inv.listed client.request_str ids e) h))

  pub add_to_request_clients-Safe :
      {base : Server lib W} (id : ℕ) (s : Server lib W)
      → Ready id base.clients.slots
      → After base s
      → Safe base (add_to_request_clients id s)
  unfolding add_to_request_clients
  add_to_request_clients-Safe id s r a =
      let (d, g, m) = a.ready id r in
      and_then-Ends _ (load-Safe id s (d, g) a) λ client t q.
        let (c, f, n) = q.0.ready id r in
        added-Safe id client (lookup client.request_str t.request_clients_map) t refl
          (client, q.1, refl, ground arith) q.0

  without_client_lem :
      (id : ℕ) (client : Client lib) (req : Str) (ids : List ℕ) (s : Server lib W)
      → find_client id s.clients.slots ≡ some client
      → AllListed req s.clients.slots ids
      → (rest : List ℕ) × (without_client client ids s ≡ returns rest s)
        × AllListed req s.clients.slots rest
        × Others id rest
  unfolding without_client load same_client
  without_client_lem id client req [] s f a = ([], refl, tt, tt)
  without_client_lem id client req (j ∷ ids) s f a =
      let (rest, e, b, o) = without_client_lem id client req ids s f a.1 in
      let (c, g, r, k) = a.0 in
      elim (Bool-cases (same_client client c)) [
        | inl hit ↦ (rest, ground arith, b, o)
        | inr miss ↦ (j ∷ rest, ground arith, (a.0, b), (λ q. ground arith, o))
      ]

  assign-Unlisted :
      (id : ℕ) (client : Client lib) (s : Server lib W) (rest : List ℕ)
      → Inv s
      → find_client id s.clients.slots ≡ some client
      → Others id rest
      → Unlisted id (assign client.request_str rest s.request_clients_map)
  assign-Unlisted id client s rest v f o req ids e = elim (str_discrete client.request_str req) [
    | yes same ↦
        let eq : rest ≡ ids =
          ground (arith, lookup-assign req client.request_str rest s.request_clients_map) in
        rw (← eq) o
    | no other ↦ AllListed-Others id client req ids s.clients.slots f other (
        v.listed req ids
          (ground (arith, lookup-assign req client.request_str rest s.request_clients_map)))
  ]

  request_clients-Found :
      {base : Server lib W} (id : ℕ) (client : Client lib) (s : Server lib W)
      → After base s
      → find_client id s.clients.slots ≡ some client
      → Ends
          (λ ids t.
            After base t
            × AllListed client.request_str t.clients.slots ids
            × (find_client id t.clients.slots ≡ some client))
          (After base)
          (request_clients client.request_str s)
  unfolding request_clients
  request_clients-Found id client s b f =
      elim (Option-cases (lookup client.request_str s.request_clients_map)) [
        | inl e ↦
            rw (e, request_clients) (returned (assign-After s client.request_str [] b tt, tt, f))
        | inr (ids, e) ↦
            let h = b.inv.listed client.request_str ids e in
            rw (e, request_clients) (returned (assign-After s client.request_str ids b h, h, f))
      ]

  pub remove_from_request_clients-Ends :
      {base : Server lib W} (id : ℕ) (s : Server lib W)
      → Live id base.clients.slots
      → After base s
      → Ends
          (λ u t. After base t × Unlisted id t.request_clients_map)
          (After base)
          (remove_from_request_clients id s)
  unfolding remove_from_request_clients
  remove_from_request_clients-Ends id s l a =
      and_then-Ends _ (load-Safe id s (a.alive id l) a) λ client t q.
        and_then-Ends _ (request_clients-Found id client t q.0 q.1) λ ids t' (b, h, f).
          let (rest, e, h', o) = without_client_lem id client client.request_str ids t' f h in
          rw e (
            returned (
              assign-After t' client.request_str rest b h',
              assign-Unlisted id client t' rest b.inv f o,
            ))

  module _ (sys : Sys W) where
    prepare_if_waiting-Safe :
        {base : Server lib W} (id : ℕ) (s : Server lib W)
        → Live id base.clients.slots
        → After base s
        → Safe base (Requests.prepare_if_waiting sys id s)
    prepare_if_waiting-Safe id s l a = and_then-Ends _ (load-Safe id s (a.alive id l) a) λ c t q.
        if-Ends (is_waiting_for_response_for_another_client c.state) _ (pure tt) t
          (λ e. prepare_for_sending_request-Safe sys id t l q.0) (λ e. returned q.0)

    pub prepare_all_waiting_clients_for_sending-Safe :
        {base : Server lib W} (req : Str) (s : Server lib W)
        → After base s
        → Safe base (prepare_all_waiting_clients_for_sending sys req s)
    unfolding prepare_all_waiting_clients_for_sending
    prepare_all_waiting_clients_for_sending-Safe req s a =
        and_then-Ends _ (request_clients-Safe req s a) λ ids t q.
          for_each-Safe req _ ids t
            (λ id v b k. rebase b (prepare_if_waiting-Safe id v k (After-refl v b.inv))) q.0 q.1
