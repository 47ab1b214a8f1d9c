-- ===== src/Server/Safety/Steps.antt =====
-- Lemmas on the calls that the methods of src/server.cpp are made of.
use spx.Prelude.{true, ℕ, ◌≡◌, ◌∙◌, false, List, [], ◌∷◌, some, Str, Option-cases, inl, inr, arith}
use spx.Outcome.{M, Outcome}
use spx.Outcome.Ends.{
  Ends, Ends-mono, returned, Harmless, and_then-Ends, within-Ends, within-Ends_post,
}
use spx.Dict.{lookup}
use spx.Cache.Methods.{Cache}
use spx.Net.Sys.{Host}
use spx.Http.Parser.{Parser}
use spx.Clients.Client.{Client, Self}
use spx.Clients.ClientsList
use spx.Clients.ClientsList.{ClientsList, find_client, store_client}
use spx.Server.State.{Server, on_cache, on_host, on_client, load, change, request_clients, for_each}
use spx.Server.Safety.Slots.{Live, find_client-id, find_client-store_client}
use spx.Server.Safety.Invariant.{After, After-refl, store_client-After, assign-After}
use spx.Server.Safety.Tame.{has_server_fd, Wired, Tame, AllListed, Ready, is_new}

module _ {lib : Parser} {W : Type 0} where
  -- A call that ends well from every state after `base`.
  abbrev pub Safe : {A : Type 0} → Server lib W → Outcome (Server lib W) A → Type 0
  Safe base = Ends (λ a t. After base t) (After base)

  pub on_cache-Safe :
      {A : Type 0} {base : Server lib W} (m : M Cache A) (s : Server lib W)
      → ((c : Cache) → Harmless (m c))
      → After base s
      → Safe base (on_cache m s)
  on_cache-Safe m s h a = within-Ends _ (m s.cache) (h s.cache) (λ c. record {
    inv = record { placed = a.inv.placed; listed = a.inv.listed; joined = a.inv.joined };
    alive = a.alive;
    ready = a.ready;
    wired = a.wired;
  })

  pub host-After :
      {base : Server lib W} (h : Host W) (s : Server lib W)
      → After base s
      → After base (record s { clients = record (s.clients) { host = h } })
  host-After h s a = record {
    inv = record { placed = a.inv.placed; listed = a.inv.listed; joined = a.inv.joined };
    alive = a.alive;
    ready = a.ready;
    wired = a.wired;
  }

  pub on_host-Safe :
      {A : Type 0} {base : Server lib W} (m : M (Host W) A) (s : Server lib W)
      → ((h : Host W) → Harmless (m h))
      → After base s
      → Safe base (on_host m s)
  on_host-Safe m s h a = within-Ends _ (m s.clients.host) (h s.clients.host) (λ d. host-After d s a)

  pub load-Safe :
      {base : Server lib W} (id : ℕ) (s : Server lib W)
      → Live id s.clients.slots
      → After base s
      → Ends
          (λ c t. After base t × (find_client id t.clients.slots ≡ some c))
          (After base)
          (load id s)
  unfolding load
  load-Safe id s (c, f) a = rw (f, load) (returned (a, f))

  -- A method of a live client that makes something tame of it.
  pub on_client-Safe :
      {A : Type 0} {base : Server lib W} (id : ℕ) (m : M (Self lib W) A) (s : Server lib W)
      → ((c : Client lib) (h : Host W)
          → find_client id s.clients.slots ≡ some c
          → Ends
              (λ a t. Tame c t.client)
              (λ t. Tame c t.client)
              (m (record { client = c; host = h })))
      → Live id s.clients.slots
      → After base s
      → Safe base (on_client id m s)
  unfolding ClientsList.on_client
  on_client-Safe {base = base} id m s k (c, f) a =
      rw (f, ClientsList.on_client)
        (within-Ends_post _
          (within-Ends_post {Q' = λ r t. Kept t} {R' = Kept} _ (k c s.clients.host f)
            (λ r t. kept t) kept)
          (λ r t q. q) (λ t q. q))
    where
      Kept : ClientsList lib W → Type 0
      Kept t = After base (record s { clients = t })

      kept :
          (t : Self lib W)
          → Tame c t.client
          → Kept (record { slots = store_client t.client s.clients.slots; host = t.host })
      kept t h =
          store_client-After s t.host c t.client a
            (rw (h.id ∙ find_client-id id s.clients.slots c f) f) h

  pub change-Safe :
      {base : Server lib W} (id : ℕ) (f : Client lib → Client lib) (s : Server lib W)
      → ((c : Client lib) → find_client id s.clients.slots ≡ some c → Tame c (f c))
      → Live id s.clients.slots
      → After base s
      → Safe base (change id f s)
  unfolding change
  change-Safe id f s k l a = on_client-Safe id _ s (λ c h e. returned (k c e)) l a

  -- A change of a client, with what it has become.
  pub change-Found :
      {base : Server lib W} (id : ℕ) (f : Client lib → Client lib) (s : Server lib W)
      → ((c : Client lib) → find_client id s.clients.slots ≡ some c → Tame c (f c))
      → Live id base.clients.slots
      → After base s
      → Ends
          (λ u t. After base t × (c : Client lib) × (find_client id t.clients.slots ≡ some (f c)))
          (After base)
          (change id f s)
  unfolding change ClientsList.on_client
  change-Found id f s k l a =
      let (c, e) = a.alive id l in
      let i : (f c).id ≡ id = (k c e).id ∙ find_client-id id s.clients.slots c e in
      rw (e, change, ClientsList.on_client)
        (returned (
          store_client-After s s.clients.host c (f c) a (rw i e) (k c e),
          c,
          ground (arith, find_client-store_client id s.clients.slots c (f c) (rw i e)),
        ))

  -- A change to a state in which the request has been read, and one to a client with a connection.
  pub change-Ready :
      {base : Server lib W} (id : ℕ) (f : Client lib → Client lib) (s : Server lib W)
      → ((c : Client lib) → find_client id s.clients.slots ≡ some c → Tame c (f c))
      → ((c : Client lib) → is_new (f c).state ≡ false)
      → Live id base.clients.slots
      → After base s
      → Ends (λ u t. After base t × Ready id t.clients.slots) (After base) (change id f s)
  change-Ready id f s k n l a =
      Ends-mono (change-Found id f s k l a) (λ u t q. (q.0, (f q.1, q.2, n q.1))) (λ t q. q)

  pub change-Wired :
      {base : Server lib W} (id : ℕ) (f : Client lib → Client lib) (s : Server lib W)
      → ((c : Client lib) → find_client id s.clients.slots ≡ some c → Tame c (f c))
      → ((c : Client lib) → has_server_fd (f c).server_connection ≡ true)
      → Live id base.clients.slots
      → After base s
      → Ends (λ u t. After base t × Wired id t.clients.slots) (After base) (change id f s)
  change-Wired id f s k n l a =
      Ends-mono (change-Found id f s k l a) (λ u t q. (q.0, (f q.1, q.2, n q.1))) (λ t q. q)

  -- `request_clients_map[request]` returns listed clients.
  pub request_clients-Safe :
      {base : Server lib W} (req : Str) (s : Server lib W)
      → After base s
      → Ends
          (λ ids t. After base t × AllListed req t.clients.slots ids)
          (After base)
          (request_clients req s)
  unfolding request_clients
  request_clients-Safe req s a = elim (Option-cases (lookup req s.request_clients_map)) [
    | inl e ↦ rw (e, request_clients) (returned (assign-After s req [] a tt, tt))
    | inr (ids, e) ↦
        rw (e, request_clients)
          (returned (assign-After s req ids a (a.inv.listed req ids e), a.inv.listed req ids e))
  ]

  pub After-trans : {r s t : Server lib W} → After r s → After s t → After r t
  After-trans a b = record {
    inv = b.inv;
    alive = λ id h. b.alive id (a.alive id h);
    ready = λ id h. b.ready id (a.ready id h);
    wired = λ id h. b.wired id (a.wired id h);
  }

  -- A call that is safe from where it starts is safe from any earlier state.
  pub rebase :
      {A : Type 0} {base s : Server lib W} {m : Outcome (Server lib W) A}
      → After base s
      → Safe s m
      → Safe base m
  rebase a h = Ends-mono h (λ r t k. After-trans a k) (λ t k. After-trans a k)

  -- A safe call leaves a client its connection.
  pub keep-Wired :
      {A : Type 0} {base s : Server lib W} {m : Outcome (Server lib W) A} (id : ℕ)
      → After base s
      → Wired id s.clients.slots
      → Safe s m
      → Ends (λ a t. After base t × Wired id t.clients.slots) (After base) m
  keep-Wired id a w h =
      Ends-mono h (λ r t k. (After-trans a k, k.wired id w)) (λ t k. After-trans a k)

  loop-Safe :
      {base : Server lib W} (req : Str) (body : ℕ → M (Server lib W) (Unit {0})) (ids : List ℕ)
      (s : Server lib W)
      → ((id : ℕ) (t : Server lib W)
          → After base t
          → Live id t.clients.slots
          → Safe base (body id t))
      → After base s
      → AllListed req base.clients.slots ids
      → Safe base (for_each body ids s)
  unfolding for_each
  loop-Safe req body [] s k a h = returned a
  loop-Safe req body (id ∷ ids) s k a h =
      and_then-Ends _ (k id s a (a.alive id (h.0.0, h.0.1)))
        λ u t b. loop-Safe req body ids t k b h.1

  -- A loop over listed clients, with a body that is safe for each live client.
  pub for_each-Safe :
      {base : Server lib W} (req : Str) (body : ℕ → M (Server lib W) (Unit {0})) (ids : List ℕ)
      (s : Server lib W)
      → ((id : ℕ) (t : Server lib W) → After s t → Live id t.clients.slots → Safe s (body id t))
      → After base s
      → AllListed req s.clients.slots ids
      → Safe base (for_each body ids s)
  for_each-Safe req body ids s k a h = rebase a (loop-Safe req body ids s k (After-refl s a.inv) h)
