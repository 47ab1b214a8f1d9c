-- ===== src/Server/Safety/Leaving.antt =====
-- Lemmas on the search for a reader in `discardClient` of src/server.cpp: what it leaves of the lists.
use spx.Prelude.{
  ℕ, ◌≡◌, ◌&&◌, str_discrete, ◌∷◌, [], Bool, true, false, List, Option, none, some, Str,
  if◌then◌else◌, inl, inr, Option-cases, arith,
}
use spx.Outcome.{M, Outcome, returns, throws, fault, pure, within, and_then}
use spx.Outcome.Ends.{Ends, returned, threw, faulted}
use spx.Dict.{lookup, lookup-assign}
use spx.Net.Sys.{Sys}
use spx.Http.Parser.{Parser}
use spx.Clients.Client.{Client, is_reading_from_cache}
use spx.Clients.ClientsList.{find_client}
use spx.Server.State.{Server, load, change, request_clients}
use spx.Server.Requests.{has_clients_with_request}
use spx.Server.Discard.{
  find_reading_from_cache, hand_over_connection, pass_on_connection, is_waiting_response,
}
use spx.Server.Safety.Listing.{Unlisted}

-- What a call leaves of the lists, whatever else it does.
module _ {lib : Parser} {W : Type 0} where
  abbrev pub Leaves : {A : Type 0} → ℕ → Outcome (Server lib W) A → Type 0
  Leaves id (returns a t) = Unlisted id t.request_clients_map
  Leaves id (throws e t) = Unlisted id t.request_clients_map
  Leaves id (fault x) = Unit

  pub Ends-Leaves :
      {A : Type 0} {Q : A → Server lib W → Type 0} {R : Server lib W → Type 0} (id : ℕ)
      {m : Outcome (Server lib W) A}
      → Ends Q R m
      → Leaves id m
      → Ends (λ a t. Q a t × Unlisted id t.request_clients_map) R m
  Ends-Leaves id (returned h) k = returned (h, k)
  Ends-Leaves id (threw h) k = threw h
  Ends-Leaves id (faulted h) k = faulted h

  and_then-Leaves :
      {A B : Type 0} (id : ℕ) (m : Outcome (Server lib W) A) (f : A → M (Server lib W) B)
      → Leaves id m
      → ((a : A) (t : Server lib W) → Unlisted id t.request_clients_map → Leaves id (f a t))
      → Leaves id (and_then m f)
  and_then-Leaves id (returns a t) f h k = k a t h
  and_then-Leaves id (throws e t) f h k = h
  and_then-Leaves id (fault x) f h k = tt

  if-Leaves :
      {A : Type 0} (id : ℕ) (b : Bool) (m n : M (Server lib W) A) (s : Server lib W)
      → Leaves id (m s)
      → Leaves id (n s)
      → Leaves id ((if b then m else n) s)
  if-Leaves id true m n s h k = h
  if-Leaves id false m n s h k = k

  pub within-Leaves :
      {A : Type 0} {T : Type 0} (id : ℕ) (f : T → Server lib W) (m : Outcome T A)
      → ((t : T) → Unlisted id ((f t).request_clients_map))
      → Leaves id (within f m)
  within-Leaves id f (returns a t) h = h t
  within-Leaves id f (throws e t) h = h t
  within-Leaves id f (fault x) h = tt

  load-Leaves :
      (id j : ℕ) (s : Server lib W) → Unlisted id s.request_clients_map → Leaves id (load j s)
  unfolding load
  load-Leaves id j s h = elim (Option-cases (find_client j s.clients.slots)) [
    | inl e ↦ rw (e, load) tt
    | inr (c, e) ↦ rw (e, load) h
  ]

  change-Leaves :
      (id j : ℕ) (f : Client lib → Client lib) (s : Server lib W)
      → Unlisted id s.request_clients_map
      → Leaves id (change j f s)
  unfolding change
  change-Leaves id j f s h = within-Leaves id _ _ (λ t. h)

  request_clients-Leaves :
      (id : ℕ) (req : Str) (s : Server lib W)
      → Unlisted id s.request_clients_map
      → Leaves id (request_clients req s)
  unfolding request_clients
  request_clients-Leaves id req s h r ids e =
      elim (Option-cases (lookup req s.request_clients_map)) [
        | inl q ↦ elim (str_discrete req r) [
          | yes same ↦
              let eq : [] ≡ ids = ground (arith, lookup-assign r req [] s.request_clients_map) in
              rw (← eq) tt
          | no other ↦ h r ids (ground (arith, lookup-assign r req [] s.request_clients_map))
        ]
        | inr (js, q) ↦ elim (str_discrete req r) [
          | yes same ↦ h r ids (ground (arith, lookup-assign r req js s.request_clients_map))
          | no other ↦ h r ids (ground (arith, lookup-assign r req js s.request_clients_map))
        ]
      ]

  find_reading_from_cache-Leaves :
      (id : ℕ) (ids : List ℕ) (s : Server lib W)
      → Unlisted id s.request_clients_map
      → Leaves id (find_reading_from_cache ids s)
  unfolding find_reading_from_cache
  find_reading_from_cache-Leaves id [] s h = h
  find_reading_from_cache-Leaves id (j ∷ ids) s h =
      and_then-Leaves id _ _ (load-Leaves id j s h) λ c t k.
        if-Leaves id (is_reading_from_cache c) _ _ t k (find_reading_from_cache-Leaves id ids t k)

  found-Leaves :
      (o : Option ℕ) (id : ℕ) (s : Server lib W)
      → Unlisted id s.request_clients_map
      → Leaves id (
          (elim o as (λ _. M (Server lib W) (Unit {0})) [
            | none ↦ pure tt
            | some reader ↦ hand_over_connection reader id
          ])
            s)
  unfolding hand_over_connection
  found-Leaves none id s h = h
  found-Leaves (some reader) id s h = and_then-Leaves id _ _ (load-Leaves id reader s h) λ c t k.
      and_then-Leaves id _ _ (load-Leaves id id t k) λ d t1 k1.
        and_then-Leaves id _ _ (change-Leaves id reader _ t1 k1)
          λ u t2 k2. change-Leaves id id _ t2 k2

  pub pass_on_connection-Leaves :
      (sys : Sys W) (id : ℕ) (s : Server lib W)
      → Unlisted id s.request_clients_map
      → Leaves id (pass_on_connection sys id s)
  unfolding pass_on_connection
  pass_on_connection-Leaves sys id s h =
      and_then-Leaves id _ _ (load-Leaves id id s h) λ client t k.
        if-Leaves id
          (is_waiting_response client.state && has_clients_with_request client.request_str t) _
          (pure tt) t
          (and_then-Leaves id _ _ (request_clients-Leaves id client.request_str t k) λ ids t1 k1.
            and_then-Leaves id _ _ (find_reading_from_cache-Leaves id ids t1 k1)
              λ o t2 k2. found-Leaves o id t2 k2)
          k
