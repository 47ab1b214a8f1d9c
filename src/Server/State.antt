-- ===== src/Server/State.antt =====
-- The state of `Server` of src/server.h, and calls on its parts.
use spx.Prelude.{ℕ, Bool, List, [], ◌∷◌, Option, none, some, Str}
use spx.Outcome.{M, dangling_client, fail, pure, ◌>>◌, zoom, returns}
use spx.Dict.{lookup, assign}
use spx.Cache.Methods.{Cache}
use spx.Net.Sys.{Host}
use spx.Net.PassiveSocket.{PassiveSocket}
use spx.Http.Parser.{Parser}
use spx.Clients.Client.{Client, Self}
use spx.Clients.ClientsList
use spx.Clients.ClientsList.{ClientsList, find_client}

module _ (lib : Parser) (W : Type 0) where
  -- `request_clients_map` holds references to clients: addresses.
  pub record Server : Type 0 where
    pub server_socket : PassiveSocket
    pub cache : Cache
    pub clients : ClientsList lib W
    pub request_clients_map : List (Str × List ℕ)
    pub is_running : Bool

-- The list of a request, if the map has one.
abbrev pub or_empty : Option (List ℕ) → List ℕ
or_empty none = []
or_empty (some ids) = ids

module _ {lib : Parser} {W : Type 0} where
  abbrev pub on_cache : {A : Type 0} → M Cache A → M (Server lib W) A
  on_cache = zoom (λ s. s.cache) (λ c s. record s { cache = c })

  abbrev pub on_clients : {A : Type 0} → M (ClientsList lib W) A → M (Server lib W) A
  on_clients = zoom (λ s. s.clients) (λ c s. record s { clients = c })

  abbrev pub on_host : {A : Type 0} → M (Host W) A → M (Server lib W) A
  on_host =
      zoom (λ s. s.clients.host) (λ h s. record s { clients = record (s.clients) { host = h } })

  -- The object behind a reference to a client, a write to it, and a method of it.
  unfoldable pub load : ℕ → M (Server lib W) (Client lib)
  load id s = elim (find_client id s.clients.slots) [
    | none ↦ fail dangling_client s
    | some c ↦ pure c s
  ]

  abbrev pub on_client : {A : Type 0} → ℕ → M (Self lib W) A → M (Server lib W) A
  on_client id m = on_clients (ClientsList.on_client id m)

  abbrev pub edit : (Client lib → Client lib) → M (Self lib W) (Unit {0})
  edit f t = returns tt (record t { client = f t.client })

  unfoldable pub change : ℕ → (Client lib → Client lib) → M (Server lib W) (Unit {0})
  change id f = on_client id (edit f)

  -- `request_clients_map[request]`: a missing list is made, and is empty.
  unfoldable pub request_clients : Str → M (Server lib W) (List ℕ)
  request_clients request s =
      let ids = or_empty (lookup request s.request_clients_map) in
      returns ids (record s { request_clients_map = assign request ids s.request_clients_map })

  abbrev pub set_request_clients : Str → List ℕ → M (Server lib W) (Unit {0})
  set_request_clients request ids s =
      returns tt (record s { request_clients_map = assign request ids s.request_clients_map })

  -- `for (auto &c : list)`.
  unfoldable pub for_each : (ℕ → M (Server lib W) (Unit {0})) → List ℕ → M (Server lib W) (Unit {0})
  for_each body [] = pure tt
  for_each body (id ∷ ids) = body id >> for_each body ids
