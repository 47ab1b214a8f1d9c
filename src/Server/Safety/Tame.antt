-- ===== src/Server/Safety/Tame.antt =====
-- What the methods of src/server.cpp may make of one client, and what that leaves of the table of
-- clients.
use spx.Prelude.{
  Option, refl, sym, none, ap, ◌∙◌, ℕ, ◌≡◌, ◌==◌, Bool, true, false, List, [], ◌∷◌, some, Str,
  Bool-cases, inl, inr, arith,
}
use spx.Cache.Methods.{is_some}
use spx.Net.ActiveSocket.{ActiveSocket}
use spx.Http.Parser.{Parser}
use spx.Clients.Client.{Client, State}
use spx.Clients.ClientsList.{server_fd, find_client, store_client}
use spx.Server.Safety.Slots.{remove_client, Slots, Live, find_client-store_client}

unfoldable pub is_new : State → Bool
is_new State.waiting_for_request = true
is_new _ = false

-- The states in which `getPollfds` asserts that the client has a connection to a server.
unfoldable pub needs_server : State → Bool
needs_server State.sending_request = true
needs_server State.waiting_response_status_code = true
needs_server State.waiting_response = true
needs_server _ = false

abbrev pub has_server_fd : Option ActiveSocket → Bool
has_server_fd o = is_some (server_fd o)

module _ {lib : Parser} where
  -- A live client with that request, which it has read.
  abbrev pub Listed : Str → Slots lib → ℕ → Type 0
  Listed req l id =
      (c : Client lib) × (find_client id l ≡ some c)
      × (c.request_str ≡ req)
      × (is_new c.state ≡ false)

  -- A live client that has read its request.
  abbrev pub Ready : ℕ → Slots lib → Type 0
  Ready id l = (c : Client lib) × (find_client id l ≡ some c) × (is_new c.state ≡ false)

  -- A live client with a valid connection to a server.
  abbrev pub Wired : ℕ → Slots lib → Type 0
  Wired id l =
      (c : Client lib) × (find_client id l ≡ some c) × (has_server_fd c.server_connection ≡ true)

  -- A client has the connection that its state needs; so do all.
  abbrev pub Joined : Client lib → Type 0
  Joined c = needs_server c.state ≡ true → has_server_fd c.server_connection ≡ true

  abbrev pub AllJoined : Slots lib → Type 0
  AllJoined [] = Unit
  AllJoined (none ∷ l) = AllJoined l
  AllJoined (some c ∷ l) = Joined c × AllJoined l

  abbrev pub AllListed : Str → Slots lib → List ℕ → Type 0
  AllListed req l [] = Unit
  AllListed req l (id ∷ ids) = Listed req l id × AllListed req l ids

  pub Wired-Live : (id : ℕ) (l : Slots lib) → Wired id l → Live id l
  Wired-Live id l (d, f, w) = (d, f)

  pub Wired-found :
      (id : ℕ) (l : Slots lib) (c : Client lib)
      → Wired id l
      → find_client id l ≡ some c
      → has_server_fd c.server_connection ≡ true
  Wired-found id l c (d, f, w) e = ground arith

  pub remove_client-AllJoined :
      (id : ℕ) (l : Slots lib) → AllJoined l → AllJoined (remove_client id l)
  remove_client-AllJoined id [] a = tt
  remove_client-AllJoined id (none ∷ l) a = remove_client-AllJoined id l a
  remove_client-AllJoined id (some c ∷ l) a = elim (Bool-cases (c.id == id)) [
    | inl hit ↦ rw hit a.1
    | inr miss ↦ rw miss (a.0, remove_client-AllJoined id l a.1)
  ]

  pub remove_client-store_client :
      (l : Slots lib) (d : Client lib)
      → remove_client d.id (store_client d l) ≡ remove_client d.id l
  unfolding store_client
  remove_client-store_client [] d = refl
  remove_client-store_client (none ∷ l) d = ap (λ r. none ∷ r) (remove_client-store_client l d)
  remove_client-store_client (some c ∷ l) d = ground (arith, remove_client-store_client l d)

  -- What becomes of a client: a listed one keeps its request and stays listed. A call that is tame
  -- also leaves it the connection that its state needs.
  pub record Steady (c d : Client lib) : Type 0 where
    pub id : d.id ≡ c.id
    pub client_connection : d.client_connection ≡ c.client_connection
    pub listed : is_new c.state ≡ false → (d.request_str ≡ c.request_str) × (is_new d.state ≡ false)

  pub record Tame (c d : Client lib) : Type 0 where
    pub steady : Steady c d
    pub open steady use *
    pub joined : Joined c → Joined d
    pub wired : has_server_fd c.server_connection ≡ true → has_server_fd d.server_connection ≡ true

  -- A change to other fields, and one that also goes on to a later state.
  pub edit-Tame :
      {c d : Client lib}
      → d.id ≡ c.id
      → d.client_connection ≡ c.client_connection
      → d.request_str ≡ c.request_str
      → d.state ≡ c.state
      → (has_server_fd c.server_connection ≡ true → has_server_fd d.server_connection ≡ true)
      → Tame c d
  edit-Tame i n r a w = record {
    steady = record { id = i; client_connection = n; listed = λ m. (r, ap is_new a ∙ m) };
    joined = λ j m. w (j (ap needs_server (sym a) ∙ m));
    wired = w;
  }

  pub advance-Tame :
      {c d : Client lib}
      → d.id ≡ c.id
      → d.client_connection ≡ c.client_connection
      → d.request_str ≡ c.request_str
      → is_new d.state ≡ false
      → Joined d
      → (has_server_fd c.server_connection ≡ true → has_server_fd d.server_connection ≡ true)
      → Tame c d
  advance-Tame i n r a j w = record {
    steady = record { id = i; client_connection = n; listed = λ m. (r, a) };
    joined = λ k. j;
    wired = w;
  }

  pub AllJoined-find :
      (id : ℕ) (l : Slots lib) (c : Client lib) → find_client id l ≡ some c → AllJoined l → Joined c
  unfolding find_client
  AllJoined-find id [] c e a = cc
  AllJoined-find id (none ∷ l) c e a = AllJoined-find id l c e a
  AllJoined-find id (some d ∷ l) c e a = elim (Bool-cases (d.id == id)) [
    | inl hit ↦ let same : d ≡ c = ground arith in rw (← same) a.0
    | inr miss ↦ AllJoined-find id l c (ground arith) a.1
  ]

  pub AllJoined-store_client :
      (l : Slots lib) (d : Client lib) → Joined d → AllJoined l → AllJoined (store_client d l)
  unfolding store_client
  AllJoined-store_client [] d j a = tt
  AllJoined-store_client (none ∷ l) d j a = AllJoined-store_client l d j a
  AllJoined-store_client (some c ∷ l) d j a = elim (Bool-cases (c.id == d.id)) [
    | inl hit ↦ rw (hit, store_client) (j, a.1)
    | inr miss ↦ rw (miss, store_client) (a.0, AllJoined-store_client l d j a.1)
  ]

  module _ (l : Slots lib) (c d : Client lib) (found : find_client d.id l ≡ some c)
      (h : Steady c d) where
    pub store_client-Live : (j : ℕ) → Live j l → Live j (store_client d l)
    store_client-Live j (e, f) = elim (Bool-cases (d.id == j)) [
      | inl hit ↦ (d, ground (arith, find_client-store_client j l c d found))
      | inr miss ↦ (e, ground (arith, find_client-store_client j l c d found))
    ]

    pub store_client-Ready : (j : ℕ) → Ready j l → Ready j (store_client d l)
    store_client-Ready j (e, f, n) = elim (Bool-cases (d.id == j)) [
      | inl hit ↦
          let same : e ≡ c = ground arith in
          let (r, n') = h.listed (ground arith) in
          (d, ground (arith, find_client-store_client j l c d found), n')
      | inr miss ↦ (e, ground (arith, find_client-store_client j l c d found), n)
    ]

    pub store_client-Wired :
        (w : has_server_fd c.server_connection ≡ true → has_server_fd d.server_connection ≡ true)
        (j : ℕ)
        → Wired j l
        → Wired j (store_client d l)
    store_client-Wired w j (e, f, n) = elim (Bool-cases (d.id == j)) [
      | inl hit ↦
          let same : e ≡ c = ground arith in
          (d, ground (arith, find_client-store_client j l c d found), w (ground arith))
      | inr miss ↦ (e, ground (arith, find_client-store_client j l c d found), n)
    ]

    store_client-Listed : (req : Str) (j : ℕ) → Listed req l j → Listed req (store_client d l) j
    store_client-Listed req j (e, f, r, n) = elim (Bool-cases (d.id == j)) [
      | inl hit ↦
          let same : e ≡ c = ground arith in
          let (r', n') = h.listed (ground arith) in
          (d, ground (arith, find_client-store_client j l c d found), ground arith, n')
      | inr miss ↦ (e, ground (arith, find_client-store_client j l c d found), r, n)
    ]

    pub store_client-AllListed :
        (req : Str) (ids : List ℕ) → AllListed req l ids → AllListed req (store_client d l) ids
    store_client-AllListed req [] a = tt
    store_client-AllListed req (j ∷ ids) a =
        (store_client-Listed req j a.0, store_client-AllListed req ids a.1)
