-- ===== src/Server/Stable.antt =====
-- Conditions on the state of `Server` of src/server.cpp that its calls on the cache, the clients, the
-- map of requests and the host keep, and with them every handler: what a condition has to be proved
-- of, and what follows for the smaller methods.
mod Connect
mod Requests
mod Share
mod Respond
mod Send
pub mod Rounds
pub mod Instances
pub mod Runs
use spx.Prelude.{
  ℕ, Bool, ◌≡◌, ◌∙◌, refl, List, [], ◌∷◌, Option, none, some, Str, inl, inr, Option-cases, arith,
}
use spx.Outcome.{M, ◌>>=◌, ◌>>◌, pure}
use spx.Outcome.Kept.{
  Kept, kept_returns, kept_throws, kept_fault, kept_rules, Kept-and_then, Kept-option,
}
use spx.Cache.Entry
use spx.Cache.Methods
use spx.Net.Sys.{Sys, Host}
use spx.Net.Onward.{From}
use spx.Http.Parser.{Parser}
use spx.Clients.Client.{Client, Self}
use spx.Clients.ClientsList
use spx.Clients.ClientsList.{find_client}
use spx.Clients.Onward.{At}
use spx.Server.State.{
  Server, on_cache, on_clients, on_client, on_host, load, change, request_clients,
  set_request_clients, for_each, edit,
}
use spx.Server.Discard.{accept_client}

-- A call on the host gives no number of the allocator back, and one on a client keeps the object.
abbrev pub IsOnward : {W A : Type 0} → M (Host W) A → Type 0
IsOnward {W} m = (n : ℕ) (h : Host W) → From n h → Kept (From n) (m h)

abbrev pub IsFaithful : {lib : Parser} {W A : Type 0} → M (Self lib W) A → Type 0
IsFaithful {lib} {W} m = (n i : ℕ) (s : Self lib W) → At n i s → Kept (At n i) (m s)

pub record IsStable {lib : Parser} {W : Type 0} (sys : Sys W) (P : Server lib W → Type 0)
    : Type 1 where
  pub reading :
      (key : Str) (offset len : ℕ) (s : Server lib W)
      → P s
      → Kept P (on_cache (Methods.read key offset len) s)
  pub getting :
      (key : Str) (s : Server lib W)
      → P s
      → Kept P (on_cache (Methods.get_entry key >>= Methods.load_entry) s)
  pub completing :
      (key : Str) (s : Server lib W)
      → P s
      → Kept P (on_cache (Methods.get_entry key >>= λ a. Methods.update_entry a Entry.complete) s)
  pub writing :
      (key : Str) (bytes : List ℕ) (s : Server lib W)
      → P s
      → Kept P (on_cache (Methods.write key bytes) s)
  pub using : (key : Str) (s : Server lib W) → P s → Kept P (on_cache (Methods.use_entry key) s)
  pub disusing :
      (key : Str) (s : Server lib W) → P s → Kept P (on_cache (Methods.disuse_entry key) s)
  pub hosting :
      {A : Type 0} (m : M (Host W) A) (s : Server lib W) → IsOnward m → P s → Kept P (on_host m s)
  pub calling :
      {A : Type 0} (id : ℕ) (m : M (Self lib W) A) (s : Server lib W)
      → IsFaithful m
      → P s
      → Kept P (on_client id m s)
  pub discarding :
      (id : ℕ) (s : Server lib W) → P s → Kept P (on_clients (ClientsList.discard_client sys id) s)
  pub accepting : (s : Server lib W) → P s → Kept P (accept_client sys s)
  pub switching : (b : Bool) (s : Server lib W) → P s → P (record s { is_running = b })
  pub mapping :
      (m : List (Str × List ℕ)) (s : Server lib W) → P s → P (record s { request_clients_map = m })

module _ {lib : Parser} {W : Type 0} (sys : Sys W) (P : Server lib W → Type 0)
    (stable : IsStable sys P) where
  pub change-Kept :
      (id : ℕ) (f : Client lib → Client lib) (s : Server lib W)
      → ((c : Client lib) → (f c).id ≡ c.id)
      → P s
      → Kept P (change id f s)
  unfolding change
  change-Kept id f s e p =
      stable.calling id (edit f) s (λ n i t k. kept_returns (e t.client ∙ k.0, k.1)) p

  pub load-Kept : (id : ℕ) (s : Server lib W) → P s → Kept P (load id s)
  unfolding load
  load-Kept id s p = elim (Option-cases (find_client id s.clients.slots)) [
    | inl e ↦ rw (load, e) (kept_fault tt)
    | inr (c, e) ↦ rw (load, e) (kept_returns p)
  ]

  pub request_clients-Kept :
      (request : Str) (s : Server lib W) → P s → Kept P (request_clients request s)
  unfolding request_clients
  request_clients-Kept request s p = kept_returns (stable.mapping _ s p)

  pub for_each-Kept :
      (body : ℕ → M (Server lib W) (Unit {0})) (ids : List ℕ) (s : Server lib W)
      → ((id : ℕ) (t : Server lib W) → P t → Kept P (body id t))
      → P s
      → Kept P (for_each body ids s)
  unfolding for_each
  for_each-Kept body [] s b p = kept_returns p
  for_each-Kept body (id ∷ ids) s b p =
      Kept-and_then _ _ (b id s p) λ u t q. for_each-Kept body ids t b q

pub ruleset stable_rules = (kept_rules, load-Kept, request_clients-Kept, change-Kept, refl)
