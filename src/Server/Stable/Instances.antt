-- ===== src/Server/Stable/Instances.antt =====
-- The condition that the server of src/server.cpp keeps: the cache is sound, and every client has a
-- number that the allocator has given out.
use spx.Prelude.{arith}
use spx.Outcome.{Outcome, within}
use spx.Outcome.Kept.{Kept, Kept-within, Kept-and_then}
use spx.Cache.Methods.{Cache}
use spx.Cache.Sound.{IsSound}
use spx.Cache.Sound.Calls.{
  read-IsSound, get_entry-IsSound, complete_entry-IsSound, write-IsSound, use_entry-IsSound,
  disuse_entry-IsSound,
}
use spx.Net.Sys.{Sys, Host}
use spx.Net.PassiveSocket
use spx.Net.Onward.{From, accept-Onward}
use spx.Http.Parser.{Parser}
use spx.Clients.ClientsList
use spx.Clients.ClientsList.{ClientsList}
use spx.Clients.Numbered.{
  Numbered, AllNumbered-mono, on_client-Numbered, accept_client-Numbered, discard_client-Numbered,
}
use spx.Server.State.{Server, on_clients}
use spx.Server.Discard.{accept_client}
use spx.Server.Events
use spx.Server.Stable.{IsStable}

module _ {lib : Parser} {W : Type 0} where
  pub record Good (s : Server lib W) : Type 0 where
    pub cached : IsSound Events.max_cache_size s.cache
    pub numbered : Numbered s.clients

  -- A call on the cache, on the clients, and on the host.
  cache-Good :
      {A : Type 0} (m : Outcome Cache A) (s : Server lib W)
      → Kept (IsSound Events.max_cache_size) m
      → Good s
      → Kept Good (within (λ c. record s { cache = c }) m)
  cache-Good m s k p = Kept-within _ m k (λ c q. record { cached = q; numbered = p.numbered })

  clients-Good :
      {A : Type 0} (m : Outcome (ClientsList lib W) A) (s : Server lib W)
      → Kept Numbered m
      → Good s
      → Kept Good (within (λ t. record s { clients = t }) m)
  clients-Good m s k p = Kept-within _ m k (λ t q. record { cached = p.cached; numbered = q })

  host-Good :
      {A : Type 0} (m : Outcome (Host W) A) (s : Server lib W)
      → Kept (From s.clients.host.next_id) m
      → Good s
      → Kept Good (within (λ h. record s { clients = record (s.clients) { host = h } }) m)
  host-Good m s k p = Kept-within _ m k λ h q. record {
    cached = p.cached;
    numbered = AllNumbered-mono s.clients.host.next_id h.next_id s.clients.slots q p.numbered;
  }

  module _ (sys : Sys W) where
    accept_client-Good : (s : Server lib W) → Good s → Kept Good (accept_client sys s)
    unfolding accept_client
    accept_client-Good s p =
        Kept-and_then _ (λ conn. on_clients (ClientsList.accept_client sys conn))
          (host-Good (PassiveSocket.accept sys s.server_socket s.clients.host) s
            (accept-Onward sys s.clients.host.next_id s.server_socket s.clients.host (omega arith))
            p)
          λ conn t q. clients-Good _ t (accept_client-Numbered sys conn t.clients q.numbered) q

    pub Good-IsStable : IsStable sys Good
    Good-IsStable = record {
      reading =
          λ key offset len s p. cache-Good _ s (read-IsSound key s.cache p.cached offset len) p;
      getting = λ key s p. cache-Good _ s (get_entry-IsSound key s.cache p.cached) p;
      completing = λ key s p. cache-Good _ s (complete_entry-IsSound key s.cache p.cached) p;
      writing = λ key bytes s p. cache-Good _ s (write-IsSound key bytes s.cache p.cached) p;
      using = λ key s p. cache-Good _ s (use_entry-IsSound key s.cache p.cached) p;
      disusing = λ key s p. cache-Good _ s (disuse_entry-IsSound key s.cache p.cached) p;
      hosting = λ m s o p.
          host-Good (m s.clients.host) s (o s.clients.host.next_id s.clients.host (omega arith)) p;
      calling = λ id m s f p. clients-Good _ s (on_client-Numbered id m s.clients f p.numbered) p;
      discarding =
          λ id s p. clients-Good _ s (discard_client-Numbered sys id s.clients p.numbered) p;
      accepting = accept_client-Good;
      switching = λ b s p. record { cached = p.cached; numbered = p.numbered };
      mapping = λ m s p. record { cached = p.cached; numbered = p.numbered };
    }
