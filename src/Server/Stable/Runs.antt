-- ===== src/Server/Stable/Runs.antt =====
-- What holds of the server of src/server.cpp in every run, from its constructor on.
use spx.Prelude.{ℕ, ◌≡◌, ◌≢◌, Bool, false, List, []}
use spx.Outcome.{
  Outcome, ◌>>=◌, and_then, get, pure, returns, throws, fault, dangling_iterator, out_of_fuel,
}
use spx.Outcome.Kept.{Kept, Kept-mono, Kept-faulted}
use spx.Outcome.Ends.{Returned, Returned-returns}
use spx.Cache.Methods
use spx.Cache.Sound.{IsSound, create-IsSound}
use spx.Net.Sys.{Sys, Host}
use spx.Net.PassiveSocket
use spx.Http.Parser.{Parser}
use spx.Clients.ClientsList
use spx.Clients.Numbered.{no_clients-AllNumbered}
use spx.Server.State.{Server}
use spx.Server.Events
use spx.Server.Events.{start}
use spx.Server.Stable.Instances.{Good, Good-IsStable}
use spx.Server.Stable.Rounds.{start-Kept}

module _ (lib : Parser) {W : Type 0} (sys : Sys W) where
  created_cases :
      (max_fds : ℕ) (o : Outcome (Host W) PassiveSocket.PassiveSocket)
      → Returned
          (λ s t. Good s)
          (and_then o (λ socket. do
            h ← get
            pure (record {
              server_socket = socket;
              cache = Methods.create Events.max_cache_size;
              clients = ClientsList.create {lib = lib} max_fds h;
              request_clients_map = [];
              is_running = false;
            })))
  unfolding ClientsList.create
  created_cases max_fds (returns socket h) = record {
    cached = create-IsSound;
    numbered = no_clients-AllNumbered lib h.next_id (ClientsList.calculate_maximum_clients max_fds);
  }
  created_cases max_fds (throws e h) = tt
  created_cases max_fds (fault x) = tt

module _ {lib : Parser} {W : Type 0} (sys : Sys W) where
  pub create-Good :
      (port max_fds : ℕ) (h h' : Host W) (s : Server lib W)
      → Events.create sys port max_fds h ≡ returns s h'
      → Good s
  unfolding Events.create
  create-Good port max_fds h h' s e =
      Returned-returns _ _ _ _ (created_cases lib sys max_fds (PassiveSocket.create sys port h)) e

  module _ (port max_fds : ℕ) (rounds : List Bool) (h h' : Host W) (s : Server lib W)
      (e : Events.create sys port max_fds h ≡ returns s h') where
    start-Good : Kept Good (start sys rounds s)
    start-Good =
        start-Kept sys Good (Good-IsStable sys) rounds s (create-Good port max_fds h h' s e)

    -- After any number of rounds of the event loop of a server that has just been constructed, with
    -- signals or without, and whether the loop returns or throws, the hash table leads each key to its
    -- entry and to nothing else, keys and addresses occur once, and the entries hold at most the bytes
    -- of the running size, which is at most the limit of 16 MiB.
    pub start-IsSound : Kept (λ t. IsSound Events.max_cache_size t.cache) (start sys rounds s)
    start-IsSound = Kept-mono (λ t p. p.cached) start-Good

    -- No run of the event loop of a server that has just been constructed, with any number of rounds
    -- and any signals, follows an iterator of the cache that is not valid.
    pub start-iterators : start sys rounds s ≢ fault dangling_iterator
    start-iterators q = Kept-faulted Good start-Good q

    -- In every run of the event loop of a server that has just been constructed, each loop that reads a
    -- request ends within two rounds more than its array has bytes, and each loop that frees space in the
    -- cache within one round more than there are entries.
    pub start-fuel : start sys rounds s ≢ fault out_of_fuel
    start-fuel q = Kept-faulted Good start-Good q
