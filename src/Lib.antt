-- ===== src/Lib.antt =====
-- SPX, a simple HTTP proxy with a built-in cache (src/), as a model in which its C++ code can be
-- reasoned about. One process serves all clients from one `poll` loop. A client sends a request; the
-- proxy connects to the origin server, forwards the request, and copies the response into a cache
-- from which all clients with the same request are served while it arrives.
--
-- Files and what they model:
-- - Outcome: src/common/exception.h, and how a call can end. `returns a s` and `throws e s` carry
--   the state, since a C++ exception undoes nothing; `fault` is a run that leaves defined behaviour
--   (a dangling iterator, a dead object, a failed `assert`, a read out of bounds). `Ends` and `Kept`
--   are rules on how composed calls end, and on the conditions that they keep.
-- - Dict: `std::unordered_map` with string keys.
-- - Cache: src/cache. `Cache.Entry` and `Cache.Store` are the data: list nodes with addresses, which
--   iterators and references hold, and the hash table. `Cache.Methods` has the methods, named as in
--   the source. `Cache.Spec` is the abstract view. `Nodes`, `Back`, `Effects`, `Entries`, `Harmless`
--   and `Calm` are lemmas; `Invariant`, `Refinement`, `Space`, `History` and `Holding` relate the
--   methods to the view; `Sound` is the condition that is left when a write throws.
-- - Net: src/net. `Net.Sys` is the operating system, a parameter: a world `W` that each system call
--   reads and changes. What send(2), recv(2) and poll(2) are relied on for is a named hypothesis where
--   it is used (`Clients.Wire.SendContract`, `Server.Delivery.Takes`, `Server.Safety.Polling.PollContract`,
--   `Server.Descriptors.OpenContract`). `Net.Onward` is about the allocator.
-- - Http: src/http/http_request.{h,cpp}. `Http.Parser` is the third-party parser library, a parameter.
--   `Order`, `HeaderMap`, `Headers` and `Text` are about the header map and the text of a request.
-- - Clients: src/clients_list.{h,cpp}. A reference to a client is the address of its object. `Request`
--   is about the loop that reads a request, `Array` about the array that it fills, `Wire` about the
--   chunks that wait for a client, `Onward` and `Numbered` about the addresses of clients.
-- - Server: src/server.{h,cpp}, its methods in `Connect`, `Requests`, `Discard`, `Sharing`,
--   `Response`, `Sending` and `Events`. `Delivery`, `Caching`, `Broadcast` and `Fallback` follow the
--   bytes of a response: from the cache to a client, from the origin server to the cache, from there
--   to the clients without the cache, and from the one way to the other when the cache is full;
--   `Leaving` is about a client that has got all of its response, `Takeover` follows the connection to
--   the origin server when its client goes, and `Descriptors` the descriptors that connecting opens. `Server.Safety` follows the references to clients that
--   `request_clients_map` and the handlers keep: `Invariant` and `Tame` say which states are good, its
--   other modules follow the handlers one by one, `Polling` and `Accepting` the rest of a round, and
--   `Reach` whole runs, which `Covers` compares with `start`. `Server.Stable` says what a condition on the server's state has to be proved of
--   to hold after every handler and every run; `Instances` has such a condition, on the cache and on the
--   addresses of clients, and `Runs` what follows. `Stopping` is about the end of the event loop. `Errors`,
--   `Gone`, `Orphans`, `Stranded`, `Latecomer`, `Mixed` and `Lingering` have what the handlers do not
--   take care of. `Discarding`, `Synced` and `Fallen` are lemmas.
-- - Main: src/main.cpp.
--
-- Conventions and bounds. A byte or a `char` is a natural number, a string is its bytes. `size_t`
-- arithmetic wraps at 2^64; `Entry::in_use` is kept as the 32-bit pattern of the `int`. The loop of
-- `freeSpace` runs on one more round than there are entries, the loop of `readHttpRequest` on two
-- more rounds than its array has bytes (each round that goes on writes a byte, and one that would
-- write past the array throws). The event loop runs for a given number of rounds.
--
-- Not modelled: src/http/httpparser (a copy of another project; its calls are a parameter), output
-- to the log, the registration of signal handlers (a signal is an input of the event loop), the
-- messages of exceptions, `freeaddrinfo`, and the failure of memory allocation.
mod Prelude
pub mod Outcome
pub mod Dict
pub mod Cache
pub mod Net
pub mod Http
pub mod Clients
pub mod Server
pub mod Main
