-- ===== src/Clients/Tests.antt =====
-- A request that a connection brings at once, and a client whose connection takes two bytes at a time.
use spx.Prelude.{
  ℕ, zero, suc, ◌≡◌, ◌≤◌, refl, sym, ap, ◌++◌, [], ◌∷◌, length, take, some, none, List, codes, true,
  arith,
}
use spx.Net.Sys.{Sys}
use spx.Server.Tests.{no_parser, origin, bringing, waiting_client}
use spx.Clients.Client
use spx.Clients.Client.{Client, Self}
use spx.Clients.Wire.{SendContract, stream, Streams, send_to_client_from_chunks-Streams}
use spx.Outcome.{returns}
use spx.Net.ActiveSocket
use spx.Clients.Reading.{
  read_http_request, read_loop, strncpy, search, strstr_terminator, starts_with_terminator,
  max_request_size,
}
use spx.Clients.Request.{Bounded, read_http_request-Bounded}

-- The array on the stack, with nothing but zeros.
zero_bytes : ℕ → List ℕ
zero_bytes zero = []
zero_bytes (suc n) = 0 ∷ zero_bytes n

abbrev calling : Sys (Unit {0})
calling = record (bringing (codes "GET / HTTP/1.0" ++ 13 ∷ 10 ∷ 13 ∷ 10 ∷ [])) {
  stack = λ w. zero_bytes max_request_size;
}

read_http_request-Bounded_example :
    Bounded calling origin
      (record { world = tt; next_id = 0 })
      (read_http_request calling origin (record { world = tt; next_id = 0 }))
read_http_request-Bounded_example =
    read_http_request-Bounded calling origin (record { world = tt; next_id = 0 })

-- The request is read.
read_http_request_returns :
    read_http_request calling origin (record { world = tt; next_id = 0 })
    ≡ returns
        (codes "GET / HTTP/1.0" ++ 13 ∷ 10 ∷ 13 ∷ 10 ∷ [])
        (record { world = tt; next_id = 0 })
unfolding read_http_request read_loop ActiveSocket.receive ActiveSocket.received strncpy search
    strstr_terminator starts_with_terminator zero_bytes
read_http_request_returns = refl

-- A system that keeps the bytes that `send` has taken.
abbrev pub logging : Sys (List ℕ)
logging = record {
  socket = λ d t p w. (some 20, w);
  close = λ fd w. w;
  send = λ fd bytes w. (some (length (take 2 bytes)), w ++ take 2 bytes);
  recv = λ fd n w. (some [], w);
  shutdown_write = λ fd w. (true, w);
  connect = λ fd a w. (true, w);
  set_reuse_addr = λ fd w. (true, w);
  set_reuse_port = λ fd w. (true, w);
  bind = λ fd a w. (true, w);
  listen = λ fd n w. (true, w);
  accept = λ fd w. (none, w);
  getaddrinfo = λ h p w. (none, w);
  poll = λ l t w. (some l, w);
  stack = λ w. [];
  open_files_limit = λ w. (some 64, w);
}

abbrev chunked_client : Client no_parser
chunked_client = record waiting_client { chunks = (1 ∷ 2 ∷ 3 ∷ []) ∷ (4 ∷ []) ∷ [] }

abbrev sending : Self no_parser (List ℕ)
sending = record { client = chunked_client; host = record { world = 9 ∷ []; next_id = 0 } }

length-take-two : (l : List ℕ) → length (take 2 l) ≤ length l
length-take-two [] = ground arith
length-take-two (x ∷ []) = ground arith
length-take-two (x ∷ y ∷ l) = ground arith

take-length-take-two : (l : List ℕ) → take 2 l ≡ take (length (take 2 l)) l
take-length-take-two [] = refl
take-length-take-two (x ∷ []) = refl
take-length-take-two (x ∷ y ∷ l) = refl

pub logging-SendContract : SendContract logging (λ w fd. w)
logging-SendContract = record {
  within = λ fd bytes w n e. ground (arith, length-take-two bytes);
  logged = λ fd bytes w n e.
      let h : length (take 2 bytes) ≡ n = ground arith in
      rw (sym h) (ap (λ t. w ++ t) (take-length-take-two bytes));
}

send_to_client_from_chunks-Streams_example :
    Streams logging
      (λ w fd. w)
      (stream logging (λ w fd. w) sending)
      (Client.send_to_client_from_chunks logging sending)
send_to_client_from_chunks-Streams_example =
    send_to_client_from_chunks-Streams logging (λ w fd. w) sending (1 ∷ 2 ∷ 3 ∷ []) ((4 ∷ []) ∷ [])
      logging-SendContract refl
