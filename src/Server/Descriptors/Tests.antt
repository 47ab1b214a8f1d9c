-- ===== src/Server/Descriptors/Tests.antt =====
-- A host with two addresses, of which the first refuses the connection.
use spx.Prelude.{ℕ, refl, ap, Bool, true, false, List, [], ◌∷◌, some, Str, arith}
use spx.Net.Sys.{Sys, Host, Addrinfo}
use spx.Clients.Tests.{logging}
use spx.Server.Connect.{connect_to_host}
use spx.Server.Descriptors.{OpenContract, Connected, connect_to_host-Connected}

abbrev accepts : Str → Bool
accepts [] = false
accepts (b ∷ rest) = true

abbrev without_last : List ℕ → List ℕ
without_last [] = []
without_last (n ∷ l) = l

abbrev address : Str → Addrinfo
address text = record { ai_family = 2; ai_socktype = 1; ai_protocol = 0; ai_addr = text }

-- The world is the list of the open descriptors.
abbrev counting : Sys (List ℕ)
counting = record logging {
  socket = λ d t p w. (some 9, 9 ∷ w);
  close = λ fd w. without_last w;
  connect = λ fd a w. (accepts a, w);
  getaddrinfo = λ h p w. (some (address [] ∷ address (1 ∷ []) ∷ []), w);
}

counting-OpenContract : OpenContract counting (λ w. w)
counting-OpenContract = record {
  opens = λ d t p n w e. ground arith;
  opens_none = λ d t p w e. cc;
  closes = λ n l w e. ap without_last e;
  connects = λ fd a w. refl;
  resolves = λ h p w. refl;
}

abbrev counting_host : Host (List ℕ)
counting_host = record { world = 4 ∷ []; next_id = 0 }

connect_to_host-Connected_example :
    Connected (λ w. w) (4 ∷ []) (connect_to_host counting [] [] counting_host)
connect_to_host-Connected_example =
    connect_to_host-Connected counting (λ w. w) counting-OpenContract (4 ∷ []) [] [] counting_host
      refl
