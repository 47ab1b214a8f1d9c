-- ===== src/Main.antt =====
-- src/main.cpp: the arguments of the program, and what it makes of the server.
pub mod Port
mod Tests
use spx.Prelude.{ℕ, Bool, ◌||◌, List, [], ◌∷◌, Option, none, some, Str, if◌then◌else◌, ltb}
use spx.Prelude.Int.{ℤ, pos, negsuc, Stoi, stoi}
use spx.Outcome.{
  M, Outcome, Fault, returns, throws, fault, invalid_argument, out_of_range, pure, throw, ◌>>=◌,
  within,
}
use spx.Net.Sys.{Sys, Host, syscall}
use spx.Http.Parser.{Parser}
use spx.Server.Events

abbrev pub port_min : ℕ
port_min = 1

abbrev pub port_max : ℕ
port_max = 65535

pub record Arguments : Type 0 where
  pub port : ℕ
  pub max_fds : ℕ

unfoldable pub default_arguments : Arguments
default_arguments = record { port = 0; max_fds = 1024 }

module _ {ℓ} {S : Type ℓ} where
  -- `port_unchecked`, in range; the cast to `uint16_t` then keeps it.
  unfoldable pub checked_port : ℤ → M S ℕ
  checked_port (negsuc n) = throw invalid_argument
  checked_port (pos n) = if ltb n port_min || ltb port_max n then throw invalid_argument else pure n

  abbrev pub converted_port : Stoi → M S ℕ
  converted_port (Stoi.value n) = checked_port n
  converted_port Stoi.no_conversion = throw invalid_argument
  converted_port Stoi.out_of_int = throw out_of_range

  -- `argv` with the name of the program first.
  unfoldable pub parse_port : List Str → M S ℕ
  parse_port (name ∷ port ∷ []) = converted_port (stoi port)
  parse_port argv = throw invalid_argument

module _ {W : Type 0} (sys : Sys W) where
  abbrev or_default : Option ℕ → ℕ → ℕ
  or_default none d = d
  or_default (some n) d = n

  unfoldable pub parse : List Str → Arguments → M (Host W) Arguments
  parse argv args = do
    port ← parse_port argv
    limit ← syscall sys.open_files_limit
    pure (record { port = port; max_fds = or_default limit args.max_fds })

-- How the process ends: by `return`, or by `std::terminate` after an exception that nothing catches.
pub data Status : Type 0 where
  exit_success exit_failure terminated : Status

-- The end of the process, with the host as the process leaves it.
pub data Exit (W : Type 0) : Type 0 where
  ended : Status → Host W → Exit W
  broken : Fault → Exit W

module _ (lib : Parser) {W : Type 0} (sys : Sys W) where
  -- `spx::Server Server(args.port, args.max_fds); Server.start();`, in the rounds of `start`. The
  -- server holds the host from its construction on.
  unfoldable pub serve : List Bool → Arguments → M (Host W) (Unit {0})
  serve rounds args = do
    server ← Events.create {lib = lib} sys args.port args.max_fds
    λ h. within (λ t. t.clients.host) (Events.start sys rounds server)

  -- The second `try`: `spx::Exception` and then `std::exception`, which all exceptions are.
  abbrev served : Outcome (Host W) (Unit {0}) → Exit W
  served (returns u h) = ended exit_success h
  served (throws e h) = ended exit_failure h
  served (fault x) = broken x

  -- The first `try`, which catches `std::invalid_argument` alone.
  abbrev parsed : List Bool → Outcome (Host W) Arguments → Exit W
  parsed rounds (returns args h) = served (serve rounds args h)
  parsed rounds (throws invalid_argument h) = ended exit_failure h
  parsed rounds (throws e h) = ended terminated h
  parsed rounds (fault x) = broken x

  unfoldable pub main : List Str → List Bool → Host W → Exit W
  main argv rounds h = parsed rounds (parse sys argv default_arguments h)
