-- ===== src/Main/Port.antt =====
-- The port argument of src/main.cpp.
use spx.Prelude.{
  ℕ, ◌≡◌, ◌≤◌, ◌||◌, Bool-cases, inl, inr, refl, Bool, false, ltb, List, [], ◌∷◌, ap, Str, arith,
}
use spx.Prelude.Int.{ℤ, pos, negsuc, Stoi, stoi}
use spx.Prelude.Decimal.{to_string}
use spx.Prelude.Stoi.{stoi-to_string}
use spx.Outcome.{returns}
use spx.Net.Sys.{Sys, Host}
use spx.Http.Parser.{Parser}
use spx.Main.{Exit, Status, checked_port, parse_port, parse, main, converted_port}

-- A port that the proxy listens on, and the arguments that give it.
pub record Served (argv : List Str) (port : ℕ) : Type 0 where
  pub name : Str
  pub text : Str
  pub argv_eq : argv ≡ name ∷ text ∷ []
  pub value : stoi text ≡ Stoi.value (pos port)
  pub at_least : 1 ≤ port
  pub at_most : port ≤ 65535

module _ {S : Type 0} where
  checked_port-bounds :
      (n : ℤ) (s t : S) (port : ℕ)
      → checked_port n s ≡ returns port t
      → (n ≡ pos port) × (1 ≤ port) × (port ≤ 65535)
  unfolding checked_port
  checked_port-bounds (negsuc n) s t port e = cc
  checked_port-bounds (pos n) s t port e = ground arith

  converted_port-bounds :
      (r : Stoi) (s t : S) (port : ℕ)
      → converted_port r s ≡ returns port t
      → (r ≡ Stoi.value (pos port)) × (1 ≤ port) × (port ≤ 65535)
  converted_port-bounds (Stoi.value n) s t port e =
      let (q, l, m) = checked_port-bounds n s t port e in (ap Stoi.value q, l, m)
  converted_port-bounds Stoi.no_conversion s t port e = cc
  converted_port-bounds Stoi.out_of_int s t port e = cc

  -- If the arguments are accepted, there is one besides the name of the program, and it is the number
  -- that becomes the port, from 1 to 65535.
  pub parse_port-Served :
      (argv : List Str) (s t : S) (port : ℕ) → parse_port argv s ≡ returns port t → Served argv port
  unfolding parse_port
  parse_port-Served [] s t port e = cc
  parse_port-Served (name ∷ []) s t port e = cc
  parse_port-Served (name ∷ text ∷ []) s t port e =
      let (q, l, m) = converted_port-bounds (stoi text) s t port e in
      record { name = name; text = text; argv_eq = refl; value = q; at_least = l; at_most = m }
  parse_port-Served (name ∷ text ∷ more ∷ rest) s t port e = cc

  -- A port from 1 to 65535, written in decimal, is the port that the arguments give.
  pub parse_port-to_string :
      (name : Str) (port : ℕ) (s : S)
      → 1 ≤ port
      → port ≤ 65535
      → parse_port (name ∷ to_string port ∷ []) s ≡ returns port s
  unfolding parse_port checked_port
  parse_port-to_string name port s l m =
      let low : ltb port 1 ≡ false = ground arith in
      let high : ltb 65535 port ≡ false = ground arith in
      rw (parse_port, stoi-to_string port (omega arith), checked_port, low, high) refl

-- The status of a process whose arguments give no port.
abbrev pub rejected_number : Stoi → Status
rejected_number Stoi.out_of_int = Status.terminated
rejected_number (Stoi.value n) = Status.exit_failure
rejected_number Stoi.no_conversion = Status.exit_failure

abbrev pub rejected : List Str → Status
rejected (name ∷ text ∷ []) = rejected_number (stoi text)
rejected argv = Status.exit_failure

module _ (lib : Parser) {W : Type 0} (sys : Sys W) where
  main_number :
      (name text : Str) (rounds : List Bool) (h : Host W) (r : Stoi)
      → stoi text ≡ r
      → ((port : ℕ) → ¬ Served (name ∷ text ∷ []) port)
      → main lib sys (name ∷ text ∷ []) rounds h ≡ Exit.ended (rejected_number r) h
  unfolding main parse parse_port checked_port
  main_number name text rounds h (Stoi.value (pos n)) e none_served =
      elim (Bool-cases (ltb n 1 || ltb 65535 n)) [
        | inl out ↦ rw (main, parse, parse_port, e, checked_port, out) refl
        | inr good ↦
            let low : 1 ≤ n = ground arith in
            let high : n ≤ 65535 = ground arith in
            absurd (
              none_served n (record {
                name = name;
                text = text;
                argv_eq = refl;
                value = e;
                at_least = low;
                at_most = high;
              }))
      ]
  main_number name text rounds h (Stoi.value (negsuc n)) e none_served =
      rw (main, parse, parse_port, e, checked_port) refl
  main_number name text rounds h Stoi.no_conversion e none_served =
      rw (main, parse, parse_port, e) refl
  main_number name text rounds h Stoi.out_of_int e none_served =
      rw (main, parse, parse_port, e) refl

  -- Unless the arguments are, besides the name of the program, a single one that std::stoi reads as a
  -- number from 1 to 65535, the process ends without a system call or a new object: by std::terminate
  -- if the single argument starts with a number too large for an int, and with EXIT_FAILURE in every
  -- other case.
  pub main-rejected :
      (argv : List Str) (rounds : List Bool) (h : Host W)
      → ((port : ℕ) → ¬ Served argv port)
      → main lib sys argv rounds h ≡ Exit.ended (rejected argv) h
  unfolding main parse parse_port
  main-rejected [] rounds h none_served = refl
  main-rejected (name ∷ []) rounds h none_served = refl
  main-rejected (name ∷ text ∷ []) rounds h none_served =
      main_number name text rounds h (stoi text) refl none_served
  main-rejected (name ∷ text ∷ more ∷ rest) rounds h none_served = refl
