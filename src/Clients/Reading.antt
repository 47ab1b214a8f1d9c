-- ===== src/Clients/Reading.antt =====
-- `readHttpRequest` of src/clients_list.cpp: the text of a request, read into an array on the stack
-- until it shows the end of the headers.
use spx.Prelude.{
  ℕ, zero, suc, ◌+◌, Bool, true, false, List, [], ◌∷◌, ◌++◌, Option, none, some, Str, if◌then◌else◌,
  ltb, ◌==◌, ◌&&◌, length, take, drop,
}
use spx.Outcome.{M, exception, out_of_bounds, out_of_fuel, pure, throw, fail, ◌>>=◌}
use spx.Net.Sys.{Sys, Host}
use spx.Net.ActiveSocket
use spx.Net.ActiveSocket.{ActiveSocket}

abbrev pub max_request_size : ℕ
max_request_size = 16384

-- `BUFSIZ` of <stdio.h>.
abbrev pub bufsiz : ℕ
bufsiz = 8192

abbrev pub zeros : List ℕ → List ℕ
zeros [] = []
zeros (b ∷ l) = 0 ∷ zeros l

-- The bytes that `strncpy` writes for a source of that many bytes: from its first NUL on, zeros.
unfoldable pub strncpy : List ℕ → List ℕ
strncpy [] = []
strncpy (zero ∷ l) = 0 ∷ zeros l
strncpy (suc b ∷ l) = suc b ∷ strncpy l

-- `bytes` written into the array at an offset.
abbrev pub overwrite : ℕ → List ℕ → List ℕ → List ℕ
overwrite offset bytes array = take offset array ++ bytes ++ drop (offset + length bytes) array

-- Does the text begin with "\r\n\r\n"?
unfoldable pub starts_with_terminator : List ℕ → Bool
starts_with_terminator (a ∷ b ∷ c ∷ d ∷ l) = (a == 13) && (b == 10) && (c == 13) && (d == 10)
starts_with_terminator l = false

-- `strstr(array, "\r\n\r\n") != nullptr`: the search ends at a NUL, and `none` says that it ran past
-- the end of the array.
unfoldable pub strstr_terminator : List ℕ → Option Bool
strstr_terminator [] = none
strstr_terminator (zero ∷ l) = some false
strstr_terminator (suc b ∷ l) =
    if starts_with_terminator (suc b ∷ l) then some true else strstr_terminator l

module _ {W : Type 0} (sys : Sys W) (connection : ActiveSocket) where
  unfoldable pub search : List ℕ → M (Host W) Bool
  search array = elim (strstr_terminator array) [
    | none ↦ fail out_of_bounds
    | some found ↦ pure found
  ]

  -- The loop: the array and the bytes written, on fuel.
  unfoldable pub read_loop : ℕ → List ℕ → ℕ → M (Host W) (List ℕ)
  read_loop zero array written = fail out_of_fuel
  read_loop (suc fuel) array written = do
    message ← ActiveSocket.receive sys connection bufsiz
    let size = length message
    let next = overwrite written (strncpy message) array
    let again = read_loop fuel next (written + size)
    if size == 0
        then pure (take written array)
        else if ltb max_request_size (written + size)
        then throw exception
        else (do found ← search next; if found then pure (take (written + size) next) else again)

  -- Each round but the last writes a byte, so the array's size bounds the rounds.
  unfoldable pub read_http_request : M (Host W) Str
  read_http_request h = read_loop (suc (suc max_request_size)) (sys.stack h.world) 0 h
