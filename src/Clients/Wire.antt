-- ===== src/Clients/Wire.antt =====
-- The bytes that a client's connection carries: what src/clients_list.cpp has sent, and what is left.
use spx.Prelude.{
  ℕ, ◌≡◌, ◌≤◌, sym, ap, ◌∙◌, ◌==◌, ltb, length, take, drop, true, List, [], ◌∷◌, ◌++◌, some,
  Bool-cases, Option-cases, inl, inr, arith,
}
use spx.Prelude.{take-drop, take-length}
use mathlib.Core.List.{append_assoc}
use spx.Outcome.{Outcome, returns, throws, fault}
use spx.Net.Sys.{Sys, Fd}
use spx.Net.ActiveSocket
use spx.Http.Parser.{Parser}
use spx.Clients.Client
use spx.Clients.Client.{Client, Self}

-- What send(2) promises of a log of the bytes that each descriptor has taken: it takes a beginning of
-- the bytes, and says how many.
pub record SendContract {W : Type 0} (sys : Sys W) (sent : W → Fd → List ℕ) : Type 0 where
  pub within :
      (fd : Fd) (bytes : List ℕ) (w : W) (n : ℕ)
      → (sys.send fd bytes w).0 ≡ some n
      → n ≤ length bytes
  pub logged :
      (fd : Fd) (bytes : List ℕ) (w : W) (n : ℕ)
      → (sys.send fd bytes w).0 ≡ some n
      → sent (sys.send fd bytes w).1 fd ≡ sent w fd ++ take n bytes

abbrev pub concat : List (List ℕ) → List ℕ
concat [] = []
concat (c ∷ l) = c ++ concat l

regroup : (a t d c r : List ℕ) → t ++ d ≡ c → (a ++ t) ++ (d ++ r) ≡ a ++ (c ++ r)
regroup a t d c r e =
    append_assoc a t (d ++ r) ∙ ap (λ x. a ++ x) (sym (append_assoc t d r) ∙ ap (λ x. x ++ r) e)

module _ {lib : Parser} {W : Type 0} (sys : Sys W) (sent : W → Fd → List ℕ) where
  -- What the client gets in all: the bytes sent, and the chunks that wait.
  abbrev pub stream : Self lib W → List ℕ
  stream s = sent s.host.world s.client.client_connection.fd ++ concat s.client.chunks

  abbrev pub Streams : List ℕ → Outcome (Self lib W) (Unit {0}) → Type 0
  Streams bytes (returns u t) = stream t ≡ bytes
  Streams bytes (throws e t) = Unit
  Streams bytes (fault x) = ⊥

  -- With a send that keeps to its contract, to send the first of the chunks that wait does not leave
  -- defined behaviour, and if it returns, the bytes sent and those that wait are, in all, as before,
  -- however many bytes were taken.
  pub send_to_client_from_chunks-Streams :
      (s : Self lib W) (chunk : List ℕ) (rest : List (List ℕ))
      → SendContract sys sent
      → s.client.chunks ≡ chunk ∷ rest
      → Streams (stream s) (Client.send_to_client_from_chunks sys s)
  unfolding Client.send_to_client_from_chunks Client.front Client.send_to_client ActiveSocket.send
  send_to_client_from_chunks-Streams s chunk rest k e =
      let fd = s.client.client_connection.fd in
      let w = s.host.world in
      elim (Option-cases (sys.send fd chunk w).0) [
        | inl r ↦ rw (e, Client.send_to_client_from_chunks, r) tt
        | inr (n, r) ↦
            let le = k.within fd chunk w n r in
            let log = k.logged fd chunk w n r in
            elim (Bool-cases (n == length chunk)) [
              | inl q ↦
                  rw (e, Client.send_to_client_from_chunks, r, q)
                    (let full : take n chunk ≡ chunk =
                        ap (λ i. take i chunk) (ground arith) ∙ take-length chunk in
                      ap (λ x. x ++ concat rest) (log ∙ ap (λ x. sent w fd ++ x) full)
                      ∙ append_assoc (sent w fd) chunk (concat rest))
              | inr q ↦
                  let lt : ltb n (length chunk) ≡ true = ground arith in
                  rw (e, Client.send_to_client_from_chunks, r, q, lt)
                    (ap (λ x. x ++ (drop n chunk ++ concat rest)) log
                      ∙ regroup (sent w fd) (take n chunk) (drop n chunk) chunk (concat rest)
                          (take-drop n chunk))
            ]
      ]
