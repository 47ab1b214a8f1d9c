-- ===== src/Clients/Request.antt =====
-- How the loop of `readHttpRequest` in src/clients_list.cpp ends.
use mathlib.Core.List.{append-nil}
use mathlib.Core.Path.{subst}
use spx.Prelude.{
  ℕ, zero, suc, ◌+◌, ◌≡◌, ◌≤◌, ◌<◌, refl, sym, ◌==◌, Bool, true, false, List, [], ◌∷◌, ◌++◌,
  if◌then◌else◌, none, ltb, length, length-append, take, Option-cases, inl, inr, arith,
}
use spx.Outcome.{
  M, Outcome, returns, throws, fault, and_then, pure, throw, exception, out_of_bounds, ◌>>=◌,
}
use spx.Net.Sys.{Sys, Host}
use spx.Net.ActiveSocket
use spx.Net.ActiveSocket.{ActiveSocket}
use spx.Clients.Array.{filled, take-append, length-strncpy, overwrite-filled}
use spx.Clients.Reading
use spx.Clients.Reading.{
  read_loop, read_http_request, overwrite, strncpy, zeros, strstr_terminator, max_request_size,
  bufsiz,
}

module _ {W : Type 0} (sys : Sys W) (s : ActiveSocket) (start : Host W) where
  -- What the connection has brought since `start`, as `strncpy` copies it, and the host after that.
  pub data Brought : List ℕ → Host W → Type 0 where
    nothing : Brought [] start
    message :
        {text bytes : List ℕ} {h g : Host W}
        → Brought text h
        → ActiveSocket.receive sys s bufsiz h ≡ returns bytes g
        → Brought (text ++ strncpy bytes) g

  -- The call ends. It returns all that the connection has brought, which fits the array; or throws; or
  -- searches beyond the array's end, which then has no NUL and no end of the headers, with what the
  -- connection has brought at its beginning.
  abbrev pub Bounded : Outcome (Host W) (List ℕ) → Type 0
  Bounded (returns text h) = (length text ≤ max_request_size) × Brought text h
  Bounded (throws e h) = Unit
  Bounded (fault x) =
      (x ≡ out_of_bounds)
      × ((text : List ℕ) × (g : Host W) × (length text ≤ max_request_size)
          × Brought text g
          × (strstr_terminator (filled text (sys.stack start.world)) ≡ none))

  abbrev Received : Outcome (Host W) (List ℕ) → Type 0
  Received (returns bytes g) = Unit
  Received (throws e g) = Unit
  Received (fault x) = ⊥

  received-Received : (bytes : List ℕ) (h : Host W) → Received (ActiveSocket.received sys bytes h)
  unfolding ActiveSocket.received
  received-Received [] h = tt
  received-Received (b ∷ bytes) h = tt

  receive-Received : (n : ℕ) (h : Host W) → Received (ActiveSocket.receive sys s n h)
  unfolding ActiveSocket.receive
  receive-Received n h = elim (Option-cases (sys.recv s.fd n h.world).0) [
    | inl e ↦ rw e tt
    | inr (bytes, e) ↦ rw e (received-Received bytes _)
  ]

  and_then-Bounded :
      (m : Outcome (Host W) (List ℕ)) (f : List ℕ → M (Host W) (List ℕ))
      → Received m
      → ((bytes : List ℕ) (g : Host W) → m ≡ returns bytes g → Bounded (f bytes g))
      → Bounded (and_then m f)
  and_then-Bounded (returns bytes g) f r k = k bytes g refl
  and_then-Bounded (throws e g) f r k = tt
  and_then-Bounded (fault x) f r k = absurd r

  if-Bounded :
      (b : Bool) (m n : M (Host W) (List ℕ)) (h : Host W)
      → (b ≡ true → Bounded (m h))
      → (b ≡ false → Bounded (n h))
      → Bounded ((if b then m else n) h)
  if-Bounded true m n h k l = k refl
  if-Bounded false m n h k l = l refl

  -- The rest of a round, once the array is filled with the message.
  search-Bounded :
      (text : List ℕ) (again : M (Host W) (List ℕ)) (g : Host W)
      → length text ≤ max_request_size
      → Brought text g
      → Bounded (again g)
      → Bounded (
          (Reading.search sys s (filled text (sys.stack start.world)) >>= λ found.
          if found then pure (take (length text) (filled text (sys.stack start.world))) else again)
            g)
  unfolding Reading.search
  search-Bounded text again g l b next =
      let array = filled text (sys.stack start.world) in
      elim (Option-cases (strstr_terminator array)) [
        | inl e ↦ rw (Reading.search, e) (refl, (text, g, l, b, e))
        | inr (found, e) ↦
            let all : take (length text) array ≡ text = take-append text _ in
            rw (Reading.search, e)
              (if-Bounded found (pure (take (length text) array)) again g
                (λ q. (
                  subst (λ t. length t ≤ max_request_size) (sym all) l,
                  subst (λ t. Brought t g) (sym all) b,
                ))
                (λ q. next))
      ]

  -- An empty message adds nothing.
  ended :
      (text bytes : List ℕ) {h g : Host W}
      → Brought text h
      → ActiveSocket.receive sys s bufsiz h ≡ returns bytes g
      → (length bytes == 0) ≡ true
      → Brought text g
  unfolding strncpy
  ended text [] {h} {g} b got e = subst (λ t. Brought t g) (append-nil text) (message b got)
  ended text (x ∷ bytes) b got e = absurd (ground arith)

  abbrev round : ℕ → List ℕ → ℕ → M (Host W) (List ℕ)
  round fuel array count = Reading.search sys s array >>= λ found.
      if found then pure (take count array) else read_loop sys s fuel array count

  read_loop-Bounded :
      (fuel : ℕ) (text : List ℕ) (h : Host W)
      → Brought text h
      → length text ≤ max_request_size
      → max_request_size < length text + fuel
      → Bounded (read_loop sys s fuel (filled text (sys.stack start.world)) (length text) h)
  unfolding read_loop
  read_loop-Bounded zero text h b l enough = absurd (omega arith)
  read_loop-Bounded (suc fuel) text h b l enough =
      let array = filled text (sys.stack start.world) in
      and_then-Bounded _ _ (receive-Received bufsiz h) λ bytes g got.
        let size = length bytes in
        let next = overwrite (length text) (strncpy bytes) array in
        let count = length text + size in
        let text' = text ++ strncpy bytes in
        let fill : next ≡ filled text' (sys.stack start.world) =
          overwrite-filled text (strncpy bytes) (sys.stack start.world) in
        let counted : count ≡ length text' =
          omega (arith, length-append text (strncpy bytes), length-strncpy bytes) in
        let all : take (length text) array ≡ text = take-append text _ in
        if-Bounded (size == 0) (pure (take (length text) array)) _ g
          (λ e. (
            subst (λ t. length t ≤ max_request_size) (sym all) l,
            subst (λ t. Brought t g) (sym all) (ended text bytes b got e),
          ))
          λ e.
            if-Bounded (ltb max_request_size count) (throw exception) (round fuel next count) g
              (λ q. tt)
              λ q.
                let fits : length text' ≤ max_request_size = ground (arith, counted) in
                let more : max_request_size < length text' + fuel = ground (arith, counted) in
                subst (λ a. Bounded (round fuel a count g)) (sym fill)
                  (subst (λ n. Bounded (round fuel (filled text' (sys.stack start.world)) n g))
                    (sym counted)
                    (search-Bounded text' _ g fits (message b got)
                      (read_loop-Bounded fuel text' g (message b got) fits more)))

module _ {W : Type 0} (sys : Sys W) (s : ActiveSocket) where
  -- Whatever the connection brings, the loop that reads a request ends: it returns all that the
  -- connection has brought, as strncpy copies it, which fits the array; or throws; or searches beyond
  -- the array's end, and then the array, with what the connection has brought at its beginning, has no
  -- NUL and no end of the headers.
  pub read_http_request-Bounded : (h : Host W) → Bounded sys s h (read_http_request sys s h)
  unfolding read_http_request
  read_http_request-Bounded h =
      read_loop-Bounded sys s h (suc (suc max_request_size)) [] h nothing (omega arith)
        (omega arith)
