-- ===== src/Server/Descriptors.antt =====
-- The descriptors that `connectToHost` of src/server.cpp opens and closes.
mod Tests
use spx.Prelude.{
  ℕ, ◌≡◌, refl, ap, ◌∙◌, Bool, true, false, Bool-cases, Option-cases, inl, inr, List, [], ◌∷◌,
  Option, none, some, Str, if◌then◌else◌, arith,
}
use spx.Outcome.{
  M, Outcome, Exn, exception, returns, throws, fault, and_then, or_handle, catch_exception,
  is_exception, pure,
}
use spx.Net.Sys.{Sys, Host, Addrinfo, Fd, syscall}
use spx.Net.TcpSocket
use spx.Net.ActiveSocket
use spx.Net.ActiveSocket.{ActiveSocket}
use spx.Server.Connect
use spx.Server.Connect.{connect_to, connect_to_first, connect_to_host}

-- What socket(2), close(2), connect(2) and getaddrinfo(3) promise of the open descriptors: a new one is
-- open, one that is closed is open no longer, and the other calls open and close none.
pub record OpenContract {W : Type 0} (sys : Sys W) (opened : W → List ℕ) : Type 0 where
  pub opens :
      (domain type protocol n : ℕ) (w : W)
      → (sys.socket domain type protocol w).0 ≡ some n
      → opened (sys.socket domain type protocol w).1 ≡ n ∷ opened w
  pub opens_none :
      (domain type protocol : ℕ) (w : W)
      → (sys.socket domain type protocol w).0 ≡ none
      → opened (sys.socket domain type protocol w).1 ≡ opened w
  pub closes : (n : ℕ) (l : List ℕ) (w : W) → opened w ≡ n ∷ l → opened (sys.close (some n) w) ≡ l
  pub connects : (fd : Fd) (addr : Str) (w : W) → opened (sys.connect fd addr w).1 ≡ opened w
  pub resolves :
      (host : Option Str) (port : Str) (w : W) → opened (sys.getaddrinfo host port w).1 ≡ opened w

module _ {W : Type 0} (opened : W → List ℕ) (l : List ℕ) where
  -- The socket has the one descriptor that is open besides those of `l`.
  abbrev pub Owned : ActiveSocket → Host W → Type 0
  Owned s h = (n : ℕ) × (s.socket.fd ≡ some n) × (opened h.world ≡ n ∷ l)

  -- A call that was made with the descriptors of `l` open ends with those and that of the socket that
  -- it returns.
  abbrev Tried : Outcome (Host W) (Option ActiveSocket) → Type 0
  Tried (returns none h) = opened h.world ≡ l
  Tried (returns (some s) h) = Owned s h
  Tried (throws e h) = (is_exception e ≡ true) × (opened h.world ≡ l)
  Tried (fault x) = ⊥

  abbrev pub Connected : Outcome (Host W) ActiveSocket → Type 0
  Connected (returns s h) = Owned s h
  Connected (throws e h) = opened h.world ≡ l
  Connected (fault x) = ⊥

module _ {W : Type 0} (sys : Sys W) (opened : W → List ℕ) (k : OpenContract sys opened)
    (l : List ℕ) where
  connect_to-Tried :
      (p : Addrinfo) (h : Host W) → opened h.world ≡ l → Tried opened l (connect_to sys p h)
  unfolding connect_to ActiveSocket.create_for TcpSocket.create_for TcpSocket.create
      ActiveSocket.connect ActiveSocket.destroy TcpSocket.destroy TcpSocket.close TcpSocket.is_valid
  connect_to-Tried p h e =
      let r = sys.socket p.ai_family p.ai_socktype p.ai_protocol h.world in
      elim (Option-cases r.0) [
        | inl q ↦ rw q (refl, k.opens_none _ _ _ h.world q ∙ e)
        | inr (n, q) ↦
            let c = sys.connect (some n) p.ai_addr r.1 in
            let held : opened c.1 ≡ n ∷ l =
              k.connects (some n) p.ai_addr r.1 ∙ k.opens _ _ _ n h.world q ∙ ap (λ t. n ∷ t) e in
            elim (Bool-cases c.0) [
              | inl ok ↦ rw (q, ok) (n, refl, held)
              | inr bad ↦ rw (q, bad) (refl, k.closes n l c.1 held)
            ]
      ]

  caught-Tried :
      (o : Outcome (Host W) (Option ActiveSocket))
      → Tried opened l o
      → Tried opened l (or_handle o (catch_exception (pure none)))
  caught-Tried (returns none h) t = t
  caught-Tried (returns (some s) h) t = t
  caught-Tried (throws e h) t = rw t.0 t.1
  caught-Tried (fault x) t = t

  next-Tried :
      (o : Outcome (Host W) (Option ActiveSocket)) (next : M (Host W) (Option ActiveSocket))
      → Tried opened l o
      → ((h : Host W) → opened h.world ≡ l → Tried opened l (next h))
      → Tried opened l (and_then o (λ res. elim res [ none ↦ next | some s ↦ pure (some s) ]))
  next-Tried (returns none h) next t f = f h t
  next-Tried (returns (some s) h) next t f = t
  next-Tried (throws e h) next t f = t
  next-Tried (fault x) next t f = t

  connect_to_first-Tried :
      (infos : List Addrinfo) (h : Host W)
      → opened h.world ≡ l
      → Tried opened l (connect_to_first sys infos h)
  unfolding connect_to_first
  connect_to_first-Tried [] h e = e
  connect_to_first-Tried (p ∷ rest) h e =
      next-Tried _ (connect_to_first sys rest) (caught-Tried _ (connect_to-Tried p h e))
        (connect_to_first-Tried rest)

  require_valid-Connected :
      (o : Outcome (Host W) (Option ActiveSocket))
      → Tried opened l o
      → Connected opened l (and_then o (Connect.require_valid sys))
  unfolding TcpSocket.is_valid
  require_valid-Connected (returns none h) t = t
  require_valid-Connected (returns (some s) h) t = let (n, q, held) = t in rw q (n, refl, held)
  require_valid-Connected (throws e h) t = t.1
  require_valid-Connected (fault x) t = t

  -- With system calls that keep to their contract, to connect to a host leaves open exactly the
  -- descriptors that were open, and, if it returns, that of the connection: the socket of each address
  -- that cannot be connected to is closed again. It leaves defined behaviour in no case.
  pub connect_to_host-Connected :
      (hostname port : Str) (h : Host W)
      → opened h.world ≡ l
      → Connected opened l (connect_to_host sys hostname port h)
  unfolding connect_to_host
  connect_to_host-Connected hostname port h e =
      let r = sys.getaddrinfo (some hostname) port h.world in
      let same : opened r.1 ≡ l = k.resolves (some hostname) port h.world ∙ e in
      elim (Option-cases r.0) [
        | inl q ↦ rw q same
        | inr (infos, q) ↦ rw q (require_valid-Connected _ (connect_to_first-Tried infos _ same))
      ]
