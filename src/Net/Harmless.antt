-- ===== src/Net/Harmless.antt =====
-- The calls of src/net know of no client.
use spx.Prelude.{
  ℕ, Bool, true, false, List, [], ◌∷◌, Str, inl, inr, Option-cases, Bool-cases, arith,
  if◌then◌else◌,
}
use spx.Outcome.{exception, pure, throw, ◌>>=◌}
use spx.Outcome.Ends.{Ends, returned, if-Ends, Harmless, and_then-Harmless, if-Harmless}
use spx.Net.Sys.{Addrinfo, Sys, Host, invalid_socket_fd}
use spx.Net.TcpSocket
use spx.Net.TcpSocket.{TcpSocket, same_fd}
use spx.Net.ActiveSocket
use spx.Net.ActiveSocket.{ActiveSocket}

module _ {W : Type 0} (sys : Sys W) where
  close-Harmless : (s : TcpSocket) (h : Host W) → Harmless (TcpSocket.close sys s h)
  unfolding TcpSocket.close
  close-Harmless s h = tt

  pub destroy-Harmless : (s : ActiveSocket) (h : Host W) → Harmless (ActiveSocket.destroy sys s h)
  unfolding ActiveSocket.destroy TcpSocket.destroy
  destroy-Harmless s h =
      if-Harmless (TcpSocket.is_valid s.socket) (TcpSocket.close sys s.socket >>= λ _. pure tt)
        (pure tt) h (and_then-Harmless _ _ (close-Harmless s.socket h) (λ u d. tt)) tt

  -- A destructor throws nothing.
  pub destroy-Ends :
      (s : ActiveSocket) (h : Host W)
      → Ends (λ u t. Unit {0}) (λ t. ⊥) (ActiveSocket.destroy sys s h)
  unfolding ActiveSocket.destroy TcpSocket.destroy TcpSocket.close
  destroy-Ends s h =
      if-Ends (TcpSocket.is_valid s.socket) (TcpSocket.close sys s.socket >>= λ _. pure tt)
        (pure tt) h (λ e. returned tt) (λ e. returned tt)

  pub send-Harmless :
      (s : ActiveSocket) (bytes : List ℕ) (h : Host W) → Harmless (ActiveSocket.send sys s bytes h)
  unfolding ActiveSocket.send
  send-Harmless s bytes h = ground arith

  pub send_string-Harmless :
      (s : ActiveSocket) (text : Str) (h : Host W)
      → Harmless (ActiveSocket.send_string sys s text h)
  unfolding ActiveSocket.send_string
  send_string-Harmless s text h = send-Harmless s (ActiveSocket.c_str text) h

  received-Harmless : (bytes : List ℕ) (h : Host W) → Harmless (ActiveSocket.received sys bytes h)
  unfolding ActiveSocket.received
  received-Harmless [] h = tt
  received-Harmless (b ∷ bytes) h = tt

  pub receive-Harmless :
      (s : ActiveSocket) (n : ℕ) (h : Host W) → Harmless (ActiveSocket.receive sys s n h)
  unfolding ActiveSocket.receive
  receive-Harmless s n h = elim (Option-cases (sys.recv s.fd n h.world).0) [
    | inl e ↦ rw e tt
    | inr (bytes, e) ↦ rw e (received-Harmless bytes _)
  ]

  -- The branch on a flag that a system call returns.
  flag-Harmless : (ok : Bool) (h : Host W) → Harmless ((if ok then pure tt else throw exception) h)
  flag-Harmless true h = tt
  flag-Harmless false h = tt

  pub shutdown_write-Harmless :
      (s : ActiveSocket) (h : Host W) → Harmless (ActiveSocket.shutdown_write sys s h)
  unfolding ActiveSocket.shutdown_write
  shutdown_write-Harmless s h = flag-Harmless _ _

  pub connect-Harmless :
      (s : ActiveSocket) (a : Str) (h : Host W) → Harmless (ActiveSocket.connect sys s a h)
  unfolding ActiveSocket.connect
  connect-Harmless s a h = flag-Harmless _ _

  open-Harmless : (d t p : ℕ) (h : Host W) → Harmless (TcpSocket.create sys d t p h)
  unfolding TcpSocket.create
  open-Harmless d t p h =
      elim (Bool-cases (same_fd (sys.socket d t p h.world).0 invalid_socket_fd)) [
        | inl bad ↦ rw bad tt
        | inr good ↦ rw good tt
      ]

  open_for-Harmless : (p : Addrinfo) (h : Host W) → Harmless (TcpSocket.create_for sys p h)
  unfolding TcpSocket.create_for
  open_for-Harmless p h = open-Harmless p.ai_family p.ai_socktype p.ai_protocol h

  pub create_for-Harmless : (p : Addrinfo) (h : Host W) → Harmless (ActiveSocket.create_for sys p h)
  unfolding ActiveSocket.create_for
  create_for-Harmless p h = and_then-Harmless _ _ (open_for-Harmless p h) λ s d. tt
