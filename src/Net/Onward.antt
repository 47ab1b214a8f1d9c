-- ===== src/Net/Onward.antt =====
-- The allocator of src/net goes on: no call gives a number back.
use spx.Prelude.{ℕ, suc, ◌≤◌, List, [], ◌∷◌, Str, arith}
use spx.Outcome.Kept.{Kept, kept_returns, kept_throws, kept_rules, Kept-option}
use spx.Net.Sys.{Sys, Host, Addrinfo, Pollfd, syscall}
use spx.Net.TcpSocket
use spx.Net.TcpSocket.{TcpSocket}
use spx.Net.ActiveSocket
use spx.Net.ActiveSocket.{ActiveSocket}
use spx.Net.PassiveSocket

module _ {W : Type 0} where
  -- The next number is at least `n`.
  abbrev pub From : ℕ → Host W → Type 0
  From n h = n ≤ h.next_id

module _ {W : Type 0} (sys : Sys W) (n : ℕ) where
  close-Onward : (s : TcpSocket) (h : Host W) → From n h → Kept (From n) (TcpSocket.close sys s h)
  unfolding TcpSocket.close
  close-Onward s h k = search kept_rules

  destroy_socket-Onward :
      (s : TcpSocket) (h : Host W) → From n h → Kept (From n) (TcpSocket.destroy sys s h)
  unfolding TcpSocket.destroy
  destroy_socket-Onward s h k = search (kept_rules, close-Onward)

  pub destroy-Onward :
      (s : ActiveSocket) (h : Host W) → From n h → Kept (From n) (ActiveSocket.destroy sys s h)
  unfolding ActiveSocket.destroy
  destroy-Onward s h k = destroy_socket-Onward s.socket h k

  pub send-Onward :
      (s : ActiveSocket) (bytes : List ℕ) (h : Host W)
      → From n h
      → Kept (From n) (ActiveSocket.send sys s bytes h)
  unfolding ActiveSocket.send
  send-Onward s bytes h k =
      Kept-option (sys.send s.fd bytes h.world).0 _ _ _ (kept_throws k) (λ m. kept_returns k)

  received-Onward :
      (bytes : List ℕ) (h : Host W) → From n h → Kept (From n) (ActiveSocket.received sys bytes h)
  unfolding ActiveSocket.received
  received-Onward [] h k = kept_throws k
  received-Onward (b ∷ bytes) h k = kept_returns k

  pub receive-Onward :
      (s : ActiveSocket) (len : ℕ) (h : Host W)
      → From n h
      → Kept (From n) (ActiveSocket.receive sys s len h)
  unfolding ActiveSocket.receive
  receive-Onward s len h k =
      Kept-option (sys.recv s.fd len h.world).0 _ _ _ (kept_throws k) (λ m. received-Onward m _ k)

  pub shutdown_write-Onward :
      (s : ActiveSocket) (h : Host W)
      → From n h
      → Kept (From n) (ActiveSocket.shutdown_write sys s h)
  unfolding ActiveSocket.shutdown_write
  shutdown_write-Onward s h k = search kept_rules

  pub connect-Onward :
      (s : ActiveSocket) (addr : Str) (h : Host W)
      → From n h
      → Kept (From n) (ActiveSocket.connect sys s addr h)
  unfolding ActiveSocket.connect
  connect-Onward s addr h k = search kept_rules

  create_socket-Onward :
      (info : Addrinfo) (h : Host W) → From n h → Kept (From n) (TcpSocket.create_for sys info h)
  unfolding TcpSocket.create_for TcpSocket.create
  create_socket-Onward info h k = search kept_rules

  le_suc : (m : ℕ) → n ≤ m → n ≤ suc m
  le_suc m k = omega arith

  pub create_for-Onward :
      (info : Addrinfo) (h : Host W) → From n h → Kept (From n) (ActiveSocket.create_for sys info h)
  unfolding ActiveSocket.create_for
  create_for-Onward info h k = search (kept_rules, create_socket-Onward, le_suc)

  pub accept-Onward :
      (s : PassiveSocket.PassiveSocket) (h : Host W)
      → From n h
      → Kept (From n) (PassiveSocket.accept sys s h)
  unfolding PassiveSocket.accept ActiveSocket.create
  accept-Onward s h k = search (kept_rules, le_suc)

  pub listen-Onward :
      (s : PassiveSocket.PassiveSocket) (len : ℕ) (h : Host W)
      → From n h
      → Kept (From n) (PassiveSocket.listen sys s len h)
  unfolding PassiveSocket.listen
  listen-Onward s len h k = search kept_rules

  pub poll-Onward :
      (pfds : List Pollfd) (timeout : ℕ) (h : Host W)
      → From n h
      → Kept (From n) (syscall (sys.poll pfds timeout) h)
  poll-Onward pfds timeout h k = kept_returns k
