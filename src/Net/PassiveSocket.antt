-- ===== src/Net/PassiveSocket.antt =====
-- src/net/passive_socket.cpp and src/net/passive_socket.h: the listening socket.
use spx.Prelude.{ℕ, Bool, List, [], ◌∷◌, none, some, if◌then◌else◌}
use spx.Outcome.{M, exception, null_reference, pure, throw, fail, ◌>>=◌, ◌>>◌}
use spx.Prelude.Decimal.{to_string}
use spx.Net.Sys.{Sys, Host, Addrinfo, invalid_socket_fd, syscall}
use spx.Net.TcpSocket
use spx.Net.TcpSocket.{TcpSocket, same_fd}
use spx.Net.ActiveSocket
use spx.Net.ActiveSocket.{ActiveSocket}

pub record PassiveSocket : Type 0 where
  pub socket : TcpSocket
  pub port : ℕ

-- `PF_INET` and `SOCK_STREAM` of <sys/socket.h>.
abbrev pub pf_inet : ℕ
pf_inet = 2

abbrev pub sock_stream : ℕ
sock_stream = 1

module _ {W : Type 0} (sys : Sys W) where
  -- A check of a system call's result. A constructor that throws destroys its base `TcpSocket`.
  abbrev require : TcpSocket → Bool → M (Host W) (Unit {0})
  require s ok = if ok then pure tt else (TcpSocket.destroy sys s >> throw exception)

  abbrev first : List Addrinfo → M (Host W) Addrinfo
  first [] = fail null_reference
  first (a ∷ rest) = pure a

  unfoldable pub create : ℕ → M (Host W) PassiveSocket
  create port = do
    s ← TcpSocket.create sys pf_inet sock_stream 0
    addr_set ← syscall (sys.set_reuse_addr s.fd)
    require s addr_set
    port_set ← syscall (sys.set_reuse_port s.fd)
    require s port_set
    res ← syscall (sys.getaddrinfo none (to_string port))
    elim res [
      | none ↦ (TcpSocket.destroy sys s >> throw exception)
      | some infos ↦ (do
        info ← first infos
        bound ← syscall (sys.bind s.fd info.ai_addr)
        require s bound
        pure (record { socket = s; port = port }))
    ]

  unfoldable pub listen : PassiveSocket → ℕ → M (Host W) (Unit {0})
  listen s backlog = do
    ok ← syscall (sys.listen s.socket.fd backlog)
    if ok then pure tt else throw exception

  unfoldable pub accept : PassiveSocket → M (Host W) ActiveSocket
  accept s = do
    conn_fd ← syscall (sys.accept s.socket.fd)
    if same_fd conn_fd invalid_socket_fd then throw exception else ActiveSocket.create conn_fd
