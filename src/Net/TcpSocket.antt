-- ===== src/Net/TcpSocket.antt =====
-- src/net/tcp_socket.cpp and src/net/tcp_socket.h: a socket owns a descriptor, and closes it when it
-- dies. Output to the log is left out.
use spx.Prelude.{ℕ, Bool, true, false, none, some, if◌then◌else◌, ◌==◌}
use spx.Outcome.{M, exception, pure, throw, ◌>>=◌, returns}
use spx.Net.Sys.{Fd, Sys, Host, Addrinfo, invalid_socket_fd, syscall}

pub record TcpSocket : Type 0 where
  pub fd : Fd

-- `operator==`, on two sockets and on a socket and a descriptor.
abbrev pub same_fd : Fd → Fd → Bool
same_fd none none = true
same_fd none (some b) = false
same_fd (some a) none = false
same_fd (some a) (some b) = a == b

abbrev pub same_socket : TcpSocket → TcpSocket → Bool
same_socket s t = same_fd s.fd t.fd

unfoldable pub is_valid : TcpSocket → Bool
is_valid s = if same_fd s.fd invalid_socket_fd then false else true

-- `swap`, the move constructor (from an empty socket) and the move assignment.
abbrev pub swap : TcpSocket → TcpSocket → TcpSocket × TcpSocket
swap s other = (other, s)

abbrev pub move : TcpSocket → TcpSocket × TcpSocket
move other = swap (record { fd = invalid_socket_fd }) other

module _ {W : Type 0} (sys : Sys W) where
  unfoldable pub create : ℕ → ℕ → ℕ → M (Host W) TcpSocket
  create domain type protocol = do
    fd ← syscall (sys.socket domain type protocol)
    if same_fd fd invalid_socket_fd then throw exception else pure (record { fd = fd })

  unfoldable pub create_for : Addrinfo → M (Host W) TcpSocket
  create_for info = create info.ai_family info.ai_socktype info.ai_protocol

  unfoldable pub close : TcpSocket → M (Host W) TcpSocket
  close s h =
      returns (record { fd = invalid_socket_fd }) (record h { world = sys.close s.fd h.world })

  -- `~TcpSocket`.
  unfoldable pub destroy : TcpSocket → M (Host W) (Unit {0})
  destroy s = if is_valid s then (close s >>= λ _. pure tt) else pure tt
