-- ===== src/Net/ActiveSocket.antt =====
-- src/net/active_socket.cpp and src/net/active_socket.h: a connection. `id` is the address of the
-- object that a `std::unique_ptr<ActiveSocket>` owns.
use spx.Prelude.{ℕ, zero, suc, List, [], ◌∷◌, none, some, if◌then◌else◌, Str}
use spx.Outcome.{M, exception, zero_length_message, pure, throw, ◌>>=◌}
use spx.Net.Sys.{Fd, Sys, Host, Addrinfo, syscall, allocate}
use spx.Net.TcpSocket
use spx.Net.TcpSocket.{TcpSocket}

pub record ActiveSocket : Type 0 where
  pub id : ℕ
  pub socket : TcpSocket
  pub open socket use *

-- A `std::string` is sent up to its first NUL: `send` takes its length by `char_traits::length`.
unfoldable pub c_str : Str → Str
c_str [] = []
c_str (zero ∷ s) = []
c_str (suc b ∷ s) = suc b ∷ c_str s

module _ {W : Type 0} where
  -- `ActiveSocket::create(int)`.
  unfoldable pub create : Fd → M (Host W) ActiveSocket
  create fd = do id ← allocate; pure (record { id = id; socket = record { fd = fd } })

module _ {W : Type 0} (sys : Sys W) where
  -- `ActiveSocket::create(const addrinfo *)`.
  unfoldable pub create_for : Addrinfo → M (Host W) ActiveSocket
  create_for info = do
    s ← TcpSocket.create_for sys info
    id ← allocate
    pure (record { id = id; socket = s })

  unfoldable pub send : ActiveSocket → List ℕ → M (Host W) ℕ
  send s bytes = do
    res ← syscall (sys.send s.fd bytes)
    elim res [ none ↦ throw exception | some n ↦ pure n ]

  unfoldable pub send_string : ActiveSocket → Str → M (Host W) ℕ
  send_string s text = send s (c_str text)

  -- An empty message means that the peer has closed the connection.
  unfoldable pub received : List ℕ → M (Host W) (List ℕ)
  received [] = throw zero_length_message
  received (b ∷ bytes) = pure (b ∷ bytes)

  unfoldable pub receive : ActiveSocket → ℕ → M (Host W) (List ℕ)
  receive s buffer_len = do
    res ← syscall (sys.recv s.fd buffer_len)
    elim res [ none ↦ throw exception | some bytes ↦ received bytes ]

  unfoldable pub shutdown_write : ActiveSocket → M (Host W) (Unit {0})
  shutdown_write s = do
    ok ← syscall (sys.shutdown_write s.fd)
    if ok then pure tt else throw exception

  unfoldable pub connect : ActiveSocket → Str → M (Host W) (Unit {0})
  connect s addr = do ok ← syscall (sys.connect s.fd addr); if ok then pure tt else throw exception

  unfoldable pub destroy : ActiveSocket → M (Host W) (Unit {0})
  destroy s = TcpSocket.destroy sys s.socket
