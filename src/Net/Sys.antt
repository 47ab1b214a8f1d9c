-- ===== src/Net/Sys.antt =====
-- What src/net and src/server.cpp call of the operating system, as a parameter: a world `W` that
-- each call reads and changes. A descriptor is `none` where C has -1.
use spx.Prelude.{ℕ, suc, Bool, List, Option, none, Str}
use spx.Outcome.{M, returns}

abbrev pub Fd : Type 0
Fd = Option ℕ

-- `INVALID_SOCKET_FD`.
abbrev pub invalid_socket_fd : Fd
invalid_socket_fd = none

-- The fields of `addrinfo` that the code reads.
pub record Addrinfo : Type 0 where
  pub ai_family : ℕ
  pub ai_socktype : ℕ
  pub ai_protocol : ℕ
  pub ai_addr : Str

-- `pollfd`, with its masks.
pub record Pollfd : Type 0 where
  pub fd : Fd
  pub events : ℕ
  pub revents : ℕ

-- A call that fails returns `none` or `false`.
pub record Sys (W : Type 0) : Type 0 where
  pub socket : ℕ → ℕ → ℕ → W → Fd × W
  pub close : Fd → W → W
  pub send : Fd → List ℕ → W → Option ℕ × W
  pub recv : Fd → ℕ → W → Option (List ℕ) × W
  pub shutdown_write : Fd → W → Bool × W
  pub connect : Fd → Str → W → Bool × W
  pub set_reuse_addr : Fd → W → Bool × W
  pub set_reuse_port : Fd → W → Bool × W
  pub bind : Fd → Str → W → Bool × W
  pub listen : Fd → ℕ → W → Bool × W
  pub accept : Fd → W → Fd × W
  pub getaddrinfo : Option Str → Str → W → Option (List Addrinfo) × W
  pub poll : List Pollfd → ℕ → W → Option (List Pollfd) × W
  -- What the uninitialised array of `readHttpRequest` holds.
  pub stack : W → List ℕ
  pub open_files_limit : W → Option ℕ × W

-- The world and the allocator, which names each new object.
pub record Host (W : Type 0) : Type 0 where
  pub world : W
  pub next_id : ℕ

module _ {W : Type 0} where
  -- A system call.
  abbrev pub syscall {ℓ} : {A : Type ℓ} → (W → A × W) → M (Host W) A
  syscall f h = let r = f h.world in returns r.0 (record h { world = r.1 })

  abbrev pub allocate : M (Host W) ℕ
  allocate h = returns h.next_id (record h { next_id = suc h.next_id })
