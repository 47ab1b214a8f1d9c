-- ===== src/Net.antt =====
-- src/net: the sockets, over the system calls.
pub mod Sys
pub mod TcpSocket
pub mod ActiveSocket
pub mod PassiveSocket
pub mod Harmless
pub mod Onward
