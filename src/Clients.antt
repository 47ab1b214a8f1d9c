-- ===== src/Clients.antt =====
-- src/clients_list.cpp and src/clients_list.h: the clients and the table that owns them.
pub mod Reading
pub mod Client
pub mod ClientsList
pub mod Harmless
pub mod Onward
pub mod Numbered
pub mod Wire
mod Array
pub mod Request
pub mod Tests
