-- ===== src/Server/Safety.antt =====
-- The references to clients that src/server.cpp keeps, and the objects that they lead to.
pub mod Slots
pub mod Tame
pub mod Invariant
mod Steps
mod Connecting
mod Listing
mod Leaving
pub mod Discarding
mod Sharing
pub mod Responding
mod Delivering
mod Receiving
mod Handlers
pub mod Rounds
pub mod Polling
pub mod Accepting
pub mod Reach
mod Covers
mod Tests
