-- ===== src/Engine.antt =====
-- `Engine` of 4_order_book_proj/src/engine.hpp: its state, its messages and its operations.
pub mod State
pub mod OrderList
pub mod Memory
pub mod Send
pub mod Match
pub mod Cancel
pub mod Sides
pub mod Listed
pub mod Fills
pub mod Invariant
pub mod Process
mod Tests
