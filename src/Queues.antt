-- ===== src/Queues.antt =====
-- The queues between the threads: 4_order_book_proj/src/queues.hpp and queues_impl.hpp.
pub mod Slots
pub mod Spsc
