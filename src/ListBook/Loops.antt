-- ===== src/ListBook/Loops.antt =====
-- The loops of the two books do the same.
pub mod Market
pub mod Match
