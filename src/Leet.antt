-- ===== src/Leet.antt =====
-- Leet: the exercises that have classes of their own.
pub mod Tree
pub mod Addition
