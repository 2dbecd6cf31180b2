-- ===== src/Study.antt =====
-- Study: the containers and pointers written out there.
pub mod Vector
pub mod SharedPtr
