-- ===== src/Pool.antt =====
-- HFT/MemoryPool.hpp: the message pools. A message is known by its index in the vector `pool_`.
pub mod Contract
pub mod Owners
pub mod LockFree
pub mod Locked
pub mod Tagged
