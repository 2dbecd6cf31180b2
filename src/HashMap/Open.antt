-- ===== src/HashMap/Open.antt =====
-- HFT/HashMap.hpp, class OpenAddressingHashMap. The comparison of `size_ + 1` with `table_.size()`
-- times the `float` maxLoadFactor_ is a parameter, in the record Load.
pub mod Defs
pub mod Laws
pub mod Rehash
pub mod Ready
pub mod Inserts
mod Tests
