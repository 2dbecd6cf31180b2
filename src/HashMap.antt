-- ===== src/HashMap.antt =====
-- HFT/HashMap.hpp and c++20/HashTables.cpp: the key interface of the maps, the contract of
-- `HashMap<HM>` (the concept MyHM), and the implementations.
pub mod Key
pub mod Sample
pub mod Contract
pub mod Chaining
pub mod Fixed
pub mod Table
pub mod Load
pub mod Probe
pub mod Open
pub mod OpenTable
pub mod FixedTable
mod Tests
