-- ===== src/Mock.antt =====
-- The standalone order books of c++20: MockOrderBook.cpp, which copies the orders into a pool, and
-- MockOrderBook_ZeroCopy.cpp, which keeps the caller's pointers. Their `double` is the record
-- Prices and their `std::unordered_map` a map that fills the contract HashMap, whose `operator[]`
-- and `erase` they call.
pub mod Levels
pub mod Pooled
pub mod ZeroCopy
mod Tests
