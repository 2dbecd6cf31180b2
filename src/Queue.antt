-- ===== src/Queue.antt =====
-- HFT/Queue.hpp: the message queues between the threads of the feed handler, and the bounded FIFO
-- that a client of any of them may rely on.
pub mod Fifo
pub mod Ring
pub mod Spsc
pub mod Mpmc
pub mod Locked
mod Tests
