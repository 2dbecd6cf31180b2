-- ===== src/Feed.antt =====
-- HFT/TickerServer and HFT/ITCHMessages.hpp: the ticker server, which replays trades, and the
-- receiver, which puts what arrives in sequence.
pub mod Message
pub mod Store
pub mod Sequencer
