-- ===== src/Feed/Message.antt =====
-- HFT/ITCHMessages.hpp. `double` is a parameter.
use git_docs_test.Common.{ℕ, Bool}

-- A `char` is its code.
pub record TradeMsg (Double : Type 0) : Type 0 where
  pub message_type : ℕ
  pub sequence_number : ℕ
  pub trade_id : ℕ
  pub timestamp : ℕ
  pub price : Double
  pub quantity : Double
  pub buyer_is_maker : Bool
  pub best_match : Bool

pub record GapRequestMsg : Type 0 where
  pub type : ℕ
  pub start_seq : ℕ
  pub end_seq : ℕ
