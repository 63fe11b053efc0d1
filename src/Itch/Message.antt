-- ===== src/Itch/Message.antt =====
-- `DecodedMsg` of model/itch.py. `kind` is one of the six words that its decoders write.
use hft_rtl.Prelude.{ℕ, Text}

pub data Kind : Type 0 where
  add exec cancel delete replace system : Kind

pub record DecodedMsg : Type 0 where
  pub kind : Kind
  pub order_id : ℕ
  pub new_order_id : ℕ
  pub side : Text
  pub shares : ℕ
  pub price : ℕ
  pub symbol : Text
