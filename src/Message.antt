-- ===== src/Message.antt =====
-- `OwnedMessage` of src/consumer/message.rs. Bytes are numbers.
use kaf_py.Prelude.{ℕ, ℤ, Option, String, List}

pub data MessageTimestamp : Type 0 where
  create_time log_append_time : ℤ → MessageTimestamp
  not_available : MessageTimestamp

pub record OwnedMessage : Type 0 where
  pub topic : String
  pub partition : ℤ
  pub offset : ℤ
  pub key : Option (List ℕ)
  pub payload : Option (List ℕ)
  pub timestamp : MessageTimestamp
  pub headers : List (String × Option (List ℕ))
