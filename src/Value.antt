-- ===== src/Value.antt =====
-- Values of a generated row and of a strategy's parameters: what JSON and the columns hold.
use data_factory.Base.{ℕ, String, Bool, string_eq}

pub data Value : Type 0 where
  null : Value
  bool : Bool → Value
  int : ℕ → Value
  text : String → Value
  other : String → Value
