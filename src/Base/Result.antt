-- ===== src/Base/Result.antt =====
-- A value with an error: the error's text, or the value.
use storage_bot.Base.Strings.{Text}

pub data Result (A : Type 0) : Type 0 where
  err : Text → Result A
  ok : A → Result A
