-- ===== src/Stream.antt =====
-- Sources/macMiniDump/Includes/MMD/IRandomAccessBinaryOStream.hpp: the interface of the output,
-- over a state `S` of the stream. `none` is a null pointer; a Boolean is the result of the call.
use mac_mini_dump.Prelude.{ℕ, Bool, List, Option}

pub record OStream (S : Type 0) : Type 0 where
  pub write : Option (List ℕ) → ℕ → S → S × Bool
  pub flush : S → S × Bool
  pub get_position : S → S × ℕ
  pub set_position : ℕ → S → S
  pub get_size : S → S × ℕ
  pub set_size : ℕ → S → S × Bool
