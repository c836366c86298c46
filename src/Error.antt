-- ===== src/Error.antt =====
-- src/lib.rs: the crate's errors and its `Result`.
use gatefs.Text.{Bytes}
use gatefs.Base.{ℕ}

-- An I/O error shows its raw number; one of serde_json shows its text.
pub data Error : Type 0 where
  message : Bytes → Error
  io : ℕ → Error
  serde : Bytes → Error

pub data Result {ℓ} (A : Type ℓ) : Type ℓ where
  err : Error → Result A
  ok : A → Result A

-- The `?` of Rust: an error ends the block.
infixl 5 ◌>>=◌
abbrev pub ◌>>=◌ {ℓ κ} : {A : Type ℓ} {B : Type κ} → Result A → (A → Result B) → Result B
err failure >>= next = err failure
ok value >>= next = next value
