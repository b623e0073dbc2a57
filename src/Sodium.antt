-- ===== src/Sodium.antt =====
-- The calls of libsodium that the program makes.
use tox_suite.Base.{ℕ, List}

pub record Sodium : Type 0 where
  -- sodium_bin2hex, without the terminator.
  pub bin2hex : List ℕ → List ℕ
  -- sodium_hex2bin of TOX_PUBLIC_KEY_SIZE bytes.
  pub hex2bin : List ℕ → List ℕ
  -- sodium_memcmp of so many bytes: 0 for equal ones.
  pub memcmp : List ℕ → List ℕ → ℕ → ℕ
