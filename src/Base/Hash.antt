-- ===== src/Base/Hash.antt =====
-- Hashing as the program uses it: the bytes that are fed to the BLAKE3 hasher, one `update` after
-- another, and the hash in hexadecimal. The hash itself and the texts of values are parameters.
use Prim.Native.Nat.{ℕ, zero, suc, ◌/◌, ◌%◌}
use Prim.Native.String.{String}
use mathlib.Core.List.{List, [], ◌∷◌}

pub record Hashing (D : Type 0) : Type 0 where
  -- `Hasher::finalize().to_hex()` after the bytes.
  pub digest : List ℕ → String
  -- `as_bytes` of a text, `to_string` of a JSON value, `to_rfc3339` of a time.
  pub text_bytes : String → List ℕ
  pub data_bytes : D → List ℕ
  pub time_bytes : ℕ → List ℕ

-- `to_le_bytes`, with the number of bytes.
unfoldable pub le_bytes : ℕ → ℕ → List ℕ
le_bytes zero n = []
le_bytes (suc k) n = (n % 256) ∷ le_bytes k (n / 256)
