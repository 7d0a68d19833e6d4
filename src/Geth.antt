-- ===== src/Geth.antt =====
-- What the program uses of go-ethereum's hexutil and common packages: a parameter of the model.
use account_indexer.Common.{ℕ, ◌<◌, Bytes, All, Option, none, ◌≡◌}
use account_indexer.Common.Outcome.{Error}

pub record Geth : Type 0 where
  -- hexutil.Decode: the bytes and the error. The program often drops the error.
  pub decode : Bytes → Bytes × Option Error
  -- hexutil.Encode
  pub encode : Bytes → Bytes
  -- common.BytesToHash, and String of the hash
  pub bytes_to_hash : Bytes → Bytes
  -- common.AddressLength and common.HashLength
  pub address_length : ℕ
  pub hash_length : ℕ

-- Documented: Encode writes bytes as hex with a 0x prefix, and Decode reads such a text.
pub record IsHex (g : Geth) : Type 0 where
  pub decode-encode : (b : Bytes) → All (λ x. x < 256) b → g.decode (g.encode b) ≡ (b, none)
  pub decode_bytes : (s : Bytes) → All (λ x. x < 256) (g.decode s).0
