-- ===== src/Ethereum/Log.antt =====
-- The records that the parts of the program hand to one another.
use event_pool.Prelude.{ℕ, List}
use event_pool.Text.{Text}

-- `Log` of pkg/ethereum/utils.go: the fields that the program reads, hashes in hexadecimal.
pub record Log : Type 0 where
  pub block_number : ℕ
  pub tx_hash : Text
  pub block_hash : Text
  pub index : ℕ
  pub topics : List Text
  pub payload : Text

-- A row of the table Contract, `prisma/schema.prisma`.
pub record Contract : Type 0 where
  pub id : Text
  pub chain_id : ℕ
  pub event_name : Text
  pub address : Text
  pub event_signature : Text
  pub start_block : ℕ
  pub event_abi : Text
