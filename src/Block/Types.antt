-- ===== src/Block/Types.antt =====
-- The structures of blockchain/v0.3/blockchain.h.
use holbertonschool_blockcha.Prelude.{ℕ, Option, List, ◌++◌}
use holbertonschool_blockcha.Prelude.Host.{Host, bytes_of}
use holbertonschool_blockcha.Transaction.Types.{UnspentTxOut, Transaction}

abbrev pub blockchain_data_max : ℕ
blockchain_data_max = 1024

pub record BlockData : Type 0 where
  pub buffer : List ℕ
  pub len : ℕ

pub record BlockInfo : Type 0 where
  pub index : ℕ
  pub difficulty : ℕ
  pub timestamp : ℕ
  pub nonce : ℕ
  pub prev_hash : List ℕ

-- `transactions` is NULL in the genesis block.
pub record Block : Type 0 where
  pub info : BlockInfo
  pub contents : BlockData
  pub transactions : Option (List Transaction)
  pub hash : List ℕ

pub record Blockchain : Type 0 where
  pub chain : List Block
  pub unspent : List UnspentTxOut

module _ ⦃host : Host⦄ where
  -- A `block_info_t` used as an array of char: 56 bytes, with no padding.
  unfoldable pub info_bytes : BlockInfo → List ℕ
  info_bytes info =
      bytes_of 4 info.index
      ++ (bytes_of 4 info.difficulty
          ++ (bytes_of 8 info.timestamp ++ (bytes_of 8 info.nonce ++ info.prev_hash)))
