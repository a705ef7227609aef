-- ===== src/V1/Types.antt =====
-- The structures of blockchain/v0.1/blockchain.h, which version 0.2 shares. The info and the data of
-- a block are those of version 0.3.
use holbertonschool_blockcha.Prelude.{Option, ℕ, List}
use holbertonschool_blockcha.Block.Types.{BlockInfo, BlockData}

pub record Block : Type 0 where
  pub info : BlockInfo
  pub contents : BlockData
  pub hash : List ℕ

-- The list can be NULL: see `blockchain_deserialize`.
pub record Blockchain : Type 0 where
  pub chain : Option (List Block)
