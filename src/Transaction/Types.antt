-- ===== src/Transaction/Types.antt =====
-- The structures of blockchain/v0.3/transaction/transaction.h. An array of bytes is the list of its
-- bytes, a list of pointers is the list of what they point to.
use holbertonschool_blockcha.Prelude.{ℕ, List}
use holbertonschool_blockcha.Crypto.{Sign}

pub record TxOut : Type 0 where
  pub amount : ℕ
  pub pubkey : List ℕ
  pub hash : List ℕ

pub record TxIn : Type 0 where
  pub block_hash : List ℕ
  pub tx_id : List ℕ
  pub tx_out_hash : List ℕ
  pub sig : Sign

pub record UnspentTxOut : Type 0 where
  pub block_hash : List ℕ
  pub tx_id : List ℕ
  pub out : TxOut

pub record Transaction : Type 0 where
  pub id : List ℕ
  pub inputs : List TxIn
  pub outputs : List TxOut
