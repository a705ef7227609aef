-- ===== src/Chain/WellFormed.antt =====
-- The chains that a program holds: arrays of their declared sizes, integers of their widths, and
-- data that is zero past its length.
use holbertonschool_blockcha.Prelude.{
  ℕ, ◌-◌, ◌^◌, ◌≤◌, ◌<◌, ◌≡◌, ◌≢◌, Option, none, some, List, ◌++◌, length, take, replicate, All,
}
use holbertonschool_blockcha.Prelude.Bytes.{IsU32, IsU64}
use holbertonschool_blockcha.Transaction.Types.{TxOut, TxIn, UnspentTxOut, Transaction}
use holbertonschool_blockcha.Block.Types.{BlockInfo, BlockData, Block, Blockchain}

pub record IsTxIn (t : TxIn) : Type 0 where
  pub block_hash : length t.block_hash ≡ 32
  pub tx_id : length t.tx_id ≡ 32
  pub tx_out_hash : length t.tx_out_hash ≡ 32
  pub sig : length t.sig.sig ≡ 72

pub record IsTxOut (t : TxOut) : Type 0 where
  pub amount : IsU32 t.amount
  pub pubkey : length t.pubkey ≡ 65
  pub hash : length t.hash ≡ 32

pub record IsUnspent (u : UnspentTxOut) : Type 0 where
  pub block_hash : length u.block_hash ≡ 32
  pub tx_id : length u.tx_id ≡ 32
  pub out : IsTxOut u.out

-- The lists are counted by an int.
pub record IsTransaction (t : Transaction) : Type 0 where
  pub id : length t.id ≡ 32
  pub inputs_fit : length t.inputs < 2 ^ 31
  pub outputs_fit : length t.outputs < 2 ^ 31
  pub inputs : All IsTxIn t.inputs
  pub outputs : All IsTxOut t.outputs

pub record IsInfo (i : BlockInfo) : Type 0 where
  pub index : IsU32 i.index
  pub difficulty : IsU32 i.difficulty
  pub timestamp : IsU64 i.timestamp
  pub nonce : IsU64 i.nonce
  pub prev_hash : length i.prev_hash ≡ 32

pub record IsContents (d : BlockData) : Type 0 where
  pub len : d.len ≤ 1024
  pub length : length d.buffer ≡ 1024
  pub padded : take d.len d.buffer ++ replicate (1024 - d.len) 0 ≡ d.buffer

-- The genesis block has no list.
abbrev pub IsTransactions : ℕ → Option (List Transaction) → Type 0
IsTransactions index none = Unit
IsTransactions index (some l) = (index ≢ 0) × (length l < 2 ^ 31) × All IsTransaction l

pub record IsBlock (b : Block) : Type 0 where
  pub info : IsInfo b.info
  pub contents : IsContents b.contents
  pub transactions : IsTransactions b.info.index b.transactions
  pub hash : length b.hash ≡ 32

pub record IsBlockchain (c : Blockchain) : Type 0 where
  pub chain_fits : IsU32 (length c.chain)
  pub unspent_fits : IsU32 (length c.unspent)
  pub chain : All IsBlock c.chain
  pub unspent : All IsUnspent c.unspent
