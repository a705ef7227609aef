-- ===== src/Shape.antt =====
-- The sizes of what version 0.3 keeps in memory: the lengths of the arrays and the widths of the
-- numbers, whatever the number of nodes in a list.
pub mod Parts
pub mod Coinbase
pub mod Signing
pub mod Payment
pub mod Update
pub mod Mined
pub mod Fresh
pub mod Filled
pub mod Extended
pub mod Commands
pub mod Reached
pub mod Saved
pub mod Sessions
use holbertonschool_blockcha.Prelude.{ℕ, ◌≤◌, ◌≡◌, ◌≢◌, Option, none, some, List, All, length}
use holbertonschool_blockcha.Transaction.Types.{TxIn, Transaction}
use holbertonschool_blockcha.Block.Types.{Block}
use holbertonschool_blockcha.Chain.WellFormed.{IsTxIn, IsTxOut, IsUnspent, IsInfo, IsContents}
use holbertonschool_blockcha.Crypto.{Openssl}
use holbertonschool_blockcha.Cli.State.{State}

-- An input with its signature, which has at most the 72 bytes of its array.
pub record HasInShape (i : TxIn) : Type 0 where
  pub arrays : IsTxIn i
  pub sig_len : i.sig.len ≤ 72

pub record HasTxShape (t : Transaction) : Type 0 where
  pub id : length t.id ≡ 32
  pub inputs : All HasInShape t.inputs
  pub outputs : All IsTxOut t.outputs

-- A block has a list of transactions exactly if its index is not 0.
abbrev pub HaveShape : ℕ → Option (List Transaction) → Type 0
HaveShape index none = index ≡ 0
HaveShape index (some l) = (index ≢ 0) × All HasTxShape l

pub record HasBlockShape (b : Block) : Type 0 where
  pub info : IsInfo b.info
  pub contents : IsContents b.contents
  pub transactions : HaveShape b.info.index b.transactions
  pub hash : length b.hash ≡ 32

module _ ⦃ssl : Openssl⦄ where
  pub record HasStateShape (s : State) : Type 0 where
    pub chain : All HasBlockShape s.blockchain.chain
    pub unspent : All IsUnspent s.blockchain.unspent
    pub pool : All HasTxShape s.tx_pool
