-- ===== src/Chain/Serialize.antt =====
-- blockchain/v0.3/blockchain_serialize.c. A file is the bytes that were written to it, in order;
-- `write` is taken to write all that it is given.
use holbertonschool_blockcha.Prelude.{
  ℕ, ◌-◌, ◌^◌, ltb, ◌==◌, if◌then◌else◌, Bool, true, false, Option, none, some, List, [], ◌∷◌, ◌++◌,
  take, Run, ret, ub, ◌>>=◌,
}
use holbertonschool_blockcha.Prelude.Host.{Host, bytes_of, get_endianness}
use holbertonschool_blockcha.Llist.{Llist}
use holbertonschool_blockcha.Llist.Walk.{nodes_at}
use holbertonschool_blockcha.Transaction.Types.{TxOut, TxIn, UnspentTxOut, Transaction}
use holbertonschool_blockcha.Block.Types.{Block, Blockchain, info_bytes, blockchain_data_max}

-- HBLK_MAGIC and HBLK_VERSION
unfoldable pub hblk_magic : List ℕ
hblk_magic = b'H' ∷ b'B' ∷ b'L' ∷ b'K' ∷ []

unfoldable pub hblk_version : List ℕ
hblk_version = b'0' ∷ b'.' ∷ b'3' ∷ []

-- struct block_header_s
pub record BlockHeader : Type 0 where
  pub magic : List ℕ
  pub version : List ℕ
  pub endian : ℕ
  pub blocks : ℕ
  pub unspent : ℕ

-- The 169 bytes of a `tx_in_t`.
unfoldable pub tx_in_bytes : TxIn → List ℕ
tx_in_bytes tx_in =
    tx_in.block_hash
    ++ (tx_in.tx_id ++ (tx_in.tx_out_hash ++ (tx_in.sig.sig ++ tx_in.sig.len ∷ [])))

module _ ⦃host : Host⦄ where
  -- The first 101 bytes of a `tx_out_t`.
  unfoldable pub tx_out_bytes : TxOut → List ℕ
  tx_out_bytes out = bytes_of 4 out.amount ++ (out.pubkey ++ out.hash)

  -- The first 165 bytes of an `unspent_tx_out_t`.
  unfoldable pub unspent_bytes : UnspentTxOut → List ℕ
  unspent_bytes utxo = utxo.block_hash ++ (utxo.tx_id ++ tx_out_bytes utxo.out)

  unfoldable pub init_block_header : BlockHeader
  unfolding hblk_magic hblk_version
  init_block_header = record {
    magic = hblk_magic;
    version = hblk_version;
    endian = get_endianness;
    blocks = 0;
    unspent = 0;
  }

  -- A `block_header_t`: 16 bytes, with no padding.
  unfoldable pub header_bytes : BlockHeader → List ℕ
  header_bytes header =
      header.magic
      ++ (header.version
          ++ (header.endian ∷ [] ++ (bytes_of 4 header.blocks ++ bytes_of 4 header.unspent)))

-- What a loop of writes leaves in the file.
unfoldable pub write_all : {A : Type 0} → (A → List ℕ) → List A → List ℕ
write_all write [] = []
write_all write (x ∷ xs) = write x ++ write_all write xs

module _ ⦃host : Host⦄ ⦃ll : Llist⦄ where
  -- One round of the loop of `write_transactions`.
  unfoldable pub transaction_bytes : Transaction → List ℕ
  transaction_bytes transaction =
      transaction.id
      ++ (bytes_of 4 (ll.size transaction.inputs)
          ++ (bytes_of 4 (ll.size transaction.outputs)
              ++ (write_all tx_in_bytes (nodes_at transaction.inputs)
                  ++ write_all tx_out_bytes (nodes_at transaction.outputs))))

  unfoldable pub write_transactions : Option (List Transaction) → List ℕ
  write_transactions none = []
  write_transactions (some transactions) = write_all transaction_bytes (nodes_at transactions)

  -- An int of -1 for the genesis block, and for a list that is NULL.
  unfoldable pub tx_size : Block → ℕ
  tx_size block =
      if block.info.index == 0
      then 2 ^ 32 - 1
      else elim block.transactions [ none ↦ 2 ^ 32 - 1 | some transactions ↦ ll.size transactions ]

  unfoldable pub block_bytes : Block → Run (List ℕ)
  block_bytes block =
      if ltb blockchain_data_max block.contents.len
      then ub
      else ret (
          info_bytes block.info
          ++ (bytes_of 4 block.contents.len
              ++ (take block.contents.len block.contents.buffer
                  ++ (block.hash
                      ++ (bytes_of 4 (tx_size block) ++ write_transactions block.transactions)))))

  unfoldable pub write_blocks : List Block → Run (List ℕ)
  write_blocks [] = ret []
  write_blocks (block ∷ rest) = do
    written ← block_bytes block
    more ← write_blocks rest
    ret (written ++ more)

  -- `none` is -1: `opened` says whether `open` gave a descriptor.
  unfoldable pub blockchain_serialize : Bool → Option Blockchain → Run (Option (List ℕ))
  blockchain_serialize false blockchain = ret none
  blockchain_serialize true none = ret none
  blockchain_serialize true (some blockchain) = do
    let header = record init_block_header {
      blocks = ll.size blockchain.chain;
      unspent = ll.size blockchain.unspent;
    }
    blocks ← write_blocks (nodes_at blockchain.chain)
    ret (
        some (
          header_bytes header ++ (blocks ++ write_all unspent_bytes (nodes_at blockchain.unspent))))
