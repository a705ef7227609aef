-- ===== src/Chain/Deserialize.antt =====
-- blockchain/v0.3/blockchain_deserialize.c.
use holbertonschool_blockcha.Prelude.{
  ℕ, ◌-◌, ◌^◌, ltb, ◌==◌, if◌then◌else◌, ◌&&◌, not, Bool, Option, none, some, List, [], ◌++◌,
  get_or, replicate, Run, ret, ub,
}
use holbertonschool_blockcha.Prelude.Bytes.{mem_eq}
use holbertonschool_blockcha.Prelude.Host.{Host, value_of}
use holbertonschool_blockcha.Llist.{Llist}
use holbertonschool_blockcha.Transaction.Types.{TxOut, TxIn, UnspentTxOut, Transaction}
use holbertonschool_blockcha.Block.Types.{Block, BlockInfo, Blockchain, blockchain_data_max}
use holbertonschool_blockcha.Chain.Serialize.{BlockHeader, hblk_magic, hblk_version}
use holbertonschool_blockcha.Chain.Reader.{Reader, ◌>>=◌, pure, undefined, fread, fread_loop}

-- The number of rounds of `for (i = 0; i < n; i++)` with int32_t `n`.
abbrev pub int_rounds : ℕ → ℕ
int_rounds n = if ltb n (2 ^ 31) then n else 0

unfoldable pub check_header : BlockHeader → Bool
unfolding hblk_magic hblk_version
check_header header = mem_eq 4 header.magic hblk_magic && mem_eq 3 header.version hblk_version

unfoldable pub read_tx_in : Reader TxIn
read_tx_in = do
  block_hash ← fread 32
  tx_id ← fread 32
  tx_out_hash ← fread 32
  sig ← fread 72
  len ← fread 1
  pure (record {
    block_hash = block_hash;
    tx_id = tx_id;
    tx_out_hash = tx_out_hash;
    sig = record { sig = sig; len = get_or len 0 0 };
  })

module _ ⦃host : Host⦄ where
  unfoldable pub fread_value : ℕ → Reader ℕ
  fread_value w = do bs ← fread w; pure (value_of bs)

  unfoldable pub read_tx_out : Reader TxOut
  read_tx_out = do
    amount ← fread_value 4
    pubkey ← fread 65
    hash ← fread 32
    pure (record { amount = amount; pubkey = pubkey; hash = hash })

  unfoldable pub read_unspent : Reader UnspentTxOut
  read_unspent = do
    block_hash ← fread 32
    tx_id ← fread 32
    out ← read_tx_out
    pure (record { block_hash = block_hash; tx_id = tx_id; out = out })

  unfoldable pub read_info : Reader BlockInfo
  read_info = do
    index ← fread_value 4
    difficulty ← fread_value 4
    timestamp ← fread_value 8
    nonce ← fread_value 8
    prev_hash ← fread 32
    pure (record {
      index = index;
      difficulty = difficulty;
      timestamp = timestamp;
      nonce = nonce;
      prev_hash = prev_hash;
    })

  unfoldable pub read_header : Reader BlockHeader
  read_header = do
    magic ← fread 4
    version ← fread 3
    endian ← fread 1
    blocks ← fread_value 4
    unspent ← fread_value 4
    pure (record {
      magic = magic;
      version = version;
      endian = get_or endian 0 0;
      blocks = blocks;
      unspent = unspent;
    })

module _ ⦃host : Host⦄ ⦃ll : Llist⦄ where
  -- One round of the loop over the transactions.
  unfoldable pub read_transaction : Reader Transaction
  read_transaction = do
    id ← fread 32
    tx_in ← fread_value 4
    tx_out ← fread_value 4
    inputs ← fread_loop read_tx_in ll.add_rear (int_rounds tx_in) []
    outputs ← fread_loop read_tx_out ll.add_rear (int_rounds tx_out) []
    pure (record { id = id; inputs = inputs; outputs = outputs })

  unfoldable pub fread_transactions : Reader (Option (List Transaction))
  fread_transactions = do
    tx_size ← fread_value 4
    if tx_size == 2 ^ 32 - 1 then pure none else do
      transactions ← fread_loop read_transaction ll.add_rear (int_rounds tx_size) []
      pure (some transactions)

  -- A length past the buffer makes `fread` write outside it.
  unfoldable pub read_block : Reader Block
  read_block = do
    info ← read_info
    len ← fread_value 4
    if ltb blockchain_data_max len then undefined else do
      buffer ← fread len
      hash ← fread 32
      transactions ← fread_transactions
      pure (record {
        info = info;
        contents = record { buffer = buffer ++ replicate (blockchain_data_max - len) 0; len = len };
        transactions = transactions;
        hash = hash;
      })

  unfoldable pub read_blockchain : Reader (Option Blockchain)
  read_blockchain = do
    header ← read_header
    if not (check_header header) then pure none else do
      chain ← fread_loop read_block ll.add_rear header.blocks []
      unspent ← fread_loop read_unspent ll.add_rear header.unspent []
      pure (some (record { chain = chain; unspent = unspent }))

  -- `none` for the file is a stream that could not be opened.
  unfoldable pub blockchain_deserialize : Option (List ℕ) → Run (Option Blockchain)
  blockchain_deserialize none = ret none
  blockchain_deserialize (some file) = elim (read_blockchain file) [
    | ub ↦ ub
    | ret (blockchain, rest) ↦ ret blockchain
  ]
