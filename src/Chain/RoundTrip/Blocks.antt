-- ===== src/Chain/RoundTrip/Blocks.antt =====
-- Transactions and blocks are read back from their bytes.
use holbertonschool_blockcha.Prelude.{
  ℕ, ◌-◌, ◌^◌, ◌<◌, ◌≡◌, lt→ltb, le→ltb, ◌==◌, ne→==_false, if_same, false, Option, none, some,
  List, [], ◌++◌, append_assoc, append-nil, length, take, length-take, ret, arith,
}
use holbertonschool_blockcha.Prelude.Host.{Host, bytes_of}
use holbertonschool_blockcha.Llist.{Llist}
use holbertonschool_blockcha.Llist.Walk.{nodes_at_lem}
use holbertonschool_blockcha.Transaction.Types.{Transaction}
use holbertonschool_blockcha.Block.Types.{Block, info_bytes}
use holbertonschool_blockcha.Chain.Serialize.{
  tx_in_bytes, tx_out_bytes, write_all, transaction_bytes, write_transactions, tx_size, block_bytes,
}
use holbertonschool_blockcha.Chain.Reader.{Reader, ◌>>=◌, fread_loop, bind-fread}
use holbertonschool_blockcha.Chain.Deserialize.{
  int_rounds, read_tx_in, read_tx_out, read_info, read_transaction, fread_transactions, read_block,
}
use holbertonschool_blockcha.Chain.WellFormed.{
  IsTxIn, IsTxOut, IsTransaction, IsTransactions, IsBlock,
}
use holbertonschool_blockcha.Chain.RoundTrip.Parts.{
  Reads, bind-Reads, bind-fread_value, tx_in-Reads, tx_out-Reads, info-Reads, loop-Reads,
}

int_rounds_lem : (n : ℕ) → n < 2 ^ 31 → int_rounds n ≡ n
int_rounds_lem n h = rw (lt→ltb n (2 ^ 31) h)

not_null : (n : ℕ) → n < 2 ^ 31 → (n == 2 ^ 32 - 1) ≡ false
not_null n h = ground arith

module _ ⦃host : Host⦄ ⦃ll : Llist⦄ where
  pub transaction-Reads :
      (t : Transaction) → IsTransaction t → Reads read_transaction (transaction_bytes t) t
  unfolding read_transaction transaction_bytes
  transaction-Reads t h rest = simp (
    ll.size_eq,
    nodes_at_lem,
    append_assoc,
    bind-fread h.id,
    bind-fread_value 4 (length t.inputs) (omega (arith, h.inputs_fit)),
    bind-fread_value 4 (length t.outputs) (omega (arith, h.outputs_fit)),
    int_rounds_lem (length t.inputs) h.inputs_fit,
    int_rounds_lem (length t.outputs) h.outputs_fit,
    bind-Reads (fread_loop read_tx_in ll.add_rear (length t.inputs) [])
        (write_all tx_in_bytes t.inputs)
        (loop-Reads read_tx_in tx_in_bytes IsTxIn tx_in-Reads t.inputs [] h.inputs),
    bind-Reads (fread_loop read_tx_out ll.add_rear (length t.outputs) [])
        (write_all tx_out_bytes t.outputs)
        (loop-Reads read_tx_out tx_out_bytes IsTxOut tx_out-Reads t.outputs [] h.outputs),
  )

  -- The count that is written before the transactions leads `fread_transactions` to them.
  counted-Reads :
      (index : ℕ) (l : List Transaction)
      → IsTransactions index (some l)
      → Reads fread_transactions (bytes_of 4 (length l) ++ write_all transaction_bytes l) (some l)
  unfolding fread_transactions
  counted-Reads index l (_, fits, all) rest = simp (
    append_assoc,
    bind-fread_value 4 (length l) (omega arith),
    not_null (length l) fits,
    int_rounds_lem (length l) fits,
    bind-Reads (fread_loop read_transaction ll.add_rear (length l) [])
        (write_all transaction_bytes l)
        (loop-Reads read_transaction transaction_bytes IsTransaction transaction-Reads l [] all),
  )

  null-Reads : Reads fread_transactions (bytes_of 4 (2 ^ 32 - 1)) none
  unfolding fread_transactions
  null-Reads rest = simp (bind-fread_value 4 (2 ^ 32 - 1) (omega arith))

  transactions-Reads :
      (b : Block)
      → IsBlock b
      → Reads fread_transactions
          (bytes_of 4 (tx_size b) ++ write_transactions b.transactions)
          b.transactions
  unfolding tx_size write_transactions
  transactions-Reads b h rest = go b.transactions h.transactions
    where
      go :
          (t : Option (List Transaction))
          → IsTransactions b.info.index t
          → fread_transactions (
              (bytes_of 4 (tx_size (record b { transactions = t })) ++ write_transactions t)
              ++ rest)
            ≡ ret (t, rest)
      go none _ = rw (append-nil, if_same) (null-Reads rest)
      go (some l) k =
          rw (ne→==_false _ 0 k.0, ll.size_eq, nodes_at_lem) (counted-Reads b.info.index l k rest)

  bind-transactions :
      (b : Block)
      → IsBlock b
      → {B : Type 0} (f : Option (List Transaction) → Reader B) (rest : List ℕ)
      → (fread_transactions >>= f)
          (bytes_of 4 (tx_size b) ++ (write_transactions b.transactions ++ rest))
        ≡ f b.transactions rest
  bind-transactions b h f rest =
      let split = append_assoc (bytes_of 4 (tx_size b)) (write_transactions b.transactions) rest in
      rw (← split) (bind-Reads fread_transactions _ (transactions-Reads b h) f rest)

  -- What a block of legal length leaves in the file.
  abbrev pub block_record : Block → List ℕ
  block_record b =
      info_bytes b.info
      ++ (bytes_of 4 b.contents.len
          ++ (take b.contents.len b.contents.buffer
              ++ (b.hash ++ (bytes_of 4 (tx_size b) ++ write_transactions b.transactions))))

  pub block_bytes_lem : (b : Block) → IsBlock b → block_bytes b ≡ ret (block_record b)
  unfolding block_bytes
  block_bytes_lem b h = rw (le→ltb 1024 b.contents.len h.contents.len)

  pub block-Reads : (b : Block) → IsBlock b → Reads read_block (block_record b) b
  unfolding read_block
  block-Reads b h rest =
      let copied : length (take b.contents.len b.contents.buffer) ≡ b.contents.len =
        omega (
          arith,
          length-take b.contents.len b.contents.buffer,
          h.contents.len,
          h.contents.length,
        ) in
      simp (
        append_assoc,
        bind-Reads read_info (info_bytes b.info) (info-Reads b.info h.info),
        bind-fread_value 4 b.contents.len (omega (arith, h.contents.len)),
        le→ltb 1024 b.contents.len h.contents.len,
        bind-fread copied,
        bind-fread h.hash,
        bind-transactions b h,
        h.contents.padded,
      )
