-- ===== src/Block/Print.antt =====
-- blockchain/v0.3/provided/_blockchain_print.c. Its functions are called with two tabs as indent, which
-- fit the array of 10 bytes with the two that are put behind them. No node of a list is NULL.
use holbertonschool_blockcha.Prelude.{ℕ, Option, none, some, List, [], ◌∷◌, ◌++◌, Run, ret, ◌>>=◌}
use holbertonschool_blockcha.Prelude.Text.{
  codes, Piece, chars, unsigned, say, c_string, print_hex_buffer, put,
}
use holbertonschool_blockcha.Llist.{Llist}
use holbertonschool_blockcha.Transaction.Types.{Transaction}
use holbertonschool_blockcha.Transaction.Print.{
  transaction_print_loop, transaction_print_brief_loop,
}
use holbertonschool_blockcha.Block.Types.{BlockInfo, BlockData, Block, Blockchain}

-- The info and the data of a block, which the printers of all versions print alike.
unfoldable pub info_lines : List ℕ → BlockInfo → Run (List Piece)
info_lines indent info = print_hex_buffer 32 info.prev_hash >>= λ prev_hash. ret (
    chars indent
    ∷ say "Block: {\n"
    ∷ chars indent
    ∷ say "\tinfo: {\n"
    ∷ chars indent
    ∷ say "\t\tindex: "
    ∷ unsigned info.index
    ∷ say ",\n"
    ∷ chars indent
    ∷ say "\t\tdifficulty: "
    ∷ unsigned info.difficulty
    ∷ say ",\n"
    ∷ chars indent
    ∷ say "\t\ttimestamp: "
    ∷ unsigned info.timestamp
    ∷ say ",\n"
    ∷ chars indent
    ∷ say "\t\tnonce: "
    ∷ unsigned info.nonce
    ∷ say ",\n"
    ∷ chars indent
    ∷ say "\t\tprev_hash: "
    ∷ chars prev_hash
    ∷ say "\n"
    ∷ chars indent
    ∷ say "\t},\n"
    ∷ [])

-- The buffer is printed up to its first NUL; a full one has none.
unfoldable pub data_lines : List ℕ → BlockData → Run (List Piece)
data_lines indent contents = c_string contents.buffer >>= λ buffer. ret (
    chars indent
    ∷ say "\tdata: {\n"
    ∷ chars indent
    ∷ say "\t\tbuffer: \""
    ∷ chars buffer
    ∷ say "\",\n"
    ∷ chars indent
    ∷ say "\t\tlen: "
    ∷ unsigned contents.len
    ∷ say "\n"
    ∷ chars indent
    ∷ say "\t},\n"
    ∷ [])

unfoldable pub info_brief : List ℕ → BlockInfo → Run (List Piece)
info_brief indent info = print_hex_buffer 32 info.prev_hash >>= λ prev_hash. ret (
    chars indent
    ∷ say "Block: {\n"
    ∷ chars indent
    ∷ say "\tinfo: { "
    ∷ unsigned info.index
    ∷ say ", "
    ∷ unsigned info.difficulty
    ∷ say ", "
    ∷ unsigned info.timestamp
    ∷ say ", "
    ∷ unsigned info.nonce
    ∷ say ", "
    ∷ chars prev_hash
    ∷ say " },\n"
    ∷ [])

unfoldable pub data_brief : List ℕ → BlockData → Run (List Piece)
data_brief indent contents = c_string contents.buffer >>= λ buffer. ret (
    chars indent
    ∷ say "\tdata: { "
    ∷ say "\""
    ∷ chars buffer
    ∷ say "\", "
    ∷ unsigned contents.len
    ∷ say " },\n"
    ∷ [])

unfoldable pub hash_lines : List ℕ → List ℕ → Run (List Piece)
hash_lines indent hash = print_hex_buffer 32 hash >>= λ digest.
    ret (chars indent ∷ say "\thash: " ∷ chars digest ∷ say "\n" ∷ chars indent ∷ say "}\n" ∷ [])

module _ ⦃ll : Llist⦄ where
  -- `%d` of the size of a list that can be NULL
  unfoldable pub signed_size : {A : Type 0} → Option (List A) → Piece
  signed_size none = say "-1"
  signed_size (some l) = unsigned (ll.size l)

  each_transaction :
      (Transaction → Run (List ℕ) → ℕ × Transaction × Run (List ℕ))
      → Option (List Transaction)
      → Run (List ℕ)
      → Run (List ℕ)
  each_transaction action none out = out
  each_transaction action (some transactions) out = (ll.for_each action transactions out).2

  -- The list of a block's transactions, each printed by the action.
  unfoldable pub transactions_lines :
      List ℕ
      → (Transaction → Run (List ℕ) → ℕ × Transaction × Run (List ℕ))
      → Option (List Transaction)
      → Run (List ℕ)
      → Run (List ℕ)
  unfolding each_transaction
  transactions_lines indent action transactions out =
      let opened = put out (
        ret
          (chars indent ∷ say "\ttransactions [" ∷ signed_size transactions ∷ say "]: [\n" ∷ [])) in
      put (each_transaction action transactions opened) (ret (chars indent ∷ say "\t]\n" ∷ []))

  unfoldable pub block_print : List ℕ → Block → Run (List ℕ) → ℕ × Block × Run (List ℕ)
  block_print indent block out =
      let top = put (put out (info_lines indent block.info)) (data_lines indent block.contents) in
      let indent2 = indent ++ codes "\t\t" in
      let listed =
        transactions_lines indent (transaction_print_loop indent2) block.transactions top in
      (0, block, put listed (hash_lines indent block.hash))

  unfoldable pub block_print_brief : List ℕ → Block → Run (List ℕ) → ℕ × Block × Run (List ℕ)
  block_print_brief indent block out =
      let top = put (put out (info_brief indent block.info)) (data_brief indent block.contents) in
      let indent2 = indent ++ codes "\t\t" in
      let listed =
        transactions_lines indent (transaction_print_brief_loop indent2) block.transactions top in
      (0, block, put listed (hash_lines indent block.hash))

  -- What stands around the blocks of a chain, with the text of its blocks behind what is handed on.
  unfoldable pub chain_lines :
      {A : Type 0} → Option (List A) → (Run (List ℕ) → Run (List ℕ)) → Run (List ℕ)
  chain_lines chain blocks =
      let opened =
        put (ret [])
          (ret (say "Blockchain: {\n" ∷ say "\tchain [" ∷ signed_size chain ∷ say "]: [\n" ∷ [])) in
      put (blocks opened) (ret (say "\t]\n" ∷ say "}\n" ∷ []))

  unfoldable pub blockchain_print : Blockchain → Run (List ℕ)
  blockchain_print blockchain =
      chain_lines (some blockchain.chain)
        (λ out. (ll.for_each (block_print (codes "\t\t")) blockchain.chain out).2)

  unfoldable pub blockchain_print_brief : Blockchain → Run (List ℕ)
  blockchain_print_brief blockchain =
      chain_lines (some blockchain.chain)
        (λ out. (ll.for_each (block_print_brief (codes "\t\t")) blockchain.chain out).2)
