-- ===== src/V1/Print.antt =====
-- blockchain/v0.1/provided/_blockchain_print.c, which version 0.2 has as well.
use holbertonschool_blockcha.Prelude.{ℕ, Option, none, some, List, Run}
use holbertonschool_blockcha.Prelude.Text.{codes, put}
use holbertonschool_blockcha.Llist.{Llist}
use holbertonschool_blockcha.Block.Print.{
  info_lines, data_lines, info_brief, data_brief, hash_lines, chain_lines,
}
use holbertonschool_blockcha.V1.Types.{Block, Blockchain}

unfoldable pub block_print : List ℕ → Block → Run (List ℕ) → ℕ × Block × Run (List ℕ)
block_print indent block out =
    let top = put (put out (info_lines indent block.info)) (data_lines indent block.contents) in
    (0, block, put top (hash_lines indent block.hash))

unfoldable pub block_print_brief : List ℕ → Block → Run (List ℕ) → ℕ × Block × Run (List ℕ)
block_print_brief indent block out =
    let top = put (put out (info_brief indent block.info)) (data_brief indent block.contents) in
    (0, block, put top (hash_lines indent block.hash))

module _ ⦃ll : Llist⦄ where
  -- Over NULL nothing is done for each node.
  each_block :
      (Block → Run (List ℕ) → ℕ × Block × Run (List ℕ))
      → Option (List Block)
      → Run (List ℕ)
      → Run (List ℕ)
  each_block action none out = out
  each_block action (some chain) out = (ll.for_each action chain out).2

  unfoldable pub blockchain_print : Blockchain → Run (List ℕ)
  unfolding each_block
  blockchain_print blockchain =
      chain_lines blockchain.chain (each_block (block_print (codes "\t\t")) blockchain.chain)

  unfoldable pub blockchain_print_brief : Blockchain → Run (List ℕ)
  unfolding each_block
  blockchain_print_brief blockchain =
      chain_lines blockchain.chain (each_block (block_print_brief (codes "\t\t")) blockchain.chain)
