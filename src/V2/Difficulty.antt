-- ===== src/V2/Difficulty.antt =====
-- blockchain/v0.2/blockchain_difficulty.c. hash_matches_difficulty.c is that of version 0.3, in
-- Block.Difficulty, as is the adjustment.
use holbertonschool_blockcha.Prelude.{
  ℕ, ◌+◌, ◌-◌, ◌%◌, ◌^◌, ◌==◌, if◌then◌else◌, ◌||◌, not, Option, none, some, List,
}
use holbertonschool_blockcha.Llist.{Llist}
use holbertonschool_blockcha.Block.Difficulty.{difficulty_adjustment_interval, adjust}
use holbertonschool_blockcha.V1.Types.{Block, Blockchain}

module _ ⦃ll : Llist⦄ where
  -- The difficulty after the blocks of the list, whose size is an int taken as unsigned.
  unfoldable pub next_difficulty : List Block → ℕ
  next_difficulty chain = elim (ll.get_tail chain) [
    | none ↦ 0
    | some last_block ↦
        if last_block.info.index == 0
          || not (last_block.info.index % difficulty_adjustment_interval == 0)
        then last_block.info.difficulty
        else elim (ll.get_node_at chain
            ((ll.size chain + 2 ^ 32 - difficulty_adjustment_interval) % 2 ^ 32)) [
              | none ↦ 0
              | some adjusted_block ↦
                  adjust last_block.info.difficulty
                    ((last_block.info.timestamp + 2 ^ 64 - adjusted_block.info.timestamp) % 2 ^ 64)
            ]
  ]

  -- A list that is NULL has no tail.
  unfoldable pub blockchain_difficulty : Option Blockchain → ℕ
  blockchain_difficulty none = 0
  blockchain_difficulty (some blockchain) = elim blockchain.chain [
    | none ↦ 0
    | some chain ↦ next_difficulty chain
  ]
