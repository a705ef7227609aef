-- ===== src/Cli/Mine.antt =====
-- cli/mine.c and cli/handle_mine.c.
pub mod Extends
pub mod Filter
pub mod Succeeds
pub mod Command
use holbertonschool_blockcha.Prelude.{
  ℕ, zero, suc, ◌==◌, if◌then◌else◌, not, Bool, true, false, Option, none, some, List, [], ◌∷◌,
  replicate, Run, ret, ub, ◌>>=◌,
}
use holbertonschool_blockcha.Prelude.Host.{Host}
use holbertonschool_blockcha.Llist.{Llist}
use holbertonschool_blockcha.Llist.Walk.{nodes_at}
use holbertonschool_blockcha.Crypto.{Openssl}
use holbertonschool_blockcha.Transaction.Types.{UnspentTxOut, Transaction}
use holbertonschool_blockcha.Transaction.Valid.{transaction_is_valid}
use holbertonschool_blockcha.Transaction.Coinbase.{coinbase_create, coinbase_is_valid}
use holbertonschool_blockcha.Transaction.Update.{update_unspent}
use holbertonschool_blockcha.Block.Types.{Block}
use holbertonschool_blockcha.Block.Create.{block_create}
use holbertonschool_blockcha.Block.Difficulty.{blockchain_difficulty}
use holbertonschool_blockcha.Block.Mine.{block_mine}
use holbertonschool_blockcha.Block.Valid.{block_is_valid}
use holbertonschool_blockcha.Cli.State.{Answer, done, failed, State, World}

module _ ⦃host : Host⦄ ⦃ll : Llist⦄ ⦃ssl : Openssl⦄ where
  -- The test of `llist_remove_node`, for a transaction that it can be made of.
  unfoldable pub invalid_tx : List UnspentTxOut → Transaction → Bool
  invalid_tx unspent transaction = elim (transaction_is_valid (some transaction) (some unspent)) [
    | ub ↦ false
    | ret valid ↦ not valid
  ]

  -- Whether the test meets no undefined behaviour on its way to the first invalid transaction.
  unfoldable pub test_all : List UnspentTxOut → List Transaction → Run Bool
  test_all unspent [] = ret true
  test_all unspent (transaction ∷ rest) =
      let further = test_all unspent rest in
      transaction_is_valid (some transaction) (some unspent) >>= λ valid.
      if valid then further else ret false

  -- The loop that removes one invalid transaction a round.
  unfoldable pub drop_invalid : ℕ → List UnspentTxOut → List Transaction → Run (List Transaction)
  drop_invalid zero unspent pool = ret pool
  drop_invalid (suc n) unspent pool =
      let rest = drop_invalid n unspent (ll.remove_node pool (invalid_tx unspent)) in
      test_all unspent pool >>= λ _. rest

  unfoldable pub add_transaction :
      Transaction → List Transaction → ℕ × Transaction × List Transaction
  add_transaction transaction transactions = (0, transaction, ll.add_rear transactions transaction)

  -- The block that is to be mined: the pool's transactions, with the coinbase in front, and the
  -- difficulty. Nothing can be added to a NULL list.
  unfoldable pub fill_block : State → List Transaction → Block → Transaction → Block
  fill_block state pool block coinbase_tx =
      let transactions : Option (List Transaction) = elim block.transactions [
        | none ↦ none
        | some first ↦
            let (_, _, all) = ll.for_each add_transaction pool first in
            some (ll.add_front all coinbase_tx)
      ] in
      record block {
        info = record block.info { difficulty = blockchain_difficulty (some state.blockchain) };
        transactions = transactions;
      }

  -- The state after a block was mined. `unspent` is never NULL, so the update gives a list.
  unfoldable pub append_block : State → Block → State
  append_block state block =
      let unspent : List UnspentTxOut =
        elim (update_unspent block.transactions block.hash (some state.blockchain.unspent)) [
          | none ↦ []
          | some l ↦ l
        ] in
      record state {
        blockchain = record { chain = ll.add_rear state.blockchain.chain block; unspent = unspent };
        tx_pool = [];
      }

  -- `none`: the block is still being mined after the rounds that are looked at.
  unfoldable pub mine :
      World → State → Block → Option Block → Transaction → Run (Option (Answer × State))
  mine world state block prev_block coinbase_tx = do
    pool ← drop_invalid (ll.size state.tx_pool) state.blockchain.unspent state.tx_pool
    mined ← block_mine world.rounds world.unset (fill_block state pool block coinbase_tx)
    elim mined [
      | none ↦ ret none
      | some block' ↦
          (block_is_valid (some block') prev_block (some state.blockchain.unspent) >>= λ answer.
          if not (answer == 0)
          then ret (some (failed, record state { tx_pool = pool }))
          else ret (some (done, append_block state block')))
    ]

  unfoldable pub handle_mine : World → State → Run (Option (Answer × State))
  handle_mine world state =
      let prev_block = ll.get_tail state.blockchain.chain in
      elim state.wallet [
        | none ↦ ret (some (failed, state))
        | some wallet ↦
            (block_create prev_block (some (replicate 1024 0)) 1024 world.now >>= λ created.
            elim created [
              | none ↦ ret (some (failed, state))
              | some block ↦ elim (coinbase_create (some wallet) block.info.index) [
                | none ↦ ret (some (failed, state))
                | some coinbase_tx ↦
                    if not (coinbase_is_valid (some coinbase_tx) block.info.index)
                    then ret (some (failed, state))
                    else mine world state block prev_block coinbase_tx
              ]
            ])
      ]
