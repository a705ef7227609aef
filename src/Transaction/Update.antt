-- ===== src/Transaction/Update.antt =====
-- blockchain/v0.3/transaction/update_unspent.c.
pub mod Spent
pub mod Kept
pub mod Ledger
pub mod Worth
pub mod Supply
use holbertonschool_blockcha.Prelude.{ℕ, Bool, Option, none, some, List, [], ◌∷◌}
use holbertonschool_blockcha.Prelude.Bytes.{mem_eq}
use holbertonschool_blockcha.Llist.{Llist}
use holbertonschool_blockcha.Llist.Walk.{nodes_at}
use holbertonschool_blockcha.Transaction.Types.{TxOut, TxIn, UnspentTxOut, Transaction}
use holbertonschool_blockcha.Transaction.Outputs.{unspent_tx_out_create}

unfoldable pub find_unspent : List ℕ → UnspentTxOut → Bool
find_unspent hash unspent = mem_eq 32 unspent.out.hash hash

module _ ⦃ll : Llist⦄ where
  unfoldable pub remove_spent : List TxIn → List UnspentTxOut → List UnspentTxOut
  remove_spent [] all_unspent = all_unspent
  remove_spent (tx_in ∷ rest) all_unspent =
      remove_spent rest (ll.remove_node all_unspent (find_unspent tx_in.tx_out_hash))

  unfoldable pub add_outputs : List ℕ → List ℕ → List TxOut → List UnspentTxOut → List UnspentTxOut
  add_outputs block_hash tx_id [] all_unspent = all_unspent
  add_outputs block_hash tx_id (out ∷ rest) all_unspent =
      add_outputs block_hash tx_id rest
        (ll.add_rear all_unspent (unspent_tx_out_create block_hash tx_id out))

  unfoldable pub update_loop : List ℕ → List Transaction → List UnspentTxOut → List UnspentTxOut
  update_loop block_hash [] all_unspent = all_unspent
  update_loop block_hash (transaction ∷ rest) all_unspent = update_loop block_hash rest (
      add_outputs block_hash transaction.id (nodes_at transaction.outputs)
        (remove_spent (nodes_at transaction.inputs) all_unspent))

  unfoldable pub update_unspent :
      Option (List Transaction) → List ℕ → Option (List UnspentTxOut) → Option (List UnspentTxOut)
  update_unspent none block_hash all_unspent = all_unspent
  update_unspent (some transactions) block_hash none = none
  update_unspent (some transactions) block_hash (some all_unspent) =
      some (update_loop block_hash (nodes_at transactions) all_unspent)
