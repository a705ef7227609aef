-- ===== src/Shape/Update.antt =====
-- The sizes of what blockchain/v0.3/transaction/update_unspent.c leaves in the list.
use holbertonschool_blockcha.Prelude.{ℕ, ◌≡◌, some, List, [], ◌∷◌, All, length}
use holbertonschool_blockcha.Prelude.Maybe.{Always}
use holbertonschool_blockcha.Llist.{Llist}
use holbertonschool_blockcha.Llist.Walk.{nodes_at, nodes_at_lem}
use holbertonschool_blockcha.Transaction.Types.{TxOut, TxIn, UnspentTxOut, Transaction}
use holbertonschool_blockcha.Transaction.Listed.{remove_first-All}
use holbertonschool_blockcha.Transaction.Outputs.{unspent_tx_out_create}
use holbertonschool_blockcha.Transaction.Update.{
  find_unspent, remove_spent, add_outputs, update_loop, update_unspent,
}
use holbertonschool_blockcha.Chain.WellFormed.{IsTxOut, IsUnspent}
use holbertonschool_blockcha.Shape.{HasTxShape}
use holbertonschool_blockcha.Shape.Parts.{All-append, unspent_tx_out_create-IsUnspent}

module _ ⦃ll : Llist⦄ where
  remove_spent-IsUnspent :
      (is : List TxIn) (us : List UnspentTxOut)
      → All IsUnspent us
      → All IsUnspent (remove_spent is us)
  unfolding remove_spent
  remove_spent-IsUnspent [] us h = h
  remove_spent-IsUnspent (i ∷ is) us h =
      rw ll.remove_node_eq
        (remove_spent-IsUnspent is _ (remove_first-All IsUnspent (find_unspent i.tx_out_hash) us h))

  add_outputs-IsUnspent :
      (hash id : List ℕ) (os : List TxOut) (us : List UnspentTxOut)
      → length hash ≡ 32
      → length id ≡ 32
      → All IsTxOut os
      → All IsUnspent us
      → All IsUnspent (add_outputs hash id os us)
  unfolding add_outputs
  add_outputs-IsUnspent hash id [] us hh hi ho h = h
  add_outputs-IsUnspent hash id (o ∷ os) us hh hi (hx, ho) h = rw ll.add_rear_eq (
      add_outputs-IsUnspent hash id os _ hh hi ho (
        All-append IsUnspent us (unspent_tx_out_create hash id o ∷ []) h
          (unspent_tx_out_create-IsUnspent hash id o hh hi hx, tt)))

  update_loop-IsUnspent :
      (hash : List ℕ) (ts : List Transaction) (us : List UnspentTxOut)
      → length hash ≡ 32
      → All HasTxShape ts
      → All IsUnspent us
      → All IsUnspent (update_loop hash ts us)
  unfolding update_loop
  update_loop-IsUnspent hash [] us hh hs h = h
  update_loop-IsUnspent hash (t ∷ ts) us hh (ht, hs) h = rw (nodes_at_lem t.outputs) (
      update_loop-IsUnspent hash ts _ hh hs (
        add_outputs-IsUnspent hash t.id t.outputs _ hh ht.id ht.outputs
          (remove_spent-IsUnspent (nodes_at t.inputs) us h)))

  pub update_unspent-IsUnspent :
      (hash : List ℕ) (ts : List Transaction) (us : List UnspentTxOut)
      → length hash ≡ 32
      → All HasTxShape ts
      → All IsUnspent us
      → Always (All IsUnspent) (update_unspent (some ts) hash (some us))
  unfolding update_unspent
  update_unspent-IsUnspent hash ts us hh hs h =
      rw (nodes_at_lem ts) (update_loop-IsUnspent hash ts us hh hs h)
