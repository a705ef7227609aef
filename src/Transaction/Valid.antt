-- ===== src/Transaction/Valid.antt =====
-- blockchain/v0.3/transaction/transaction_is_valid.c.
pub mod Meaning
pub mod DoubleSpend
use holbertonschool_blockcha.Prelude.{
  ℕ, ◌+◌, ◌%◌, ◌^◌, ◌==◌, if◌then◌else◌, not, Bool, false, Option, none, some, List, [], ◌∷◌, find?,
  Run, ret, ub, ◌>>=◌,
}
use holbertonschool_blockcha.Prelude.Bytes.{mem_eq}
use holbertonschool_blockcha.Llist.{Llist}
use holbertonschool_blockcha.Llist.Walk.{nodes_at}
use holbertonschool_blockcha.Crypto.{Openssl, ec_from_pub, ec_verify}
use holbertonschool_blockcha.Transaction.Types.{TxOut, TxIn, UnspentTxOut, Transaction}
use holbertonschool_blockcha.Transaction.Hash.{transaction_hash}

unfoldable pub in_out_match : TxIn → UnspentTxOut → Bool
in_out_match tx_input utxo =
    if not (mem_eq 32 tx_input.tx_out_hash utxo.out.hash)
    then false
    else if not (mem_eq 32 tx_input.tx_id utxo.tx_id)
    then false
    else mem_eq 32 tx_input.block_hash utxo.block_hash

-- The second loop: a sum in a uint32_t.
unfoldable pub sum_outputs : ℕ → List TxOut → ℕ
sum_outputs amount_out [] = amount_out
sum_outputs amount_out (output ∷ rest) = sum_outputs ((amount_out + output.amount) % 2 ^ 32) rest

module _ ⦃ll : Llist⦄ ⦃ssl : Openssl⦄ where
  -- The first loop: `none` where the function returns 0, else the sum of the inputs.
  unfoldable pub check_tx_inputs : List UnspentTxOut → List ℕ → ℕ → List TxIn → Run (Option ℕ)
  check_tx_inputs all_unspent id amount_in [] = ret (some amount_in)
  check_tx_inputs all_unspent id amount_in (in_node ∷ rest) =
      elim (find? (in_out_match in_node) (nodes_at all_unspent)) [
        | none ↦ ret none
        | some out_node ↦
            let next =
              check_tx_inputs all_unspent id ((amount_in + out_node.out.amount) % 2 ^ 32) rest in
            (ec_verify (ec_from_pub out_node.out.pubkey) id in_node.sig >>= λ signed.
            if not signed then ret none else next)
      ]

  -- Where the hash fails the comparison reads a buffer that was never written.
  unfoldable pub transaction_is_valid : Option Transaction → Option (List UnspentTxOut) → Run Bool
  transaction_is_valid none all_unspent = ret false
  transaction_is_valid (some transaction) none = ret false
  transaction_is_valid (some transaction) (some all_unspent) = elim (transaction_hash transaction) [
    | none ↦ ub
    | some hash_buff ↦
        if not (mem_eq 32 transaction.id hash_buff)
        then ret false
        else (check_tx_inputs all_unspent transaction.id 0 (nodes_at transaction.inputs) >>= λ sum.
            elim sum [
              | none ↦ ret false
              | some amount_in ↦ ret (amount_in == sum_outputs 0 (nodes_at transaction.outputs))
            ])
  ]
