-- ===== src/Transaction/Sign.antt =====
-- tx_in_sign.c and tool.c of blockchain/v0.3/transaction/.
pub mod Signed
use holbertonschool_blockcha.Prelude.{
  ℕ, ◌==◌, if◌then◌else◌, not, Bool, true, false, Option, none, some, List, find?, Run, ret, ub,
}
use holbertonschool_blockcha.Prelude.Bytes.{mem_eq}
use holbertonschool_blockcha.Llist.{Llist}
use holbertonschool_blockcha.Llist.Walk.{nodes_at}
use holbertonschool_blockcha.Crypto.{Openssl, ec_to_pub, ec_sign, ec_pub_len}
use holbertonschool_blockcha.Transaction.Types.{TxIn, UnspentTxOut}

-- The test of the search: only the hash of the output is compared.
unfoldable pub refers_to : TxIn → UnspentTxOut → Bool
refers_to tx_in unspent = mem_eq 32 tx_in.tx_out_hash unspent.out.hash

module _ ⦃ll : Llist⦄ ⦃ssl : Openssl⦄ where
  -- Once the output is found: the sender must own it, and signs.
  unfoldable pub sign_as_owner : TxIn → List ℕ → Option ssl.EcKey → UnspentTxOut → Bool × TxIn
  sign_as_owner tx_in tx_id sender unspent = elim (ec_to_pub sender) [
    | none ↦ (false, tx_in)
    | some pubkey ↦
        if not (mem_eq ec_pub_len pubkey unspent.out.pubkey)
        then (false, tx_in)
        else (let (signed, sig) = ec_sign sender tx_id tx_in.sig in
            (signed, record tx_in { sig = sig }))
  ]

  -- Whether the result is not NULL, and the input as the call leaves it. Over an empty list the
  -- pointer `unspent_output` is read before anything was written to it.
  unfoldable pub tx_in_sign :
      TxIn → List ℕ → Option ssl.EcKey → Option (List UnspentTxOut) → Run (Bool × TxIn)
  tx_in_sign tx_in tx_id none all_unspent = ret (false, tx_in)
  tx_in_sign tx_in tx_id (some key) none = ret (false, tx_in)
  tx_in_sign tx_in tx_id (some key) (some all_unspent) =
      if ll.size all_unspent == 0
      then ub
      else elim (find? (refers_to tx_in) (nodes_at all_unspent)) [
        | none ↦ ret (false, tx_in)
        | some unspent ↦ ret (sign_as_owner tx_in tx_id (some key) unspent)
      ]

  -- The action of `llist_for_each`; its state says whether undefined behaviour was met.
  unfoldable pub sign_transaction_inputs :
      List ℕ → Option ssl.EcKey → Option (List UnspentTxOut) → TxIn → Bool → ℕ × TxIn × Bool
  sign_transaction_inputs tx_id sender all_unspent tx_in met =
      elim (tx_in_sign tx_in tx_id sender all_unspent) [
        | ub ↦ (1, tx_in, true)
        | ret (signed, tx_in') ↦ (if signed then 0 else 1, tx_in', met)
      ]
