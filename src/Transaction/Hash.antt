-- ===== src/Transaction/Hash.antt =====
-- blockchain/v0.3/transaction/transaction_hash.c. The buffer that is allocated has
-- `buffer_size` zeros, the arrays are copied to its front one behind the other, and `buffer_size` of
-- its bytes are hashed.
pub mod Total
use holbertonschool_blockcha.Prelude.{
  ℕ, ◌+◌, ◌*◌, ◌==◌, if◌then◌else◌, Option, none, List, [], ◌++◌, replicate, take,
}
use holbertonschool_blockcha.Llist.{Llist}
use holbertonschool_blockcha.Crypto.{Openssl, sha256}
use holbertonschool_blockcha.Transaction.Types.{TxOut, TxIn, Transaction}

-- The functions `inputs` and `outputs` of the file.
unfoldable pub hash_inputs : TxIn → List ℕ → ℕ × TxIn × List ℕ
hash_inputs tx_in buffer =
    (0, tx_in, buffer ++ tx_in.block_hash ++ tx_in.tx_id ++ tx_in.tx_out_hash)

unfoldable pub hash_outputs : TxOut → List ℕ → ℕ × TxOut × List ℕ
hash_outputs tx_out buffer = (0, tx_out, buffer ++ tx_out.hash)

module _ ⦃ll : Llist⦄ ⦃ssl : Openssl⦄ where
  unfoldable pub transaction_hash : Transaction → Option (List ℕ)
  transaction_hash transaction =
      let buffer_size = 96 * ll.size transaction.inputs + 32 * ll.size transaction.outputs in
      if buffer_size == 0
      then none
      else (let (_, _, after_inputs) = ll.for_each hash_inputs transaction.inputs [] in
          let (_, _, buffer) = ll.for_each hash_outputs transaction.outputs after_inputs in
          sha256 (take buffer_size (buffer ++ replicate buffer_size 0)))
