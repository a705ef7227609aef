-- ===== src/Transaction/Select.antt =====
-- The choice of inputs in blockchain/v0.3/transaction/transaction_create.c.
pub mod Chosen
use holbertonschool_blockcha.Prelude.{
  ℕ, ◌+◌, ◌%◌, ◌^◌, ◌==◌, leb, if◌then◌else◌, ◌&&◌, not, Bool, false, Option, none, some, List, [],
  ◌∷◌,
}
use holbertonschool_blockcha.Prelude.Bytes.{mem_eq}
use holbertonschool_blockcha.Llist.{Llist}
use holbertonschool_blockcha.Llist.Walk.{nodes_at}
use holbertonschool_blockcha.Crypto.{ec_pub_len}
use holbertonschool_blockcha.Transaction.Types.{TxIn, UnspentTxOut, Transaction}
use holbertonschool_blockcha.Transaction.Outputs.{tx_in_create}

-- `sizeof(SHA256_DIGEST_LENGTH)` is the size of an int.
abbrev pub sizeof_digest_length : ℕ
sizeof_digest_length = 4

unfoldable pub same_reference : UnspentTxOut → TxIn → Bool
same_reference unspent tx_in =
    mem_eq sizeof_digest_length tx_in.block_hash unspent.block_hash
    && mem_eq sizeof_digest_length tx_in.tx_id unspent.tx_id
    && mem_eq sizeof_digest_length tx_in.tx_out_hash unspent.out.hash

-- The loop of `check_unspent`: 1 at the first input that refers to `unspent`.
unfoldable pub check_inputs : UnspentTxOut → List TxIn → ℕ
check_inputs unspent [] = 0
check_inputs unspent (tx_in ∷ rest) =
    if same_reference unspent tx_in then 1 else check_inputs unspent rest

module _ ⦃ll : Llist⦄ where
  unfoldable pub check_unspent : UnspentTxOut → Transaction → Unit {0} → ℕ × Transaction × Unit {0}
  check_unspent unspent tx s = (check_inputs unspent (nodes_at tx.inputs), tx, s)

  unfoldable pub used_in_pool : Option (List Transaction) → UnspentTxOut → Bool
  used_in_pool none unspent = false
  used_in_pool (some tx_pool) unspent =
      let (r, _, _) = ll.for_each (check_unspent unspent) tx_pool tt in not (r == 0)

  -- The inputs chosen so far and their sum, a uint32_t.
  unfoldable pub select_unspent_in :
      List ℕ → Option (List Transaction) → UnspentTxOut → List TxIn × ℕ → List TxIn × ℕ
  select_unspent_in pubkey tx_pool unspent (inputs, amount) =
      if mem_eq ec_pub_len unspent.out.pubkey pubkey && not (used_in_pool tx_pool unspent)
      then (ll.add_rear inputs (tx_in_create unspent), (amount + unspent.out.amount) % 2 ^ 32)
      else (inputs, amount)

  -- The loop of `transaction_create` over the unspent outputs, up to the amount.
  unfoldable pub select_loop :
      List ℕ → Option (List Transaction) → ℕ → List UnspentTxOut → List TxIn × ℕ → List TxIn × ℕ
  select_loop pubkey tx_pool amount [] chosen = chosen
  select_loop pubkey tx_pool amount (unspent ∷ rest) chosen =
      let chosen' = select_unspent_in pubkey tx_pool unspent chosen in
      let more = select_loop pubkey tx_pool amount rest chosen' in
      if leb amount chosen'.1 then chosen' else more
