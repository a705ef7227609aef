-- ===== src/Transaction/Coinbase.antt =====
-- coinbase_create.c and coinbase_is_valid.c of blockchain/v0.3/transaction/.
pub mod Accepted
use holbertonschool_blockcha.Prelude.{
  ℕ, ◌==◌, if◌then◌else◌, ◌||◌, not, Bool, true, false, Option, none, some, List, [], ◌∷◌, ◌++◌,
  replicate,
}
use holbertonschool_blockcha.Prelude.Bytes.{mem_eq}
use holbertonschool_blockcha.Prelude.Host.{Host, bytes_of}
use holbertonschool_blockcha.Prelude.Maybe.{◌>>=◌}
use holbertonschool_blockcha.Llist.{Llist}
use holbertonschool_blockcha.Crypto.{Openssl, ec_to_pub}
use holbertonschool_blockcha.Transaction.Types.{TxIn, TxOut, Transaction}
use holbertonschool_blockcha.Transaction.Outputs.{tx_out_create, no_sign}
use holbertonschool_blockcha.Transaction.Hash.{transaction_hash}

abbrev pub coinbase_amount : ℕ
coinbase_amount = 50

unfoldable pub is_empty : List ℕ → Bool
is_empty [] = true
is_empty (b ∷ bs) = if not (b == 0) then false else is_empty bs

module _ ⦃host : Host⦄ where
  -- The input made by `calloc`, with the index copied to the front of `tx_out_hash`.
  unfoldable pub coinbase_input : ℕ → TxIn
  coinbase_input block_index = record {
    block_hash = replicate 32 0;
    tx_id = replicate 32 0;
    tx_out_hash = bytes_of 4 block_index ++ replicate 28 0;
    sig = no_sign;
  }

  -- The tests on the only input and the only output.
  unfoldable pub coinbase_parts : ℕ → TxIn → TxOut → Bool
  coinbase_parts block_index input output =
      if not (mem_eq 4 input.tx_out_hash (bytes_of 4 block_index))
      then false
      else if not (is_empty input.block_hash)
          || not (is_empty input.tx_id)
          || not (is_empty (input.sig.sig ++ input.sig.len ∷ []))
      then false
      else output.amount == coinbase_amount

module _ ⦃host : Host⦄ ⦃ll : Llist⦄ ⦃ssl : Openssl⦄ where
  unfoldable pub coinbase_create_continue : Transaction → List ℕ → ℕ → Option Transaction
  coinbase_create_continue transaction pubkey block_index = do
    output ← tx_out_create coinbase_amount pubkey
    let unsealed = record transaction {
      inputs = ll.add_rear transaction.inputs (coinbase_input block_index);
      outputs = ll.add_rear transaction.outputs output;
    }
    id ← transaction_hash unsealed
    some (record unsealed { id = id })

  unfoldable pub coinbase_create : Option ssl.EcKey → ℕ → Option Transaction
  coinbase_create receiver block_index = do
    pubkey ← ec_to_pub receiver
    coinbase_create_continue (record { id = replicate 32 0; inputs = []; outputs = [] }) pubkey
        block_index

  unfoldable pub coinbase_is_valid : Option Transaction → ℕ → Bool
  coinbase_is_valid none block_index = false
  coinbase_is_valid (some coinbase) block_index = elim (transaction_hash coinbase) [
    | none ↦ false
    | some hash ↦
        if not (mem_eq 32 coinbase.id hash)
        then false
        else if not (ll.size coinbase.inputs == 1) || not (ll.size coinbase.outputs == 1)
        then false
        else elim (ll.get_node_at coinbase.inputs 0) [
          | none ↦ false
          | some input ↦ elim (ll.get_node_at coinbase.outputs 0) [
            | none ↦ false
            | some output ↦ coinbase_parts block_index input output
          ]
        ]
  ]
