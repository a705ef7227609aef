-- ===== src/Transaction/Create.antt =====
-- `send_amount` and `transaction_create` of blockchain/v0.3/transaction/transaction_create.c.
pub mod Accepted
use holbertonschool_blockcha.Prelude.{
  Bool, true, not, ℕ, ◌+◌, ◌-◌, ◌%◌, ◌^◌, ◌==◌, ltb, if◌then◌else◌, false, Option, none, some, List,
  [], replicate, Run, ret, ub, ◌>>=◌,
}
use holbertonschool_blockcha.Prelude.Host.{Host}
use holbertonschool_blockcha.Llist.{Llist}
use holbertonschool_blockcha.Llist.Walk.{nodes_at}
use holbertonschool_blockcha.Crypto.{Openssl, ec_to_pub, ec_pub_len}
use holbertonschool_blockcha.Transaction.Types.{TxOut, UnspentTxOut, Transaction}
use holbertonschool_blockcha.Transaction.Outputs.{tx_out_create}
use holbertonschool_blockcha.Transaction.Hash.{transaction_hash}
use holbertonschool_blockcha.Transaction.Sign.{sign_transaction_inputs}
use holbertonschool_blockcha.Transaction.Select.{select_loop}

module _ ⦃host : Host⦄ ⦃ll : Llist⦄ ⦃ssl : Openssl⦄ where
  -- `ec_to_pub` into a local buffer, its result not looked at. On failure the buffer is unset, and
  -- `read` tells whether the code behind reads it; zeros stand for one that is not.
  unfoldable pub pub_buffer : Option ssl.EcKey → Bool → Run (List ℕ)
  pub_buffer key read = elim (ec_to_pub key) [
    | none ↦ if read then ub else ret (replicate ec_pub_len 0)
    | some pubkey ↦ ret pubkey
  ]

  -- The second output, for what is left of the inputs.
  unfoldable pub send_change : Option ssl.EcKey → ℕ → List TxOut → Run (Option (List TxOut))
  send_change sender remaining_balance outputs =
      if remaining_balance == 0 then ret (some outputs) else do
        sender_pub_key ← pub_buffer sender true
        elim (tx_out_create remaining_balance sender_pub_key) [
          | none ↦ ret none
          | some output ↦ ret (some (ll.add_rear outputs output))
        ]

  -- `amount` is an int32_t in two's complement, so `total - amount` wraps as a uint32_t.
  unfoldable pub send_amount :
      Option ssl.EcKey → Option ssl.EcKey → ℕ → ℕ → Run (Option (List TxOut))
  send_amount sender receiver amount total = do
    receiver_pub_key ← pub_buffer receiver (not (amount == 0))
    elim (tx_out_create amount receiver_pub_key) [
      | none ↦ ret none
      | some output ↦
          send_change sender ((total + 2 ^ 32 - amount) % 2 ^ 32) (ll.add_rear [] output)
    ]

  -- The end of `transaction_create`: the id, all zeros if there is no hash, and the signatures,
  -- whose result is not looked at.
  unfoldable pub seal :
      Option ssl.EcKey → List UnspentTxOut → Transaction → Run (Option Transaction)
  seal sender all_unspent unsealed =
      let id : List ℕ = elim (transaction_hash unsealed) [ none ↦ replicate 32 0 | some h ↦ h ] in
      let (_, inputs, met) =
        ll.for_each (sign_transaction_inputs id sender (some all_unspent)) unsealed.inputs false in
      if met then ub else ret (some (record unsealed { id = id; inputs = inputs }))

  unfoldable pub transaction_create :
      Option ssl.EcKey
      → Option ssl.EcKey
      → ℕ
      → Option (List UnspentTxOut)
      → Option (List Transaction)
      → Run (Option Transaction)
  transaction_create none receiver amount all_unspent tx_pool = ret none
  transaction_create (some key) none amount all_unspent tx_pool = ret none
  transaction_create (some key) (some to) amount none tx_pool = ret none
  transaction_create (some key) (some to) amount (some all_unspent) tx_pool = do
    pubkey ← pub_buffer (some key) (not (ll.size all_unspent == 0))
    let chosen = select_loop pubkey tx_pool amount (nodes_at all_unspent) ([], 0)
    if ltb chosen.1 amount then ret none else do
      outputs ← send_amount (some key) (some to) amount chosen.1
      elim outputs [
        | none ↦ ret none
        | some tr_out ↦
            seal (some key) all_unspent
              (record { id = replicate 32 0; inputs = chosen.0; outputs = tr_out })
      ]
