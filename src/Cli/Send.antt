-- ===== src/Cli/Send.antt =====
-- cli/handle_send.c.
pub mod Accepted
use holbertonschool_blockcha.Prelude.{
  ℕ, if◌then◌else◌, Bool, true, false, Option, none, some, List, Run, ret, ◌>>=◌,
}
use holbertonschool_blockcha.Prelude.Host.{Host}
use holbertonschool_blockcha.Llist.{Llist}
use holbertonschool_blockcha.Crypto.{Openssl, ec_from_pub}
use holbertonschool_blockcha.Transaction.Valid.{transaction_is_valid}
use holbertonschool_blockcha.Transaction.Create.{transaction_create}
use holbertonschool_blockcha.Cli.Tools.{string_to_pub}
use holbertonschool_blockcha.Cli.State.{Answer, done, failed, State}

module _ ⦃ssl : Openssl⦄ where
  -- What the call leaves behind `key`, which was NULL: the test after `ec_from_pub` is of the
  -- pointer to it, so it never fails.
  unfoldable pub str_to_key : List ℕ → Option ssl.EcKey
  str_to_key str = elim (string_to_pub (some str)) [
    | none ↦ none
    | some pubkey ↦ ec_from_pub pubkey
  ]

module _ ⦃host : Host⦄ ⦃ll : Llist⦄ ⦃ssl : Openssl⦄ where
  -- `amount` is the int as a uint32_t. The result of `str_to_key` is not looked at.
  unfoldable pub handle_send : ℕ → List ℕ → State → Run (Answer × State)
  handle_send amount receiver_address state =
      transaction_create state.wallet (str_to_key receiver_address) amount
        (some state.blockchain.unspent) (some state.tx_pool)
      >>= λ created. elim created [
        | none ↦ ret (failed, state)
        | some tx ↦
            (transaction_is_valid (some tx) (some state.blockchain.unspent) >>= λ valid.
            if valid
            then ret (done, record state { tx_pool = ll.add_rear state.tx_pool tx })
            else ret (failed, state))
      ]
