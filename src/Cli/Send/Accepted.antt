-- ===== src/Cli/Send/Accepted.antt =====
-- What the command `send` does to the state, on every way it can end.
use holbertonschool_blockcha.Prelude.{
  ℕ, ◌≡◌, refl, ap, ◌∙◌, some, List, [], ◌∷◌, ◌++◌, ret, Ensures, Ensures-bind, Ensures-option,
  Ensures-if, Ensures-ret,
}
use holbertonschool_blockcha.Prelude.Host.{Host}
use holbertonschool_blockcha.Llist.{Llist}
use holbertonschool_blockcha.Crypto.{Openssl}
use holbertonschool_blockcha.Transaction.Types.{Transaction}
use holbertonschool_blockcha.Transaction.Valid.{transaction_is_valid}
use holbertonschool_blockcha.Transaction.Valid.Meaning.{IsAccepted, transaction_is_valid_iff}
use holbertonschool_blockcha.Transaction.Create.{transaction_create}
use holbertonschool_blockcha.Cli.State.{Answer, done, failed, State}
use holbertonschool_blockcha.Cli.Send.{str_to_key, handle_send}

module _ ⦃host : Host⦄ ⦃ll : Llist⦄ ⦃ssl : Openssl⦄ where
  -- An accepted transaction was put at the end of the pool, and nothing else changed; or nothing did.
  pub data SendEnds (s : State) : Answer → State → Type 0 where
    pooled :
        {s' : State} (tx : Transaction)
        → IsAccepted s.blockchain.unspent tx
        → s'.tx_pool ≡ s.tx_pool ++ tx ∷ []
        → s'.blockchain ≡ s.blockchain
        → s'.wallet ≡ s.wallet
        → SendEnds s done s'
    unsent : {s' : State} → s' ≡ s → SendEnds s failed s'

  abbrev pub Ends : State → Answer × State → Type 0
  Ends s (a, s') = SendEnds s a s'

  pub handle_send-run :
      (amount : ℕ) (address : List ℕ) (s : State) → Ensures (Ends s) (handle_send amount address s)
  unfolding handle_send
  handle_send-run amount address s =
      Ensures-bind (Ends s)
        (transaction_create s.wallet (str_to_key address) amount (some s.blockchain.unspent)
          (some s.tx_pool))
        _
        (λ created _. Ensures-option (Ends s) created _ _ (unsent refl) (λ tx _.
          Ensures-bind (Ends s) (transaction_is_valid (some tx) (some s.blockchain.unspent)) _
            (λ valid e.
              Ensures-if (Ends s) valid _ _
                (λ passed.
                  pooled tx
                    ((transaction_is_valid_iff s.blockchain.unspent tx).0 (e ∙ ap ret passed))
                    (ll.add_rear_eq _ _) refl refl)
                (λ _. unsent refl))))

  -- When the command `send` ends, an accepted transaction was put at the end of the pool and
  -- nothing else changed, or the state is unchanged.
  pub handle_send-Ends :
      (amount : ℕ) (address : List ℕ) (s s' : State) (a : Answer)
      → handle_send amount address s ≡ ret (a, s')
      → SendEnds s a s'
  handle_send-Ends amount address s s' a h =
      Ensures-ret (Ends s) (handle_send-run amount address s) h
