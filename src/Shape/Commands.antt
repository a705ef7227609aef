-- ===== src/Shape/Commands.antt =====
-- Each command but `load` keeps the sizes of the state.
use holbertonschool_blockcha.Prelude.{
  ret, ℕ, ◌+◌, ◌*◌, ◌^◌, ◌<◌, ◌≡◌, ◌≢◌, refl, ltb, Option, none, some, List, [], ◌∷◌, length,
  Ensures, Ensures-bind, Ensures-if, Ensures-option, Ensures-ret, Option-cases, inl, inr,
}
use holbertonschool_blockcha.Prelude.Host.{Host}
use holbertonschool_blockcha.Prelude.Maybe.{Always, Always-some}
use holbertonschool_blockcha.Llist.{Llist}
use holbertonschool_blockcha.Crypto.{Openssl, ec_create, ec_pub_len}
use holbertonschool_blockcha.Transaction.Types.{UnspentTxOut}
use holbertonschool_blockcha.Transaction.Listed.{Elem, All-Elem, All-listed}
use holbertonschool_blockcha.Transaction.Valid.{transaction_is_valid}
use holbertonschool_blockcha.Transaction.Create.{transaction_create}
use holbertonschool_blockcha.Chain.WellFormed.{IsUnspent}
use holbertonschool_blockcha.Cli.State.{Answer, State, World}
use holbertonschool_blockcha.Cli.Send.{str_to_key, handle_send}
use holbertonschool_blockcha.Cli.List.{compares_unspent_tx_out, generate_sorted_unspent_list}
use holbertonschool_blockcha.Cli.Command.{
  Command, exit, wallet_create, wallet_save, wallet_load, mine_block, send, info, info_block, help,
  list, clear, ls, load, save, unknown, handle_wallet_create, handle_wallet_load,
  handle_wallet_save, handle_save, find_command,
}
use holbertonschool_blockcha.Cli.Command.Grows.{handle_wallet_load-run}
use holbertonschool_blockcha.Shape.{HasTxShape, HasStateShape}
use holbertonschool_blockcha.Shape.Parts.{All-append}
use holbertonschool_blockcha.Shape.Payment.{transaction_create-HasTxShape}
use holbertonschool_blockcha.Shape.Extended.{Kept, handle_mine-Kept}

module _ ⦃host : Host⦄ ⦃ll : Llist⦄ ⦃ssl : Openssl⦄ where
  handle_send-Kept :
      (amount : ℕ) (address : List ℕ) (s : State)
      → amount < 2 ^ 32
      → HasStateShape s
      → Ensures (λ r. HasStateShape r.1) (handle_send amount address s)
  unfolding handle_send
  handle_send-Kept amount address s small h =
      let P : Answer × State → Type 0 = λ r. HasStateShape r.1 in
      Ensures-bind P
        (transaction_create s.wallet (str_to_key address) amount (some s.blockchain.unspent)
          (some s.tx_pool))
        _
        (λ created e. Ensures-option P created _ _ h (λ tx e'.
          let shape =
            Always-some HasTxShape
              (Ensures-ret (Always HasTxShape)
                (transaction_create-HasTxShape s.wallet (str_to_key address) amount
                  s.blockchain.unspent (some s.tx_pool) small h.unspent)
                e)
              e' in
          Ensures-bind P (transaction_is_valid (some tx) (some s.blockchain.unspent)) _ (λ valid _.
            Ensures-if P valid _ _
              (λ _. record {
                chain = h.chain;
                unspent = h.unspent;
                pool =
                    rw ll.add_rear_eq
                      (All-append HasTxShape s.tx_pool (tx ∷ []) h.pool (shape, tt));
              })
              (λ _. h))))

  -- What `llist_sort` does with the unspent outputs: it makes none up.
  abbrev pub SortsUnspent : Type 0
  SortsUnspent =
      (l l' : List UnspentTxOut)
      → ll.sort l compares_unspent_tx_out ≡ some l'
      → (u : UnspentTxOut) → Elem u l'
      → Elem u l

  list-Kept :
      (s : State)
      → SortsUnspent
      → HasStateShape s
      → HasStateShape (generate_sorted_unspent_list s).1
  unfolding generate_sorted_unspent_list
  list-Kept s sorts h = elim (Option-cases (ll.sort s.blockchain.unspent compares_unspent_tx_out)) [
    | inl e ↦ rw (generate_sorted_unspent_list, e) h
    | inr (l, e) ↦
        rw (generate_sorted_unspent_list, e)
          (record {
            chain = h.chain;
            unspent = All-listed IsUnspent l (λ u m.
                All-Elem IsUnspent s.blockchain.unspent h.unspent
                  (sorts s.blockchain.unspent l e u m));
            pool = h.pool;
          })
  ]

  wallet_create-Kept :
      (w : World) (s : State) → HasStateShape s → HasStateShape (handle_wallet_create w s).1
  unfolding handle_wallet_create
  wallet_create-Kept w s h = elim (Option-cases (ec_create w.entropy)) [
    | inl e ↦
        rw (handle_wallet_create, e)
          (record { chain = h.chain; unspent = h.unspent; pool = h.pool })
    | inr (k, e) ↦
        rw (handle_wallet_create, e)
          (record { chain = h.chain; unspent = h.unspent; pool = h.pool })
  ]

  wallet_load-Kept :
      (w : World) (s : State) (path : List ℕ) (r : Answer × State)
      → HasStateShape s
      → handle_wallet_load w s path ≡ ret r
      → HasStateShape r.1
  wallet_load-Kept w s path r h e =
      let (_, kept) = Ensures-ret _ (handle_wallet_load-run w s path) e in
      rw kept (record { chain = h.chain; unspent = h.unspent; pool = h.pool })

  -- The command keeps the sizes of the state, if it is not `load`, whose file can hold anything.
  pub find_command-Kept :
      (w : World) (c : Command) (arg1 arg2 : Option (List ℕ)) (atoi : List ℕ → ℕ) (s : State)
      → SortsUnspent
      → length w.unset ≡ 32
      → ((arg : List ℕ) → atoi arg < 2 ^ 32)
      → c ≢ load
      → HasStateShape s
      → Ensures Kept (find_command w c arg1 arg2 atoi s)
  unfolding find_command
  find_command-Kept w exit arg1 arg2 atoi s sorts array small not_load h = h
  find_command-Kept w wallet_create none arg2 atoi s sorts array small not_load h =
      wallet_create-Kept w s h
  find_command-Kept w wallet_create (some path) arg2 atoi s sorts array small not_load h = h
  find_command-Kept w wallet_save none arg2 atoi s sorts array small not_load h = h
  find_command-Kept w wallet_save (some path) arg2 atoi s sorts array small not_load h =
      Ensures-bind Kept (handle_wallet_save w s path) _ (λ r _. h)
  find_command-Kept w wallet_load none arg2 atoi s sorts array small not_load h = h
  find_command-Kept w wallet_load (some path) arg2 atoi s sorts array small not_load h =
      Ensures-bind Kept (handle_wallet_load w s path) _ (λ r e. wallet_load-Kept w s path r h e)
  find_command-Kept w mine_block none arg2 atoi s sorts array small not_load h =
      handle_mine-Kept w s array h
  find_command-Kept w mine_block (some path) arg2 atoi s sorts array small not_load h = h
  find_command-Kept w send none arg2 atoi s sorts array small not_load h = h
  find_command-Kept w send (some amount) none atoi s sorts array small not_load h = h
  find_command-Kept w send (some amount) (some address) atoi s sorts array small not_load h =
      Ensures-if Kept (ltb w.address_room (ec_pub_len * 2 + 1)) _ _ (λ _. tt)
        (λ _.
          Ensures-if Kept (ltb (ec_pub_len * 2) (length address)) _ _ (λ _. tt)
            (λ _. Ensures-bind Kept (handle_send (atoi amount) address s) _ (λ r e.
              Ensures-ret (λ r. HasStateShape r.1)
                (handle_send-Kept (atoi amount) address s (small amount) h) e)))
  find_command-Kept w info arg1 arg2 atoi s sorts array small not_load h = h
  find_command-Kept w info_block arg1 arg2 atoi s sorts array small not_load h = h
  find_command-Kept w help arg1 arg2 atoi s sorts array small not_load h = h
  find_command-Kept w list none arg2 atoi s sorts array small not_load h = list-Kept s sorts h
  find_command-Kept w list (some path) arg2 atoi s sorts array small not_load h = h
  find_command-Kept w clear arg1 arg2 atoi s sorts array small not_load h = h
  find_command-Kept w ls arg1 arg2 atoi s sorts array small not_load h = h
  find_command-Kept w load arg1 arg2 atoi s sorts array small not_load h = absurd (not_load refl)
  find_command-Kept w save none arg2 atoi s sorts array small not_load h = h
  find_command-Kept w save (some path) arg2 atoi s sorts array small not_load h =
      Ensures-bind Kept (handle_save w s path) _ (λ r _. h)
  find_command-Kept w unknown arg1 arg2 atoi s sorts array small not_load h = h
