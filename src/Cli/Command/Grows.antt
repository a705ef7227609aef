-- ===== src/Cli/Command/Grows.antt =====
-- The chain under all the commands.
use holbertonschool_blockcha.Prelude.{
  length, ℕ, ltb, ◌+◌, ◌*◌, ◌≡◌, ◌≢◌, refl, ap, Option, none, some, List, [], ◌∷◌, ◌++◌, ret,
  Ensures, Ensures-bind, Ensures-if, Ensures-map, Ensures-option, Ensures-ret, Option-cases, inl,
  inr,
}
use holbertonschool_blockcha.Prelude.Host.{Host}
use holbertonschool_blockcha.Llist.{Llist}
use holbertonschool_blockcha.Crypto.{Openssl, ec_create, ec_pub_len}
use holbertonschool_blockcha.Crypto.Files.{ec_load}
use holbertonschool_blockcha.Block.Types.{Block}
use holbertonschool_blockcha.Block.Valid.{block_is_valid}
use holbertonschool_blockcha.Cli.State.{Answer, State, World}
use holbertonschool_blockcha.Cli.Mine.{handle_mine}
use holbertonschool_blockcha.Cli.Mine.Extends.{MineEnds, extended, refused, handle_mine-run}
use holbertonschool_blockcha.Cli.Mine.Extends
use holbertonschool_blockcha.Cli.Send.{handle_send}
use holbertonschool_blockcha.Cli.Send.Accepted.{SendEnds, pooled, unsent, handle_send-run}
use holbertonschool_blockcha.Cli.Send.Accepted
use holbertonschool_blockcha.Cli.List.{compares_unspent_tx_out, generate_sorted_unspent_list}
use holbertonschool_blockcha.Cli.Command.{
  Command, exit, wallet_create, wallet_save, wallet_load, mine_block, send, info, info_block, help,
  list, clear, ls, load, save, unknown, handle_wallet_create, handle_wallet_load,
  handle_wallet_save, handle_save, find_command,
}

module _ ⦃host : Host⦄ ⦃ll : Llist⦄ ⦃ssl : Openssl⦄ where
  -- The chain is the same, or one block longer that is valid after the tail.
  pub data Grows (s s' : State) : Type 0 where
    same : s'.blockchain.chain ≡ s.blockchain.chain → Grows s s'
    longer :
        (b : Block)
        → block_is_valid (some b) (ll.get_tail s.blockchain.chain) (some s.blockchain.unspent)
          ≡ ret 0
        → s'.blockchain.chain ≡ s.blockchain.chain ++ b ∷ []
        → Grows s s'

  abbrev AfterCommand : State → Option (Answer × State) → Type 0
  AfterCommand s none = Unit
  AfterCommand s (some (a, s')) = Grows s s'

  wallet_create-Grows : (w : World) (s : State) → Grows s (handle_wallet_create w s).1
  unfolding handle_wallet_create
  wallet_create-Grows w s = elim (Option-cases (ec_create w.entropy)) [
    | inl e ↦ simp (handle_wallet_create, e) (same refl)
    | inr (k, e) ↦ simp (handle_wallet_create, e) (same refl)
  ]

  -- What the command does to the state: the wallet is what was loaded, or there is none.
  pub handle_wallet_load-run :
      (w : World) (s : State) (path : List ℕ)
      → Ensures
          (λ r. (wallet : Option ssl.EcKey) × (r.1 ≡ record s { wallet = wallet }))
          (handle_wallet_load w s path)
  unfolding handle_wallet_load
  handle_wallet_load-run w s path =
      let P = λ (r : Answer × State).
        (wallet : Option ssl.EcKey) × (r.1 ≡ record s { wallet = wallet }) in
      Ensures-bind P (ec_load (some path) w.disk) _
        (λ loaded _. Ensures-option P loaded _ _ (none, refl) (λ key _. (some key, refl)))

  list-Grows : (s : State) → Grows s (generate_sorted_unspent_list s).1
  unfolding generate_sorted_unspent_list
  list-Grows s = elim (Option-cases (ll.sort s.blockchain.unspent compares_unspent_tx_out)) [
    | inl e ↦ simp (generate_sorted_unspent_list, e) (same refl)
    | inr (l, e) ↦ simp (generate_sorted_unspent_list, e) (same refl)
  ]

  mined-Grows : (s : State) (r : Option (Answer × State)) → Extends.Ends s r → AfterCommand s r
  mined-Grows s none h = tt
  mined-Grows s (some (a, s')) (extended b valid grown _ _ _) = longer b valid grown
  mined-Grows s (some (a, s')) (refused e _) = same (ap (λ x. x.chain) e)

  sent-Grows : (s : State) (r : Answer × State) → Accepted.Ends s r → AfterCommand s (some r)
  sent-Grows s (a, s') (pooled tx _ _ e _) = same (ap (λ x. x.chain) e)
  sent-Grows s (a, s') (unsent e) = same (ap (λ x. x.blockchain.chain) e)

  find_command-run :
      (w : World) (c : Command) (arg1 arg2 : Option (List ℕ)) (atoi : List ℕ → ℕ) (s : State)
      → c ≢ load
      → Ensures (AfterCommand s) (find_command w c arg1 arg2 atoi s)
  unfolding find_command
  find_command-run w exit arg1 arg2 atoi s h = same refl
  find_command-run w wallet_create none arg2 atoi s h = wallet_create-Grows w s
  find_command-run w wallet_create (some path) arg2 atoi s h = same refl
  find_command-run w wallet_save none arg2 atoi s h = same refl
  find_command-run w wallet_save (some path) arg2 atoi s h =
      Ensures-bind (AfterCommand s) (handle_wallet_save w s path) _ (λ r _. same refl)
  find_command-run w wallet_load none arg2 atoi s h = same refl
  find_command-run w wallet_load (some path) arg2 atoi s h =
      Ensures-bind (AfterCommand s) (handle_wallet_load w s path) _ (λ r e.
        let (_, kept) = Ensures-ret _ (handle_wallet_load-run w s path) e in
        same (ap (λ x. x.blockchain.chain) kept))
  find_command-run w mine_block none arg2 atoi s h =
      Ensures-map (Extends.Ends s) (AfterCommand s) (handle_mine w s) (mined-Grows s)
        (handle_mine-run w s)
  find_command-run w mine_block (some path) arg2 atoi s h = same refl
  find_command-run w send none arg2 atoi s h = same refl
  find_command-run w send (some amount) none atoi s h = same refl
  find_command-run w send (some amount) (some address) atoi s h =
      Ensures-if (AfterCommand s) (ltb w.address_room (ec_pub_len * 2 + 1)) _ _ (λ _. tt)
        (λ _.
          Ensures-if (AfterCommand s) (ltb (ec_pub_len * 2) (length address)) _ _ (λ _. tt)
            (λ _. Ensures-bind (AfterCommand s) (handle_send (atoi amount) address s) _ (λ r e.
              sent-Grows s r
                (Ensures-ret (Accepted.Ends s) (handle_send-run (atoi amount) address s) e))))
  find_command-run w info arg1 arg2 atoi s h = same refl
  find_command-run w info_block arg1 arg2 atoi s h = same refl
  find_command-run w help arg1 arg2 atoi s h = same refl
  find_command-run w list none arg2 atoi s h = list-Grows s
  find_command-run w list (some path) arg2 atoi s h = same refl
  find_command-run w clear arg1 arg2 atoi s h = same refl
  find_command-run w ls arg1 arg2 atoi s h = same refl
  find_command-run w load arg1 arg2 atoi s h = absurd (h refl)
  find_command-run w save none arg2 atoi s h = same refl
  find_command-run w save (some path) arg2 atoi s h =
      Ensures-bind (AfterCommand s) (handle_save w s path) _ (λ r _. same refl)
  find_command-run w unknown arg1 arg2 atoi s h = same refl

  -- Whatever the command but `load`: when it ends, the chain is what it was, or one block longer
  -- that is valid after the tail.
  pub find_command-Grows :
      (w : World) (c : Command) (arg1 arg2 : Option (List ℕ)) (atoi : List ℕ → ℕ) (s s' : State)
      (a : Answer)
      → c ≢ load
      → find_command w c arg1 arg2 atoi s ≡ ret (some (a, s'))
      → Grows s s'
  find_command-Grows w c arg1 arg2 atoi s s' a h e =
      Ensures-ret (AfterCommand s) (find_command-run w c arg1 arg2 atoi s h) e
