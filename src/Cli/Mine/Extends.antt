-- ===== src/Cli/Mine/Extends.antt =====
-- What the command `mine` does to the state, on every way it can end.
use holbertonschool_blockcha.Prelude.{
  arith, ℕ, ◌≡◌, refl, ap, ◌∙◌, ◌==◌, not, false, Option, none, some, List, [], ◌∷◌, ◌++◌,
  replicate, ret, Ensures, Ensures-bind, Ensures-option, Ensures-if, Ensures-ret,
}
use holbertonschool_blockcha.Prelude.Host.{Host}
use holbertonschool_blockcha.Llist.{Llist}
use holbertonschool_blockcha.Crypto.{Openssl}
use holbertonschool_blockcha.Transaction.Types.{Transaction, UnspentTxOut}
use holbertonschool_blockcha.Transaction.Coinbase.{coinbase_create, coinbase_is_valid}
use holbertonschool_blockcha.Transaction.Update.{update_unspent}
use holbertonschool_blockcha.Block.Types.{Block}
use holbertonschool_blockcha.Block.Create.{block_create}
use holbertonschool_blockcha.Block.Mine.{block_mine}
use holbertonschool_blockcha.Block.Valid.{block_is_valid}
use holbertonschool_blockcha.Cli.State.{Answer, done, failed, State, World}
use holbertonschool_blockcha.Cli.Mine.{drop_invalid, fill_block, append_block, mine, handle_mine}

is_zero : (n : ℕ) → not (n == 0) ≡ false → n ≡ 0
is_zero n h = ground arith

module _ ⦃host : Host⦄ ⦃ll : Llist⦄ ⦃ssl : Openssl⦄ where
  -- A block that is valid after the tail was put at the end of the chain, its transactions were
  -- processed, and the pool was emptied; or nothing changed but the pool.
  pub data MineEnds (s : State) : Answer → State → Type 0 where
    extended :
        {s' : State} (b : Block)
        → block_is_valid (some b) (ll.get_tail s.blockchain.chain) (some s.blockchain.unspent)
          ≡ ret 0
        → s'.blockchain.chain ≡ s.blockchain.chain ++ b ∷ []
        → update_unspent b.transactions b.hash (some s.blockchain.unspent)
          ≡ some s'.blockchain.unspent
        → s'.tx_pool ≡ []
        → s'.wallet ≡ s.wallet
        → MineEnds s done s'
    refused :
        {s' : State} → s'.blockchain ≡ s.blockchain → s'.wallet ≡ s.wallet → MineEnds s failed s'

  -- Nothing is said of a block that is still being mined.
  abbrev pub Ends : State → Option (Answer × State) → Type 0
  Ends s none = Unit
  Ends s (some (a, s')) = MineEnds s a s'

  update_unspent-some :
      (ts : Option (List Transaction)) (hash : List ℕ) (us : List UnspentTxOut)
      → (l : List UnspentTxOut) × (update_unspent ts hash (some us) ≡ some l)
  unfolding update_unspent
  update_unspent-some none hash us = (us, refl)
  update_unspent-some (some ts) hash us = (_, refl)

  append-Ends :
      (s : State) (b : Block)
      → block_is_valid (some b) (ll.get_tail s.blockchain.chain) (some s.blockchain.unspent) ≡ ret 0
      → MineEnds s done (append_block s b)
  unfolding append_block
  append-Ends s b valid =
      let (l, e) = update_unspent-some b.transactions b.hash s.blockchain.unspent in
      extended b valid (ll.add_rear_eq _ _) (simp (append_block, e)) refl refl

  mine-Ends :
      (w : World) (s : State) (b : Block) (c : Transaction)
      → Ensures (Ends s) (mine w s b (ll.get_tail s.blockchain.chain) c)
  unfolding mine
  mine-Ends w s b c =
      Ensures-bind (Ends s) (drop_invalid (ll.size s.tx_pool) s.blockchain.unspent s.tx_pool) _
        (λ pool _.
          Ensures-bind (Ends s) (block_mine w.rounds w.unset (fill_block s pool b c)) _ (λ mined _.
            Ensures-option (Ends s) mined _ _ tt (λ m _.
              Ensures-bind (Ends s)
                (block_is_valid (some m) (ll.get_tail s.blockchain.chain)
                  (some s.blockchain.unspent))
                _
                (λ answer e.
                  Ensures-if (Ends s) (not (answer == 0)) _ _ (λ _. refused refl refl)
                    (λ accepted. append-Ends s m (e ∙ ap ret (is_zero answer accepted)))))))

  pub handle_mine-run : (w : World) (s : State) → Ensures (Ends s) (handle_mine w s)
  unfolding handle_mine
  handle_mine-run w s = Ensures-option (Ends s) s.wallet _ _ (refused refl refl) (λ key _.
      Ensures-bind (Ends s)
        (block_create (ll.get_tail s.blockchain.chain) (some (replicate 1024 0)) 1024 w.now) _
        (λ created _. Ensures-option (Ends s) created _ _ (refused refl refl) (λ b _.
          Ensures-option (Ends s) (coinbase_create (some key) b.info.index) _ _ (refused refl refl)
            (λ c _.
              Ensures-if (Ends s) (not (coinbase_is_valid (some c) b.info.index)) _ _
                (λ _. refused refl refl) (λ _. mine-Ends w s b c)))))

  -- When the command `mine` ends, a block that is valid after the tail was appended, processed and
  -- the pool emptied, or chain, unspent outputs and wallet are unchanged.
  pub handle_mine-Ends :
      (w : World) (s s' : State) (a : Answer)
      → handle_mine w s ≡ ret (some (a, s'))
      → MineEnds s a s'
  handle_mine-Ends w s s' a h = Ensures-ret (Ends s) (handle_mine-run w s) h
