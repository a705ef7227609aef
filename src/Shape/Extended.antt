-- ===== src/Shape/Extended.antt =====
-- The command `mine` keeps the sizes of the state.
use holbertonschool_blockcha.Prelude.{
  ==_iff, not-false, ◌≡◌, ◌≢◌, ◌==◌, ◌&&◌, not, refl, ap, ◌∙◌, Bool, true, false, Option, none,
  some, List, [], ◌∷◌, All, length, replicate, ret, Ensures, Ensures-bind, Ensures-if,
  Ensures-option, Ensures-ret,
}
use holbertonschool_blockcha.Prelude.Host.{Host}
use holbertonschool_blockcha.Prelude.Maybe.{Always, Always-some}
use holbertonschool_blockcha.Llist.{Llist}
use holbertonschool_blockcha.Crypto.{Openssl}
use holbertonschool_blockcha.Transaction.Types.{UnspentTxOut, Transaction}
use holbertonschool_blockcha.Transaction.Coinbase.{coinbase_create, coinbase_is_valid}
use holbertonschool_blockcha.Block.Types.{Block}
use holbertonschool_blockcha.Block.Create.{block_create}
use holbertonschool_blockcha.Block.Mine.{block_mine}
use holbertonschool_blockcha.Block.Valid.{is_genesis, block_is_valid}
use holbertonschool_blockcha.Chain.WellFormed.{IsUnspent}
use holbertonschool_blockcha.Cli.State.{Answer, State, World}
use holbertonschool_blockcha.Cli.Mine.{drop_invalid, fill_block, append_block, mine, handle_mine}
use holbertonschool_blockcha.Shape.{HasTxShape, HasBlockShape, HasStateShape}
use holbertonschool_blockcha.Shape.Parts.{All-append}
use holbertonschool_blockcha.Shape.Coinbase.{coinbase_create-HasTxShape}
use holbertonschool_blockcha.Shape.Update.{update_unspent-IsUnspent}
use holbertonschool_blockcha.Shape.Mined.{IsRenonced, block_mine-IsRenonced}
use holbertonschool_blockcha.Shape.Fresh.{IsFresh, block_create-IsFresh}
use holbertonschool_blockcha.Shape.Filled.{IsFilled, drop_invalid-HasTxShape, fill_block-IsFilled}

and_false : (a : Bool) → (a && false) ≡ false
and_false true = refl
and_false false = refl

module _ ⦃host : Host⦄ ⦃ll : Llist⦄ ⦃ssl : Openssl⦄ where
  not_genesis : (b : Block) (l : List Transaction) → b.transactions ≡ some l → is_genesis b ≡ false
  unfolding is_genesis
  not_genesis b l listed = simp (is_genesis, listed, and_false)

  -- A block with a list of transactions is valid only with an index other than 0.
  has_index :
      (b : Block) (l : List Transaction) (prev : Option Block) (us : Option (List UnspentTxOut))
      → b.transactions ≡ some l
      → block_is_valid (some b) prev us ≡ ret 0
      → b.info.index ≢ 0
  unfolding block_is_valid
  has_index b l none us listed valid first =
      cc (rw (block_is_valid, not_genesis b l listed, first) at valid)
  has_index b l (some prev) us listed valid first =
      cc (rw (block_is_valid, not_genesis b l listed, first) at valid)

  mined-HasBlockShape :
      (b m : Block) (prev : Option Block) (us : Option (List UnspentTxOut))
      → IsFilled b
      → IsRenonced b m
      → block_is_valid (some m) prev us ≡ ret 0
      → HasBlockShape m
  mined-HasBlockShape b m prev us f r valid =
      let same = r.mined in
      let nonzero : m.info.index ≢ 0 =
        has_index m f.list prev us (ap (λ x. x.transactions) same ∙ f.listed) valid in
      let nonzero_b : b.info.index ≢ 0 = λ e. nonzero (ap (λ x. x.info.index) same ∙ e) in
      rw same (record {
        info = record {
          index = f.info.index;
          difficulty = f.info.difficulty;
          timestamp = f.info.timestamp;
          nonce = r.fits;
          prev_hash = f.info.prev_hash;
        };
        contents = f.contents;
        transactions = rw f.listed (nonzero_b, f.transactions);
        hash = r.array;
      })

  taken :
      (o : Option (List UnspentTxOut))
      → Always (All IsUnspent) o
      → All IsUnspent (elim o as (λ _. List UnspentTxOut) [ none ↦ [] | some l ↦ l ])
  taken none h = tt
  taken (some l) h = h

  append_block-HasStateShape :
      (s : State) (b : Block) (l : List Transaction)
      → b.transactions ≡ some l
      → All HasTxShape l
      → HasStateShape s
      → HasBlockShape b
      → HasStateShape (append_block s b)
  unfolding append_block
  append_block-HasStateShape s b l listed hl hs hb =
      let updated = update_unspent-IsUnspent b.hash l s.blockchain.unspent hb.hash hl hs.unspent in
      record {
        chain =
            rw ll.add_rear_eq
              (All-append HasBlockShape s.blockchain.chain (b ∷ []) hs.chain (hb, tt));
        unspent = rw listed (taken _ updated);
        pool = tt;
      }

  -- Where the command ends, the state has its sizes again.
  abbrev pub Kept : Option (Answer × State) → Type 0
  Kept none = Unit
  Kept (some (a, s)) = HasStateShape s

  mine-Kept :
      (w : World) (s : State) (b : Block) (prev : Option Block) (c : Transaction)
      → length w.unset ≡ 32
      → HasStateShape s
      → IsFresh b
      → HasTxShape c
      → Ensures Kept (mine w s b prev c)
  unfolding mine
  mine-Kept w s b prev c array hs fresh hc =
      Ensures-bind Kept (drop_invalid (ll.size s.tx_pool) s.blockchain.unspent s.tx_pool) _
        (λ pool e.
          let hp =
            Ensures-ret (All HasTxShape)
              (drop_invalid-HasTxShape _ s.blockchain.unspent s.tx_pool hs.pool) e in
          let filled = fill_block-IsFilled s pool b c hs.chain hp fresh hc in
          Ensures-bind Kept (block_mine w.rounds w.unset (fill_block s pool b c)) _ (λ mined e'.
            let r =
              Ensures-ret (Always (IsRenonced (fill_block s pool b c)))
                (block_mine-IsRenonced w.rounds w.unset (fill_block s pool b c) array) e' in
            Ensures-option Kept mined _ _ tt (λ m e''.
              let renonced = Always-some (IsRenonced (fill_block s pool b c)) r e'' in
              Ensures-bind Kept (block_is_valid (some m) prev (some s.blockchain.unspent)) _
                (λ answer v.
                  Ensures-if Kept (not (answer == 0)) _ _
                    (λ _. record { chain = hs.chain; unspent = hs.unspent; pool = hp })
                    (λ good.
                      let valid : block_is_valid (some m) prev (some s.blockchain.unspent) ≡ ret 0 =
                        v ∙ ap ret ((==_iff answer 0).0 (not-false _ good)) in
                      append_block-HasStateShape s m filled.list
                        (ap (λ x. x.transactions) renonced.mined ∙ filled.listed)
                        filled.transactions hs
                        (mined-HasBlockShape (fill_block s pool b c) m prev _ filled renonced
                          valid))))))

  -- The command `mine` keeps the sizes of the state, whether it succeeds or fails.
  pub handle_mine-Kept :
      (w : World) (s : State)
      → length w.unset ≡ 32
      → HasStateShape s
      → Ensures Kept (handle_mine w s)
  unfolding handle_mine
  handle_mine-Kept w s array hs = Ensures-option Kept s.wallet _ _ hs (λ key _.
      Ensures-bind Kept
        (block_create (ll.get_tail s.blockchain.chain) (some (replicate 1024 0)) 1024 w.now) _
        (λ created e. Ensures-option Kept created _ _ hs (λ b e'.
          let fresh =
            Always-some IsFresh
              (Ensures-ret (Always IsFresh) (block_create-IsFresh s.blockchain.chain w.now hs.chain)
                e)
              e' in
          Ensures-option Kept (coinbase_create (some key) b.info.index) _ _ hs (λ c e''.
            let hc =
              Always-some HasTxShape (coinbase_create-HasTxShape (some key) b.info.index) e'' in
            Ensures-if Kept (not (coinbase_is_valid (some c) b.info.index)) _ _ (λ _. hs)
              (λ _. mine-Kept w s b (ll.get_tail s.blockchain.chain) c array hs fresh hc)))))
