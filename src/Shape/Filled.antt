-- ===== src/Shape/Filled.antt =====
-- The sizes of the block that the command `mine` hands to mining: the pool without its invalid
-- transactions, and the coinbase in front.
use holbertonschool_blockcha.Prelude.{
  ℕ, zero, suc, ◌≡◌, ◌==◌, some, List, [], ◌∷◌, All, Ensures, Ensures-bind, Bool-cases, inl, inr,
}
use holbertonschool_blockcha.Prelude.Host.{Host}
use holbertonschool_blockcha.Llist.{Llist, run_each}
use holbertonschool_blockcha.Crypto.{Openssl}
use holbertonschool_blockcha.Transaction.Types.{UnspentTxOut, Transaction}
use holbertonschool_blockcha.Block.Types.{Block}
use holbertonschool_blockcha.Chain.WellFormed.{IsInfo, IsContents}
use holbertonschool_blockcha.Cli.State.{State}
use holbertonschool_blockcha.Cli.Mine.{
  invalid_tx, test_all, drop_invalid, add_transaction, fill_block,
}
use holbertonschool_blockcha.Shape.{HasTxShape, HasBlockShape}
use holbertonschool_blockcha.Shape.Parts.{All-append}
use holbertonschool_blockcha.Transaction.Listed.{remove_first-All}
use holbertonschool_blockcha.Shape.Fresh.{IsFresh, difficulty_small}

-- What an action makes of its state, if each node keeps it.
run_each-state :
    {A S : Type 0} (P : A → Type 0) (Q : S → Type 0) (f : A → S → ℕ × A × S)
    → ((x : A) (s : S) → P x → Q s → Q (f x s).2)
    → (l : List A) (s : S) → All P l
    → Q s
    → Q (run_each f l s).2
unfolding run_each
run_each-state P Q f each [] s h q = q
run_each-state P Q f each (x ∷ l) s (hx, hl) q =
    let next = each x s hx q in
    elim (Bool-cases ((f x s).0 == 0)) [
      | inl on ↦ rw (run_each, on) (run_each-state P Q f each l (f x s).2 hl next)
      | inr stop ↦ rw (run_each, stop) next
    ]

module _ ⦃host : Host⦄ ⦃ll : Llist⦄ ⦃ssl : Openssl⦄ where
  pub drop_invalid-HasTxShape :
      (n : ℕ) (us : List UnspentTxOut) (pool : List Transaction)
      → All HasTxShape pool
      → Ensures (All HasTxShape) (drop_invalid n us pool)
  unfolding drop_invalid
  drop_invalid-HasTxShape zero us pool h = h
  drop_invalid-HasTxShape (suc n) us pool h =
      Ensures-bind (All HasTxShape) (test_all us pool) _ (λ _ _.
        drop_invalid-HasTxShape n us (ll.remove_node pool (invalid_tx us))
          (rw ll.remove_node_eq (remove_first-All HasTxShape (invalid_tx us) pool h)))

  -- A block that is ready for mining.
  pub record IsFilled (b : Block) : Type 0 where
    pub info : IsInfo b.info
    pub contents : IsContents b.contents
    pub list : List Transaction
    pub listed : b.transactions ≡ some list
    pub transactions : All HasTxShape list

  pool-All :
      (pool : List Transaction)
      → All HasTxShape pool
      → All HasTxShape (ll.for_each add_transaction pool []).2
  unfolding add_transaction
  pool-All pool h = rw ll.for_each_eq (
      run_each-state HasTxShape (All HasTxShape) add_transaction
        (λ x s hx hs. rw ll.add_rear_eq (All-append HasTxShape s (x ∷ []) hs (hx, tt))) pool [] h
        tt)

  pub fill_block-IsFilled :
      (s : State) (pool : List Transaction) (b : Block) (c : Transaction)
      → All HasBlockShape s.blockchain.chain
      → All HasTxShape pool
      → IsFresh b
      → HasTxShape c
      → IsFilled (fill_block s pool b c)
  unfolding fill_block
  fill_block-IsFilled s pool b c hs hp fresh hc = record {
    info = record {
      index = fresh.info.index;
      difficulty = difficulty_small s.blockchain hs;
      timestamp = fresh.info.timestamp;
      nonce = fresh.info.nonce;
      prev_hash = fresh.info.prev_hash;
    };
    contents = fresh.contents;
    list = ll.add_front (ll.for_each add_transaction pool []).2 c;
    listed = rw (fill_block, fresh.empty);
    transactions = rw ll.add_front_eq (hc, pool-All pool hp);
  }
