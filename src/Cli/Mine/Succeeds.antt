-- ===== src/Cli/Mine/Succeeds.antt =====
-- When the command `mine` succeeds.
use mathlib.Core.Path.{subst, sym}
use holbertonschool_blockcha.Prelude.{
  ℕ, ◌%◌, ◌+◌, ◌^◌, ◌≤◌, ◌<◌, ◌≡◌, ◌≢◌, refl, ◌∙◌, true, none, some, List, [], ◌∷◌, ◌++◌,
  append_assoc, append-nil, replicate, ret,
}
use holbertonschool_blockcha.Prelude.Bytes.{mem_eq, mem_eq_refl}
use holbertonschool_blockcha.Prelude.Host.{Host}
use holbertonschool_blockcha.Llist.{Llist, run_each}
use holbertonschool_blockcha.Crypto.{Openssl, sha256}
use holbertonschool_blockcha.Transaction.Types.{Transaction}
use holbertonschool_blockcha.Transaction.Coinbase.{coinbase_is_valid}
use holbertonschool_blockcha.Block.Types.{Block}
use holbertonschool_blockcha.Block.Hash.{block_hash}
use holbertonschool_blockcha.Block.Difficulty.{blockchain_difficulty}
use holbertonschool_blockcha.Block.Mine.{with_nonce}
use holbertonschool_blockcha.Block.Mine.Found.{Wins, IsMined, block_mine-finds}
use holbertonschool_blockcha.Block.Valid.{block_is_valid}
use holbertonschool_blockcha.Block.Valid.Meaning.{
  IsHashed, IsNext, AreTransactions, listed, block_is_valid_iff,
}
use holbertonschool_blockcha.Cli.State.{done, State, World}
use holbertonschool_blockcha.Cli.Mine.Filter.{
  AllChecked, valid_ones, drop_invalid-filter, valid_ones-AllValid,
}
use holbertonschool_blockcha.Cli.Mine.{add_transaction, fill_block, append_block, mine}

module _ ⦃host : Host⦄ ⦃ll : Llist⦄ ⦃ssl : Openssl⦄ where
  add_all :
      (pool acc : List Transaction) → run_each add_transaction pool acc ≡ (0, pool, acc ++ pool)
  unfolding run_each add_transaction
  add_all [] acc = rw append-nil
  add_all (t ∷ pool) acc = simp (ll.add_rear_eq, add_all pool, append_assoc)

  -- What the command has at hand: a new block after `prev`, a coinbase for it, and transactions in the
  -- pool whose checks end.
  pub record IsReady (s : State) (prev b : Block) (c : Transaction) : Type 0 where
    pub index : b.info.index ≡ (prev.info.index + 1) % 2 ^ 32
    pub later : b.info.index ≢ 0
    pub linked : mem_eq 32 prev.hash b.info.prev_hash ≡ true
    pub prev_hashed : IsHashed prev
    pub fits : b.contents.len ≤ 1024
    pub empty : b.transactions ≡ some []
    pub coinbase : coinbase_is_valid (some c) b.info.index ≡ true
    pub pool : AllChecked s.blockchain.unspent s.tx_pool
    pub easy : blockchain_difficulty (some s.blockchain) ≤ 256

  -- The valid transactions of the pool.
  abbrev pub pool_of : State → List Transaction
  pool_of s = valid_ones s.blockchain.unspent s.tx_pool

  filled :
      (s : State) (pool : List Transaction) (b : Block) (c : Transaction)
      → b.transactions ≡ some []
      → (fill_block s pool b c).transactions ≡ some (c ∷ pool)
  unfolding fill_block
  filled s pool b c h = simp (h, ll.for_each_eq, add_all pool [], ll.add_front_eq)

  hash_unused :
      (b : Block) (d buf : List ℕ) → block_hash (record b { hash = d }) buf ≡ block_hash b buf
  unfolding block_hash
  hash_unused b d buf = refl

  mined-IsNext :
      (s : State) (prev b m : Block) (c : Transaction)
      → IsReady s prev b c
      → IsMined 0 (fill_block s (pool_of s) b c) m
      → IsNext (some s.blockchain.unspent) prev m
  unfolding fill_block
  mined-IsNext s prev b m c r w =
      let filled_block = fill_block s (pool_of s) b c in
      let listed_all : AreTransactions b.info.index (some s.blockchain.unspent)
          filled_block.transactions =
        subst (λ o. AreTransactions b.info.index (some s.blockchain.unspent) o)
          (sym (filled s (pool_of s) b c r.empty))
          (listed c (pool_of s) r.coinbase
            (valid_ones-AllValid s.blockchain.unspent s.tx_pool r.pool)) in
      subst (λ x. IsNext (some s.blockchain.unspent) prev x) (sym w.mined)
        (record {
          index = r.index;
          prev_hashed = r.prev_hashed;
          linked = r.linked;
          hashed = record {
            digest = w.digest;
            hashed =
                hash_unused (with_nonce filled_block w.nonce) w.digest (replicate 32 0)
                ∙ w.wins.hashed (replicate 32 0);
            stored = mem_eq_refl 32 w.digest;
          };
          fits = r.fits;
          difficult = w.wins.matched;
          transactions = listed_all;
        })

  mined_later :
      (s : State) (b m : Block) (c : Transaction)
      → b.info.index ≢ 0
      → IsMined 0 (fill_block s (pool_of s) b c) m
      → m.info.index ≢ 0
  unfolding fill_block
  mined_later s b m c h w = subst (λ x. x.info.index ≢ 0) (sym w.mined) h

  -- A new block after `prev` is mined with the valid transactions of the pool: if the digest does not
  -- fail and the nonce `n` wins for the filled block, then with more rounds than `n` the command
  -- ends, having appended the filled block with the first nonce that wins and its hash.
  pub mine-succeeds :
      (w : World) (s : State) (prev b : Block) (c : Transaction) (n : ℕ) (d : List ℕ)
      → ((t : List ℕ) → sha256 t ≢ none)
      → IsReady s prev b c
      → n < w.rounds
      → n < 2 ^ 64
      → Wins (with_nonce (fill_block s (pool_of s) b c) n) d
      → (m : Block) × (mine w s b (some prev) c ≡ ret (some (done, append_block s m)))
        × IsMined 0 (fill_block s (pool_of s) b c) m
  unfolding mine fill_block
  mine-succeeds w s prev b c n d digests r h1 h2 wins =
      let (m, runs, mined) =
        block_mine-finds w.rounds n (fill_block s (pool_of s) b c) w.unset d digests r.fits r.easy
          h1 h2 wins in
      let valid : block_is_valid (some m) (some prev) (some s.blockchain.unspent) ≡ ret 0 =
        (block_is_valid_iff (some s.blockchain.unspent) prev m
            (mined_later s b m c r.later mined)).1
          (mined-IsNext s prev b m c r mined) in
      (m, rw (mine, drop_invalid-filter s.blockchain.unspent s.tx_pool r.pool, runs, valid), mined)
