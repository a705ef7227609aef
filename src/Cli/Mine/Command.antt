-- ===== src/Cli/Mine/Command.antt =====
-- The whole command `mine`, from the wallet and the chain to the new state.
use mathlib.Core.Option.{some-injective}
use mathlib.Core.Path.{subst, sym}
use holbertonschool_blockcha.Prelude.{
  ℕ, ◌+◌, ◌%◌, ◌^◌, ◌≤◌, ◌<◌, ◌≡◌, ◌≢◌, refl, ◌∙◌, true, none, some, List, [], ◌++◌, get_last?,
  take, replicate, ret, ◌>>=◌, arith,
}
use holbertonschool_blockcha.Prelude.Bytes.{mem_eq_refl}
use holbertonschool_blockcha.Prelude.Host.{Host}
use holbertonschool_blockcha.Llist.{Llist}
use holbertonschool_blockcha.Crypto.{Openssl, sha256, ec_to_pub}
use holbertonschool_blockcha.Transaction.Types.{Transaction}
use holbertonschool_blockcha.Transaction.Coinbase.{coinbase_create, coinbase_is_valid}
use holbertonschool_blockcha.Transaction.Coinbase.Accepted.{coinbase_create-IsValid}
use holbertonschool_blockcha.Block.Types.{Block}
use holbertonschool_blockcha.Block.Create.{block_create}
use holbertonschool_blockcha.Block.Difficulty.{blockchain_difficulty}
use holbertonschool_blockcha.Block.Mine.{with_nonce}
use holbertonschool_blockcha.Block.Mine.Found.{Wins, IsMined}
use holbertonschool_blockcha.Block.Valid.Meaning.{IsHashed}
use holbertonschool_blockcha.Cli.State.{done, State, World}
use holbertonschool_blockcha.Cli.Mine.{fill_block, append_block, mine, handle_mine}
use holbertonschool_blockcha.Cli.Mine.Succeeds.{IsReady, pool_of, mine-succeeds}
use holbertonschool_blockcha.Cli.Mine.Filter.{AllChecked}

-- The empty block that the command makes.
abbrev pub next_block : Block → ℕ → Block
next_block prev now = record {
  info = record {
    index = (prev.info.index + 1) % 2 ^ 32;
    difficulty = 0;
    timestamp = now % 2 ^ 64;
    nonce = 0;
    prev_hash = prev.hash;
  };
  contents = record { buffer = take 1024 (replicate 1024 0) ++ replicate 0 0; len = 1024 };
  transactions = some [];
  hash = replicate 32 0;
}

created :
    (prev : Block) (now : ℕ)
    → block_create (some prev) (some (replicate 1024 0)) 1024 now ≡ ret (some (next_block prev now))
unfolding block_create
created prev now = refl

module _ ⦃host : Host⦄ ⦃ll : Llist⦄ ⦃ssl : Openssl⦄ where
  -- The state of a client that can mine: it holds the key `key`, `prev` is the tail of its chain and
  -- is hashed, and the checks of its pool's transactions end without undefined behaviour.
  pub record CanMine (s : State) (key : ssl.EcKey) (pubkey : List ℕ) (prev : Block) : Type 0 where
    pub wallet : s.wallet ≡ some key
    pub known : ec_to_pub (some key) ≡ some pubkey
    pub tail : get_last? s.blockchain.chain ≡ some prev
    pub room : prev.info.index + 1 < 2 ^ 32
    pub prev_hashed : IsHashed prev
    pub pool : AllChecked s.blockchain.unspent s.tx_pool
    pub easy : blockchain_difficulty (some s.blockchain) ≤ 256

  coinbase_valid :
      (s : State) (key : ssl.EcKey) (pubkey : List ℕ) (prev : Block) (i : ℕ) (c : Transaction)
      → ((t : List ℕ) → sha256 t ≢ none)
      → CanMine s key pubkey prev
      → coinbase_create (some key) i ≡ some c
      → coinbase_is_valid (some c) i ≡ true
  coinbase_valid s key pubkey prev i c digests h made =
      let (tx, made', valid) = coinbase_create-IsValid (some key) pubkey i h.known digests in
      let same : tx ≡ c = some-injective tx c (sym made' ∙ made) in
      subst (λ x. coinbase_is_valid (some x) i ≡ true) same valid

  ready :
      (w : World) (s : State) (key : ssl.EcKey) (pubkey : List ℕ) (prev : Block) (c : Transaction)
      → ((t : List ℕ) → sha256 t ≢ none)
      → CanMine s key pubkey prev
      → coinbase_create (some key) ((prev.info.index + 1) % 2 ^ 32) ≡ some c
      → IsReady s prev (next_block prev w.now) c
  ready w s key pubkey prev c digests h made = record {
    index = refl;
    later = omega (arith, h.room);
    linked = mem_eq_refl 32 prev.hash;
    prev_hashed = h.prev_hashed;
    fits = omega arith;
    empty = refl;
    coinbase = coinbase_valid s key pubkey prev _ c digests h made;
    pool = h.pool;
    easy = h.easy;
  }

  -- Past its tests the command is `mine`.
  reaches_mine :
      (w : World) (s : State) (key : ssl.EcKey) (prev b : Block) (c : Transaction)
      → s.wallet ≡ some key
      → ll.get_tail s.blockchain.chain ≡ some prev
      → block_create (some prev) (some (replicate 1024 0)) 1024 w.now ≡ ret (some b)
      → coinbase_create (some key) b.info.index ≡ some c
      → coinbase_is_valid (some c) b.info.index ≡ true
      → handle_mine w s ≡ mine w s b (some prev) c
  unfolding handle_mine
  reaches_mine w s key prev b c wallet tail new made valid =
      simp (handle_mine, wallet) (rw (tail, new, ◌>>=◌, made, valid, tail))

  -- With a key whose public key is known, a hashed tail of the chain whose index is below 2 ^ 32 -
  -- 1, a pool whose checks end, a difficulty of at most 256, a digest that does not fail, and a
  -- nonce below 2 ^ 64 that wins for the next block with the coinbase and exactly the valid
  -- transactions of the pool, the command `mine` succeeds in more rounds than that nonce and
  -- appends that block with the first nonce that wins.
  pub handle_mine-succeeds :
      (w : World) (s : State) (key : ssl.EcKey) (pubkey : List ℕ) (prev : Block) (c : Transaction)
      (n : ℕ) (d : List ℕ)
      → ((t : List ℕ) → sha256 t ≢ none)
      → CanMine s key pubkey prev
      → coinbase_create (some key) ((prev.info.index + 1) % 2 ^ 32) ≡ some c
      → n < w.rounds
      → n < 2 ^ 64
      → Wins (with_nonce (fill_block s (pool_of s) (next_block prev w.now) c) n) d
      → (m : Block) × (handle_mine w s ≡ ret (some (done, append_block s m)))
        × IsMined 0 (fill_block s (pool_of s) (next_block prev w.now) c) m
  handle_mine-succeeds w s key pubkey prev c n d digests h made h1 h2 wins =
      let (m, runs, mined) =
        mine-succeeds w s prev (next_block prev w.now) c n d digests
          (ready w s key pubkey prev c digests h made) h1 h2 wins in
      (
        m,
        reaches_mine w s key prev (next_block prev w.now) c h.wallet
              (ll.get_tail_eq s.blockchain.chain ∙ h.tail) (created prev w.now) made
              (coinbase_valid s key pubkey prev _ c digests h made)
            ∙ runs,
        mined,
      )
