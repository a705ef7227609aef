-- ===== src/Memory.antt =====
-- The memory that the program gives back: block_destroy.c, blockchain_destroy.c and
-- transaction/transaction_destroy.c of blockchain/v0.3/, and cli/cleanup.c.
pub mod Freed
pub mod Cleanup
use holbertonschool_blockcha.Prelude.{
  ℕ, ◌≡◌, ◌==◌, if◌then◌else◌, Bool, false, Option, none, some, List, [], ◌∷◌, Run, ret, ub, ◌>>=◌,
}

-- Which addresses are allocated.
abbrev pub Live : Type 0
Live = ℕ → Bool

abbrev pub forget : ℕ → Live → Live
forget p live a = if a == p then false else live a

-- `free(p)` for a pointer that is not NULL: of an address that is not allocated, or not any more, it
-- is undefined behaviour.
unfoldable pub free : ℕ → Live → Run Live
free p live = if live p then ret (forget p live) else ub

-- An `llist_t` in memory, with what its nodes point to.
pub record ListAt (A : Type 0) : Type 0 where
  pub address : ℕ
  pub nodes : List A

-- The destructor on each node, and then the list.
unfoldable pub destroy_each : {A : Type 0} → (A → Live → Run Live) → List A → Live → Run Live
destroy_each destructor [] live = ret live
destroy_each destructor (x ∷ xs) live = destructor x live >>= destroy_each destructor xs

-- `llist_destroy` with 1 for `destroy_nodes`, as its manual has it. Of NULL it destroys nothing.
pub record LlistMemory : Type 1 where
  pub destroy : {A : Type 0} → Option (ListAt A) → (A → Live → Run Live) → Live → Run Live
  pub destroy_null :
      {A : Type 0} (d : A → Live → Run Live) (live : Live) → destroy none d live ≡ ret live
  pub destroy_some :
      {A : Type 0} (l : ListAt A) (d : A → Live → Run Live) (live : Live)
      → destroy (some l) d live ≡ (destroy_each d l.nodes live >>= free l.address)

-- The structures, as the addresses of their parts.
pub record TransactionAt : Type 0 where
  pub address : ℕ
  pub inputs : ListAt ℕ
  pub outputs : ListAt ℕ

pub record BlockAt : Type 0 where
  pub address : ℕ
  pub transactions : Option (ListAt TransactionAt)

pub record BlockchainAt : Type 0 where
  pub address : ℕ
  pub chain : ListAt BlockAt
  pub unspent : ListAt ℕ

pub record StateAt : Type 0 where
  pub address : ℕ
  pub wallet : Option ℕ
  pub blockchain : Option BlockchainAt
  pub tx_pool : Option (ListAt TransactionAt)

module _ ⦃lm : LlistMemory⦄ where
  unfoldable pub transaction_destroy : Option TransactionAt → Live → Run Live
  transaction_destroy none live = ret live
  transaction_destroy (some transaction) live =
      lm.destroy (some transaction.inputs) free live
      >>= lm.destroy (some transaction.outputs) free
      >>= free transaction.address

  unfoldable pub block_destroy : Option BlockAt → Live → Run Live
  block_destroy none live = ret live
  block_destroy (some block) live =
      lm.destroy block.transactions (λ t. transaction_destroy (some t)) live >>= free block.address

  unfoldable pub blockchain_destroy : Option BlockchainAt → Live → Run Live
  blockchain_destroy none live = ret live
  blockchain_destroy (some blockchain) live =
      lm.destroy (some blockchain.chain) (λ b. block_destroy (some b)) live
      >>= lm.destroy (some blockchain.unspent) free
      >>= free blockchain.address

  -- `EC_KEY_free` gives the key back.
  unfoldable pub free_key : Option ℕ → Live → Run Live
  free_key none live = ret live
  free_key (some key) live = free key live

  -- `if (state->tx_pool) llist_destroy(state->tx_pool, ...)`
  unfoldable pub pool_destroy : Option (ListAt TransactionAt) → Live → Run Live
  pool_destroy none live = ret live
  pool_destroy (some pool) live = lm.destroy (some pool) (λ t. transaction_destroy (some t)) live

  unfoldable pub cleanup : Option StateAt → Live → Run Live
  cleanup none live = ret live
  cleanup (some state) live =
      free_key state.wallet live
      >>= blockchain_destroy state.blockchain
      >>= pool_destroy state.tx_pool
      >>= free state.address
