-- ===== src/V1/Destroy.antt =====
-- block_destroy.c, blockchain_destroy.c and provided/_blockchain_destroy.c of blockchain/v0.1/, which
-- are those of blockchain/v0.2/ too.
use holbertonschool_blockcha.Prelude.{ℕ, Option, none, some, [], ◌∷◌, ◌++◌, Run, ret, ◌>>=◌}
use holbertonschool_blockcha.Memory.{Live, free, ListAt, LlistMemory}
use holbertonschool_blockcha.Memory.Freed.{Frees, Frees-free, Frees-bind, Frees-destroy, list_owned}
use holbertonschool_blockcha.Memory.Cleanup.{node_owned}

-- A blockchain in memory: a block is one piece of it.
pub record BlockchainAt : Type 0 where
  pub address : ℕ
  pub chain : ListAt ℕ

unfoldable pub block_destroy : Option ℕ → Live → Run Live
block_destroy none live = ret live
block_destroy (some block) live = free block live

module _ ⦃lm : LlistMemory⦄ where
  -- With NULL for the destructor, `llist_destroy` calls `free`.
  unfoldable pub blockchain_destroy : Option BlockchainAt → Live → Run Live
  blockchain_destroy none live = ret live
  blockchain_destroy (some blockchain) live =
      lm.destroy (some blockchain.chain) free live >>= free blockchain.address

  -- The addresses that it owns are given back once, and no other.
  pub blockchain_destroy-Frees :
      (c : BlockchainAt)
      → Frees (blockchain_destroy (some c)) (list_owned node_owned (some c.chain) ++ c.address ∷ [])
  unfolding blockchain_destroy
  blockchain_destroy-Frees c =
      Frees-bind _ (free c.address) _ (c.address ∷ [])
        (Frees-destroy free node_owned (some c.chain) Frees-free) (Frees-free c.address)
