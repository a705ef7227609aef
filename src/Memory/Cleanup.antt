-- ===== src/Memory/Cleanup.antt =====
-- The destructors and `cleanup` give back each address of a structure once, and no other.
use holbertonschool_blockcha.Prelude.{
  ℕ, ◌≡◌, refl, if◌then◌else◌, false, Option, none, some, List, [], ◌∷◌, ◌++◌, ret,
}
use holbertonschool_blockcha.Memory.{
  Live, free, ListAt, LlistMemory, TransactionAt, BlockAt, BlockchainAt, StateAt,
  transaction_destroy, block_destroy, blockchain_destroy, free_key, pool_destroy, cleanup,
}
use holbertonschool_blockcha.Memory.Freed.{
  listed, without, without_lem, AreLive, AreApart, Frees, Frees-free, Frees-none, Frees-bind,
  list_owned, Frees-destroy,
}

-- The addresses that a structure owns, in the order in which they are given back.
abbrev pub node_owned : ℕ → List ℕ
node_owned p = p ∷ []

unfoldable pub transaction_owned : TransactionAt → List ℕ
transaction_owned t =
    (list_owned node_owned (some t.inputs) ++ list_owned node_owned (some t.outputs))
    ++ t.address ∷ []

unfoldable pub block_owned : BlockAt → List ℕ
block_owned b = list_owned transaction_owned b.transactions ++ b.address ∷ []

unfoldable pub blockchain_owned : Option BlockchainAt → List ℕ
blockchain_owned none = []
blockchain_owned (some c) =
    (list_owned block_owned (some c.chain) ++ list_owned node_owned (some c.unspent))
    ++ c.address ∷ []

unfoldable pub key_owned : Option ℕ → List ℕ
key_owned none = []
key_owned (some key) = key ∷ []

unfoldable pub state_owned : StateAt → List ℕ
state_owned s =
    ((key_owned s.wallet ++ blockchain_owned s.blockchain)
      ++ list_owned transaction_owned s.tx_pool)
    ++ s.address ∷ []

module _ ⦃lm : LlistMemory⦄ where
  nodes_freed : (l : ListAt ℕ) → Frees (lm.destroy (some l) free) (list_owned node_owned (some l))
  nodes_freed l = Frees-destroy free node_owned (some l) Frees-free

  pub transaction_freed :
      (t : TransactionAt) → Frees (transaction_destroy (some t)) (transaction_owned t)
  unfolding transaction_destroy transaction_owned
  transaction_freed t =
      Frees-bind _ (free t.address) _ (t.address ∷ [])
        (Frees-bind _ _ _ _ (nodes_freed t.inputs) (nodes_freed t.outputs)) (Frees-free t.address)

  pub block_freed : (b : BlockAt) → Frees (block_destroy (some b)) (block_owned b)
  unfolding block_destroy block_owned
  block_freed b =
      Frees-bind _ (free b.address) _ (b.address ∷ [])
        (Frees-destroy (λ t. transaction_destroy (some t)) transaction_owned b.transactions
          transaction_freed)
        (Frees-free b.address)

  pub blockchain_freed :
      (c : Option BlockchainAt) → Frees (blockchain_destroy c) (blockchain_owned c)
  unfolding blockchain_destroy blockchain_owned
  blockchain_freed none = Frees-none _ (λ live. refl)
  blockchain_freed (some c) =
      Frees-bind _ (free c.address) _ (c.address ∷ [])
        (Frees-bind _ _ _ _
          (Frees-destroy (λ b. block_destroy (some b)) block_owned (some c.chain) block_freed)
          (nodes_freed c.unspent))
        (Frees-free c.address)

  key_freed : (k : Option ℕ) → Frees (free_key k) (key_owned k)
  unfolding free_key key_owned
  key_freed none = Frees-none _ (λ live. refl)
  key_freed (some key) = Frees-free key

  pool_freed :
      (pool : Option (ListAt TransactionAt))
      → Frees (pool_destroy pool) (list_owned transaction_owned pool)
  unfolding pool_destroy
  pool_freed none = Frees-none _ (λ live. refl)
  pool_freed (some pool) =
      Frees-destroy (λ t. transaction_destroy (some t)) transaction_owned (some pool)
        transaction_freed

  state_freed : (s : StateAt) → Frees (cleanup (some s)) (state_owned s)
  unfolding cleanup state_owned
  state_freed s =
      Frees-bind _ (free s.address) _ (s.address ∷ [])
        (Frees-bind _ _ _ _
          (Frees-bind _ _ _ _ (key_freed s.wallet) (blockchain_freed s.blockchain))
          (pool_freed s.tx_pool))
        (Frees-free s.address)

  -- If the addresses of the client's state are allocated and differ, `cleanup` returns, and an
  -- address is allocated afterwards exactly if it was and is none of the state: none is given back
  -- twice, none is forgotten, and no other is touched.
  pub cleanup-without :
      (s : StateAt) (live : Live)
      → AreApart (state_owned s)
      → AreLive (state_owned s) live
      → (live' : Live) × (cleanup (some s) live ≡ ret live')
        × ((a : ℕ) → live' a ≡ (if listed a (state_owned s) then false else live a))
  cleanup-without s live apart allocated = (
    without (state_owned s) live,
    state_freed s live apart allocated,
    without_lem (state_owned s) live,
  )
