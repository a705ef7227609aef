-- ===== src/V2/Mine.antt =====
-- blockchain/v0.2/block_mine.c.
pub mod Found
use holbertonschool_blockcha.Prelude.{
  ℕ, zero, suc, ◌+◌, ◌%◌, ◌^◌, if◌then◌else◌, Option, none, some, List, Run, ret, ◌>>=◌,
}
use holbertonschool_blockcha.Prelude.Host.{Host}
use holbertonschool_blockcha.Crypto.{Openssl}
use holbertonschool_blockcha.Block.Difficulty.{hash_matches_difficulty}
use holbertonschool_blockcha.V1.Types.{Block}
use holbertonschool_blockcha.V1.Hash.{block_hash}

abbrev pub with_nonce : Block → ℕ → Block
with_nonce block nonce = record block { info = record block.info { nonce = nonce } }

-- What the buffer holds after a call of `block_hash` whose answer is not looked at.
abbrev pub left_in : List ℕ → Option (List ℕ) → List ℕ
left_in hash none = hash
left_in hash (some digest) = digest

module _ ⦃host : Host⦄ ⦃ssl : Openssl⦄ where
  -- `none`: the loop still runs after that many rounds.
  unfoldable pub mine_loop : ℕ → ℕ → Block → List ℕ → Run (Option Block)
  mine_loop zero nonce block hash = ret none
  mine_loop (suc rounds) nonce block hash = do
    let block' = with_nonce block nonce
    answer ← block_hash (some block')
    let hash' = left_in hash answer
    matched ← hash_matches_difficulty hash' block'.info.difficulty
    let rest = mine_loop rounds ((nonce + 1) % 2 ^ 64) block' hash'
    if matched then ret (some (record block' { hash = hash' })) else rest

  -- `unset` is what the local array holds before anything is written to it.
  unfoldable pub block_mine : ℕ → List ℕ → Block → Run (Option Block)
  block_mine rounds unset block = mine_loop rounds 0 block unset
