-- ===== src/V2/Valid.antt =====
-- blockchain/v0.2/block_is_valid.c: the tests of version 0.1 and then that of the difficulty.
pub mod Exact
pub mod Meaning
use holbertonschool_blockcha.Prelude.{
  ℕ, ◌==◌, if◌then◌else◌, not, Option, none, some, Run, ret, ◌>>=◌,
}
use holbertonschool_blockcha.Prelude.Host.{Host}
use holbertonschool_blockcha.Crypto.{Openssl}
use holbertonschool_blockcha.Block.Difficulty.{hash_matches_difficulty}
use holbertonschool_blockcha.V1.Types.{Block}
use holbertonschool_blockcha.V1.Valid.{is_genesis, check_link}

module _ ⦃host : Host⦄ ⦃ssl : Openssl⦄ where
  unfoldable pub check_difficulty : Block → Run ℕ
  check_difficulty block = do
    matches ← hash_matches_difficulty block.hash block.info.difficulty
    if not matches then ret 1 else ret 0

  unfoldable pub block_is_valid : Option Block → Option Block → Run ℕ
  block_is_valid none prev_block = ret 1
  block_is_valid (some block) none =
      if not (block.info.index == 0) then ret 1 else ret (if is_genesis block then 0 else 1)
  block_is_valid (some block) (some prev_block) =
      if block.info.index == 0
      then ret (if is_genesis block then 0 else 1)
      else check_link block prev_block (check_difficulty block)
