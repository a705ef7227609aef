-- ===== src/V1/Valid.antt =====
-- blockchain/v0.1/block_is_valid.c.
pub mod Exact
pub mod Meaning
use holbertonschool_blockcha.Prelude.{
  ℕ, ◌+◌, ◌%◌, ◌^◌, ltb, ◌==◌, if◌then◌else◌, ◌&&◌, ◌||◌, not, Bool, true, false, Option, none,
  some, List, Run, ret, ◌>>=◌,
}
use holbertonschool_blockcha.Prelude.Bytes.{mem_eq}
use holbertonschool_blockcha.Prelude.Host.{Host}
use holbertonschool_blockcha.Crypto.{Openssl}
use holbertonschool_blockcha.Block.Types.{blockchain_data_max}
use holbertonschool_blockcha.V1.Types.{Block}
use holbertonschool_blockcha.V1.Create.{genesis_block}
use holbertonschool_blockcha.V1.Hash.{block_hash}

-- `memcmp(block, &genesis, sizeof(genesis)) == 0`, member by member, with zero padding.
unfoldable pub is_genesis : Block → Bool
is_genesis block =
    block.info.index == genesis_block.info.index
    && block.info.difficulty == genesis_block.info.difficulty
    && block.info.timestamp == genesis_block.info.timestamp
    && block.info.nonce == genesis_block.info.nonce
    && mem_eq 32 block.info.prev_hash genesis_block.info.prev_hash
    && mem_eq 1024 block.contents.buffer genesis_block.contents.buffer
    && block.contents.len == genesis_block.contents.len
    && mem_eq 32 block.hash genesis_block.hash

-- `result == NULL || memcmp(hash_verify, hash, 32) != 0`, where a result is `hash_verify`.
unfoldable pub hash_differs : Option (List ℕ) → List ℕ → Bool
hash_differs none hash = true
hash_differs (some hash_verify) hash = not (mem_eq 32 hash_verify hash)

module _ ⦃host : Host⦄ ⦃ssl : Openssl⦄ where
  -- The tests on a block that is not the first; `more` is what follows them.
  unfoldable pub check_link : Block → Block → Run ℕ → Run ℕ
  check_link block prev_block more =
      if not (block.info.index == (prev_block.info.index + 1) % 2 ^ 32) then ret 1 else do
        prev_verify ← block_hash (some prev_block)
        if hash_differs prev_verify prev_block.hash
            then ret 1
            else if not (mem_eq 32 prev_block.hash block.info.prev_hash)
            then ret 1
            else do
              hash_verify ← block_hash (some block)
              if hash_differs hash_verify block.hash
                  then ret 1
                  else if ltb blockchain_data_max block.contents.len
                  then ret 1
                  else more

  -- 0 for a valid block; any other answer, also that of `memcmp`, is 1.
  unfoldable pub block_is_valid : Option Block → Option Block → Run ℕ
  block_is_valid none prev_block = ret 1
  block_is_valid (some block) none =
      if not (block.info.index == 0) then ret 1 else ret (if is_genesis block then 0 else 1)
  block_is_valid (some block) (some prev_block) =
      if block.info.index == 0
      then ret (if is_genesis block then 0 else 1)
      else check_link block prev_block (ret 0)
