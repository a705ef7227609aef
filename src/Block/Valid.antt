-- ===== src/Block/Valid.antt =====
-- blockchain/v0.3/block_is_valid.c.
pub mod Exact
pub mod Meaning
use holbertonschool_blockcha.Prelude.{
  ℕ, zero, suc, ◌+◌, ◌%◌, ◌^◌, ltb, ◌==◌, if◌then◌else◌, ◌&&◌, ◌||◌, not, Bool, true, false, Option,
  none, some, List, [], ◌∷◌, replicate, Run, ret, ◌>>=◌,
}
use holbertonschool_blockcha.Prelude.Bytes.{mem_eq}
use holbertonschool_blockcha.Prelude.Host.{Host}
use holbertonschool_blockcha.Llist.{Llist}
use holbertonschool_blockcha.Llist.Walk.{nodes_at}
use holbertonschool_blockcha.Crypto.{Openssl}
use holbertonschool_blockcha.Transaction.Types.{UnspentTxOut, Transaction}
use holbertonschool_blockcha.Transaction.Valid.{transaction_is_valid}
use holbertonschool_blockcha.Transaction.Coinbase.{coinbase_is_valid}
use holbertonschool_blockcha.Block.Types.{Block, blockchain_data_max}
use holbertonschool_blockcha.Block.Genesis.{genesis_block}
use holbertonschool_blockcha.Block.Hash.{block_hash}
use holbertonschool_blockcha.Block.Difficulty.{hash_matches_difficulty}

-- `memcmp(block, &genesis, sizeof(genesis)) == 0`, member by member: padding is taken to be zero,
-- and `transactions` is compared as a pointer with NULL.
unfoldable pub is_genesis : Block → Bool
is_genesis block =
    block.info.index == genesis_block.info.index
    && block.info.difficulty == genesis_block.info.difficulty
    && block.info.timestamp == genesis_block.info.timestamp
    && block.info.nonce == genesis_block.info.nonce
    && mem_eq 32 block.info.prev_hash genesis_block.info.prev_hash
    && mem_eq 1024 block.contents.buffer genesis_block.contents.buffer
    && block.contents.len == genesis_block.contents.len
    && (elim block.transactions [ none ↦ true | some _ ↦ false ])
    && mem_eq 32 block.hash genesis_block.hash

module _ ⦃host : Host⦄ ⦃ll : Llist⦄ ⦃ssl : Openssl⦄ where
  -- The loop from `i` on: whether every transaction passed.
  unfoldable pub validate_loop : ℕ → ℕ → List Transaction → Option (List UnspentTxOut) → Run Bool
  validate_loop block_index i [] unspent = ret true
  validate_loop block_index zero (node ∷ rest) unspent =
      let next = validate_loop block_index 1 rest unspent in
      if not (coinbase_is_valid (some node) block_index) then ret false else next
  validate_loop block_index (suc i) (node ∷ rest) unspent =
      let next = validate_loop block_index (suc (suc i)) rest unspent in
      transaction_is_valid (some node) unspent >>= λ valid. if not valid then ret false else next

  -- `true` is 0, `false` is -1; the size of NULL is -1, so NULL counts as no transactions.
  unfoldable pub validate_transactions : Block → Option (List UnspentTxOut) → Run Bool
  validate_transactions block unspent = elim block.transactions [
    | none ↦ ret false
    | some transactions ↦
        (validate_loop block.info.index 0 (nodes_at transactions) unspent >>= λ valid.
        ret (valid && not (ll.size transactions == 0)))
  ]

  -- The tests on the block itself, after those on the block before it.
  unfoldable pub check_block : Block → Option (List UnspentTxOut) → Run ℕ
  check_block block all_unspent = do
    hash_verify ← block_hash block (replicate 32 0)
    if not (mem_eq 32 hash_verify block.hash)
        then ret 1
        else if ltb blockchain_data_max block.contents.len
        then ret 1
        else do
          matches ← hash_matches_difficulty block.hash block.info.difficulty
          if not matches
              then ret 1
              else do valid ← validate_transactions block all_unspent; ret (if valid then 0 else 1)

  unfoldable pub check_link : Block → Block → Option (List UnspentTxOut) → Run ℕ
  check_link block prev_block all_unspent =
      if not (block.info.index == (prev_block.info.index + 1) % 2 ^ 32) then ret 1 else do
        hash_verify ← block_hash prev_block (replicate 32 0)
        if not (mem_eq 32 hash_verify prev_block.hash)
              || not (mem_eq 32 prev_block.hash block.info.prev_hash)
            then ret 1
            else check_block block all_unspent

  -- 0 for a valid block; any other answer, also that of `memcmp`, is 1.
  unfoldable pub block_is_valid : Option Block → Option Block → Option (List UnspentTxOut) → Run ℕ
  block_is_valid none prev_block all_unspent = ret 1
  block_is_valid (some block) none all_unspent =
      if not (block.info.index == 0) then ret 1 else ret (if is_genesis block then 0 else 1)
  block_is_valid (some block) (some prev_block) all_unspent =
      if block.info.index == 0
      then ret (if is_genesis block then 0 else 1)
      else check_link block prev_block all_unspent
