-- ===== src/Block/Create.antt =====
-- blockchain/v0.3/block_create.c.
use holbertonschool_blockcha.Prelude.{
  ℕ, ◌+◌, ◌-◌, ◌%◌, ◌^◌, ltb, if◌then◌else◌, Option, none, some, List, [], ◌++◌, length, take,
  replicate, Run, ret, ub,
}
use holbertonschool_blockcha.Block.Types.{Block, blockchain_data_max}

-- `now` is what time(NULL) returns. Fewer bytes behind `text` than are copied is a read outside it.
unfoldable pub block_create : Option Block → Option (List ℕ) → ℕ → ℕ → Run (Option Block)
block_create none text data_len now = ret none
block_create (some prev) none data_len now = ret none
block_create (some prev) (some text) data_len now =
    let max_len = if ltb blockchain_data_max data_len then blockchain_data_max else data_len in
    if ltb (length text) max_len
    then ub
    else ret (
        some (record {
          info = record {
            index = (prev.info.index + 1) % 2 ^ 32;
            difficulty = 0;
            timestamp = now % 2 ^ 64;
            nonce = 0;
            prev_hash = prev.hash;
          };
          contents = record {
            buffer = take max_len text ++ replicate (blockchain_data_max - max_len) 0;
            len = max_len;
          };
          transactions = some [];
          hash = replicate 32 0;
        }))
