-- ===== src/V1/Create.antt =====
-- blockchain_create.c and block_create.c of blockchain/v0.1/, with GENESIS_BLOCK of blockchain.h.
-- Version 0.2 has the same code.
use holbertonschool_blockcha.Prelude.{
  ℕ, ◌+◌, ◌-◌, ◌%◌, ◌^◌, ltb, if◌then◌else◌, Option, none, some, List, [], ◌++◌, length, take,
  replicate, Run, ret, ub,
}
use holbertonschool_blockcha.Llist.{Llist}
use holbertonschool_blockcha.Block.Types.{blockchain_data_max}
use holbertonschool_blockcha.Block.Genesis.{genesis_hash, genesis_data}
use holbertonschool_blockcha.V1.Types.{Block, Blockchain}

-- The initialiser GENESIS_BLOCK.
unfoldable pub genesis_block : Block
unfolding genesis_hash genesis_data
genesis_block = record {
  info = record {
    index = 0;
    difficulty = 0;
    timestamp = 1537578000;
    nonce = 0;
    prev_hash = replicate 32 0;
  };
  contents = record { buffer = genesis_data ++ replicate 1008 0; len = 16 };
  hash = genesis_hash;
}

module _ ⦃ll : Llist⦄ where
  -- The block is zeroed first, so that the array past the copied data is zero.
  unfoldable pub blockchain_create : Blockchain
  unfolding genesis_hash genesis_data
  blockchain_create =
      let first : Block = record {
        info = record {
          index = 0;
          difficulty = 0;
          timestamp = 1537578000;
          nonce = 0;
          prev_hash = replicate 32 0;
        };
        contents = record { buffer = genesis_data ++ replicate 1008 0; len = 16 };
        hash = genesis_hash;
      } in
      record { chain = some (ll.add_front [] first) }

-- `now` is what time(NULL) returns. Fewer bytes behind `text` than are copied is a read outside it.
unfoldable pub block_create : Option Block → Option (List ℕ) → ℕ → ℕ → Run (Option Block)
block_create none text data_len now = ret none
block_create (some prev) none data_len now = ret none
block_create (some prev) (some text) data_len now =
    let max_len = if ltb blockchain_data_max data_len then blockchain_data_max else data_len in
    if ltb (length text) max_len
    then ub
    else ret (
        some (record {
          info = record {
            index = (prev.info.index + 1) % 2 ^ 32;
            difficulty = 0;
            timestamp = now % 2 ^ 64;
            nonce = 0;
            prev_hash = prev.hash;
          };
          contents = record {
            buffer = take max_len text ++ replicate (blockchain_data_max - max_len) 0;
            len = max_len;
          };
          hash = replicate 32 0;
        }))
