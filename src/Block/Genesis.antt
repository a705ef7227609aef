-- ===== src/Block/Genesis.antt =====
-- GENESIS_BLOCK and GENESIS_HASH of blockchain/v0.3/blockchain.h, and blockchain_create.c.
use holbertonschool_blockcha.Prelude.{ℕ, none, List, [], ◌∷◌, ◌++◌, replicate}
use holbertonschool_blockcha.Llist.{Llist}
use holbertonschool_blockcha.Block.Types.{Block, Blockchain}

unfoldable pub genesis_hash : List ℕ
genesis_hash =
    0xc5 ∷ 0x2c ∷ 0x26 ∷ 0xc8 ∷ 0xb5 ∷ 0x46 ∷ 0x16 ∷ 0x39 ∷ 0x63 ∷ 0x5d ∷ 0x8e ∷ 0xdf ∷ 0x2a ∷ 0x97
    ∷ 0xd4 ∷ 0x8d ∷ 0x0c ∷ 0x8e ∷ 0x00 ∷ 0x09 ∷ 0xc8 ∷ 0x17 ∷ 0xf2 ∷ 0xb1 ∷ 0xd3 ∷ 0xd7 ∷ 0xff
    ∷ 0x2f ∷ 0x04 ∷ 0x51 ∷ 0x58 ∷ 0x03 ∷ []

-- "Holberton School"
unfoldable pub genesis_data : List ℕ
genesis_data =
    b'H' ∷ b'o' ∷ b'l' ∷ b'b' ∷ b'e' ∷ b'r' ∷ b't' ∷ b'o' ∷ b'n' ∷ b' ' ∷ b'S' ∷ b'c' ∷ b'h' ∷ b'o'
    ∷ b'o' ∷ b'l' ∷ []

-- The initialiser GENESIS_BLOCK.
unfoldable pub genesis_block : Block
unfolding genesis_hash genesis_data
genesis_block = record {
  info = record {
    index = 0;
    difficulty = 0;
    timestamp = 1537578000;
    nonce = 0;
    prev_hash = replicate 32 0;
  };
  contents = record { buffer = genesis_data ++ replicate 1008 0; len = 16 };
  transactions = none;
  hash = genesis_hash;
}

-- The zeroed block of `blockchain_create`, field by field.
abbrev zero_block : Block
zero_block = record {
  info = record { index = 0; difficulty = 0; timestamp = 0; nonce = 0; prev_hash = replicate 32 0 };
  contents = record { buffer = replicate 1024 0; len = 0 };
  transactions = none;
  hash = replicate 32 0;
}

module _ ⦃ll : Llist⦄ where
  unfoldable pub blockchain_create : Blockchain
  unfolding genesis_hash genesis_data
  blockchain_create =
      let first : Block = record zero_block {
        info = record zero_block.info { timestamp = 1537578000 };
        contents = record { buffer = genesis_data ++ replicate 1008 0; len = 16 };
        hash = genesis_hash;
      } in
      record { chain = ll.add_front [] first; unspent = [] }
