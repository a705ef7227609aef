-- ===== src/V1/Deserialize.antt =====
-- blockchain/v0.1/blockchain_deserialize.c and SWAPENDIAN32 of blockchain.h. Version 0.2 has the
-- same code and its own HBLK_VERSION, which is the first argument.
use holbertonschool_blockcha.Prelude.{
  ℕ, zero, suc, ◌+◌, ◌-◌, ◌*◌, ◌/◌, ◌%◌, ◌^◌, ◌==◌, if◌then◌else◌, not, Bool, Option, none, some,
  List, [], ◌++◌, get_or, replicate, Run, ret, ub,
}
use holbertonschool_blockcha.Prelude.Bytes.{mem_eq}
use holbertonschool_blockcha.Prelude.Host.{Host, value_of, get_endianness}
use holbertonschool_blockcha.Llist.{Llist}
use holbertonschool_blockcha.Block.Types.{BlockInfo, blockchain_data_max}
use holbertonschool_blockcha.Chain.Serialize.{hblk_magic}
use holbertonschool_blockcha.V1.Types.{Block, Blockchain}
use holbertonschool_blockcha.V1.Reader.{Reader, ◌>>=◌, pure, failed, read, read_into}

-- The four bytes that the masks select, shifted into place; a wider integer loses all others.
unfoldable pub swapendian32 : ℕ → ℕ
swapendian32 x =
    x / 2 ^ 24 % 256 + x / 2 ^ 16 % 256 * 2 ^ 8 + x / 2 ^ 8 % 256 * 2 ^ 16 + x % 256 * 2 ^ 24

-- What the fields become once `endianness` says that the bytes are in the other order.
unfoldable pub swap_info : Bool → BlockInfo → BlockInfo
unfolding swapendian32
swap_info endianness info =
    if endianness
    then record info {
      index = swapendian32 info.index;
      difficulty = swapendian32 info.difficulty;
      timestamp = swapendian32 info.timestamp;
      nonce = swapendian32 info.nonce;
    }
    else info

module _ ⦃host : Host⦄ where
  unfoldable pub read_value : ℕ → Reader ℕ
  read_value w = do bs ← read w; pure (value_of bs)

  -- One read of 56 bytes in the source.
  unfoldable pub read_info : Reader BlockInfo
  read_info = do
    index ← read_value 4
    difficulty ← read_value 4
    timestamp ← read_value 8
    nonce ← read_value 8
    prev_hash ← read 32
    pure (record {
      index = index;
      difficulty = difficulty;
      timestamp = timestamp;
      nonce = nonce;
      prev_hash = prev_hash;
    })

  -- One round of the loop of `blocks`.
  unfoldable pub read_block : Bool → Reader Block
  unfolding swapendian32
  read_block endianness = do
    info ← read_info
    tmp_len ← read_value 4
    let len = if endianness then swapendian32 tmp_len else tmp_len
    buffer ← read_into blockchain_data_max len
    hash ← read 32
    pure (record {
      info = swap_info endianness info;
      contents = record { buffer = buffer ++ replicate (blockchain_data_max - len) 0; len = len };
      hash = hash;
    })

  -- The reads up to the number of blocks: that number, and whether the byte orders differ.
  unfoldable pub read_header : List ℕ → Reader (ℕ × Bool)
  unfolding hblk_magic
  read_header version = do
    magic ← read 4
    if not (mem_eq 4 magic hblk_magic) then failed else do
      saved_version ← read 3
      if not (mem_eq 3 saved_version version) then failed else do
        endianness ← read 1
        size ← read_value 4
        pure (size, not (get_or endianness 0 0 == get_endianness))

module _ ⦃host : Host⦄ ⦃ll : Llist⦄ where
  -- The loop of `blocks`, with the rounds that are left.
  unfoldable pub blocks_loop : ℕ → Bool → List Block → Reader (List Block)
  blocks_loop zero endianness list file = ret (some (list, file))
  blocks_loop (suc n) endianness list file = elim (read_block endianness file) [
    | ub ↦ ub
    | ret none ↦ ret none
    | ret (some (block, file')) ↦ blocks_loop n endianness (ll.add_rear list block) file'
  ]

  -- `none` is NULL.
  unfoldable pub blocks : ℕ → Bool → List ℕ → Run (Option (List Block))
  blocks size endianness file = elim (blocks_loop size endianness [] file) [
    | ub ↦ ub
    | ret none ↦ ret none
    | ret (some (list, file')) ↦ ret (some list)
  ]

  -- A `file` of `none` could not be opened. The test after `blocks` is on the chain's own pointer
  -- and not on the list, so a list that is NULL is kept.
  unfoldable pub blockchain_deserialize : List ℕ → Option (List ℕ) → Run (Option Blockchain)
  blockchain_deserialize version none = ret none
  blockchain_deserialize version (some file) = elim (read_header version file) [
    | ub ↦ ub
    | ret none ↦ ret none
    | ret (some ((size, endianness), file')) ↦ elim (blocks size endianness file') [
      | ub ↦ ub
      | ret list ↦ ret (some (record { chain = list }))
    ]
  ]
