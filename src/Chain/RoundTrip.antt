-- ===== src/Chain/RoundTrip.antt =====
-- What `blockchain_serialize` saved is what `blockchain_deserialize` loads.
mod Parts
mod Blocks
use holbertonschool_blockcha.Prelude.{
  ℕ, ◌≡◌, refl, Bool, true, none, some, List, [], ◌∷◌, ◌++◌, append_assoc, length, All, Run, ret,
  ◌>>=◌, arith,
}
use holbertonschool_blockcha.Prelude.Bytes.{mem_eq}
use holbertonschool_blockcha.Prelude.Host.{Host}
use holbertonschool_blockcha.Llist.{Llist}
use holbertonschool_blockcha.Llist.Walk.{nodes_at_lem}
use holbertonschool_blockcha.Block.Types.{Block, Blockchain}
use holbertonschool_blockcha.Chain.Serialize.{
  BlockHeader, header_bytes, init_block_header, unspent_bytes, write_all, block_bytes, write_blocks,
  blockchain_serialize,
}
use holbertonschool_blockcha.Chain.Reader.{fread_loop, bind-fread}
use holbertonschool_blockcha.Chain.Deserialize.{
  check_header, read_header, read_block, read_unspent, read_blockchain, blockchain_deserialize,
}
use holbertonschool_blockcha.Chain.WellFormed.{IsBlock, IsUnspent, IsBlockchain}
use Parts.{Reads, bind-Reads, bind-Reads_end, bind-fread_value, unspent-Reads, loop-Reads}
use Blocks.{block_record, block_bytes_lem, block-Reads}

module _ ⦃host : Host⦄ ⦃ll : Llist⦄ where
  write_blocks_lem :
      (l : List Block) → All IsBlock l → write_blocks l ≡ ret (write_all block_record l)
  unfolding write_blocks write_all
  write_blocks_lem [] h = refl
  write_blocks_lem (b ∷ l) (hb, hl) = rw (block_bytes_lem b hb, write_blocks_lem l hl)

  -- The header that `blockchain_serialize` writes.
  abbrev header_of : Blockchain → BlockHeader
  header_of c = record init_block_header { blocks = length c.chain; unspent = length c.unspent }

  header-Reads :
      (c : Blockchain)
      → IsBlockchain c
      → Reads read_header (header_bytes (header_of c)) (header_of c)
  unfolding read_header header_bytes init_block_header
  header-Reads c h rest = simp (
    append_assoc,
    bind-fread {n = 4} {bs = init_block_header.magic} refl,
    bind-fread {n = 3} {bs = init_block_header.version} refl,
    bind-fread {n = 1} {bs = init_block_header.endian ∷ []} refl,
    bind-fread_value 4 (length c.chain) h.chain_fits,
    bind-fread_value 4 (length c.unspent) h.unspent_fits,
  )

  -- The whole file, as it was written.
  abbrev file_of : Blockchain → List ℕ
  file_of c =
      header_bytes (header_of c)
      ++ (write_all block_record c.chain ++ write_all unspent_bytes c.unspent)

  serialize-file :
      (c : Blockchain)
      → IsBlockchain c
      → blockchain_serialize true (some c) ≡ ret (some (file_of c))
  unfolding blockchain_serialize
  serialize-file c h =
      rw (ll.size_eq, ll.size_eq, nodes_at_lem, nodes_at_lem, write_blocks_lem c.chain h.chain)

  -- The header passes the test that `blockchain_deserialize` makes of it.
  check_header-written : (c : Blockchain) → check_header (header_of c) ≡ true
  unfolding check_header init_block_header mem_eq
  check_header-written c = refl

  read-file : (c : Blockchain) → IsBlockchain c → read_blockchain (file_of c) ≡ ret (some c, [])
  unfolding read_blockchain
  read-file c h = simp (
    bind-Reads read_header (header_bytes (header_of c)) (header-Reads c h),
    check_header-written c,
    bind-Reads (fread_loop read_block ll.add_rear (length c.chain) [])
        (write_all block_record c.chain)
        (loop-Reads read_block block_record IsBlock block-Reads c.chain [] h.chain),
    bind-Reads_end (fread_loop read_unspent ll.add_rear (length c.unspent) [])
        (write_all unspent_bytes c.unspent)
        (loop-Reads read_unspent unspent_bytes IsUnspent unspent-Reads c.unspent [] h.unspent),
  )

  -- For a well-formed chain, loading what saving wrote gives exactly that chain and its unspent
  -- outputs, on a host of either byte order.
  pub deserialize-serialize :
      (c : Blockchain)
      → IsBlockchain c
      → (blockchain_serialize true (some c) >>= blockchain_deserialize) ≡ ret (some c)
  unfolding blockchain_deserialize
  deserialize-serialize c h = rw (serialize-file c h, blockchain_deserialize, read-file c h)
