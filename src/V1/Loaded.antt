-- ===== src/V1/Loaded.antt =====
-- Which chain `blockchain_deserialize` of blockchain/v0.1/ makes of a file that
-- `blockchain_serialize` wrote.
use holbertonschool_blockcha.Prelude.{
  ℕ, suc, ◌+◌, ◌-◌, ◌^◌, ◌<◌, ◌≡◌, refl, true, false, Option, none, some, List, [], ◌∷◌, ◌++◌,
  append_assoc, ap, map, All, length, ret, arith, ◌>>=◌, ==_refl,
}
use holbertonschool_blockcha.Prelude.Host.{Host, get_endianness}
use holbertonschool_blockcha.Prelude.Bytes.{mem_eq_refl}
use holbertonschool_blockcha.Llist.{Llist}
use holbertonschool_blockcha.Llist.Walk.{nodes_at_lem}
use holbertonschool_blockcha.Chain.Serialize.{hblk_magic}
use holbertonschool_blockcha.V1.Types.{Block}
use holbertonschool_blockcha.V1.Serialize.{header_bytes, blockchain_serialize}
use holbertonschool_blockcha.V1.Reader.{bind-read}
use holbertonschool_blockcha.V1.Deserialize.{
  swapendian32, blocks, read_header, blockchain_deserialize,
}
use holbertonschool_blockcha.V1.Order.{differs, seen, seen_4, swapendian32_large}
use holbertonschool_blockcha.V1.Blocks.{IsBlock, loaded, block_record, bind-read_value}
use holbertonschool_blockcha.V1.RoundTrip.{records, write_blocks_lem, loop_all, loop_short}

-- A chain that can be saved: its blocks are well formed, and an int counts them.
pub record IsBlockchain (l : List Block) : Type 0 where
  pub fits : length l < 2 ^ 31
  pub blocks : All IsBlock l

same_order : (host : Host) → differs host host ≡ false
same_order host = rw (==_refl (get_endianness ⦃host = host⦄))

loaded_same : (l : List Block) → map (loaded false) l ≡ l
unfolding loaded
loaded_same [] = refl
loaded_same (b ∷ l) = ap (λ t. b ∷ t) (loaded_same l)

module _ (version : List ℕ) (three : length version ≡ 3) where
  module _ (from to : Host) ⦃ll : Llist⦄ where
    header-read :
        (n : ℕ) (rest : List ℕ)
        → read_header ⦃host = to⦄ version (header_bytes ⦃host = from⦄ version n ++ rest)
          ≡ ret (some ((seen from to 4 n, differs from to), rest))
    unfolding read_header header_bytes hblk_magic
    header-read n rest = simp (
      append_assoc,
      bind-read {n = 4} {bs = hblk_magic} refl,
      mem_eq_refl 4 hblk_magic,
      bind-read three,
      mem_eq_refl 3 version,
      bind-read {n = 1} {bs = get_endianness ⦃host = from⦄ ∷ []} refl,
      bind-read_value from to,
    )

    -- Loading runs `blocks` on what follows the header, with the number that the reader sees.
    load_lem :
        (l : List Block)
        → IsBlockchain l
        → {list : Option (List Block)}
        → blocks ⦃host = to⦄
            (seen from to 4 (length l))
            (differs from to)
            (records (block_record from) l)
          ≡ ret list
        → (blockchain_serialize ⦃host = from⦄ version true (some (record { chain = some l }))
            >>= blockchain_deserialize ⦃host = to⦄ version)
          ≡ ret (some (record { chain = list }))
    unfolding blockchain_serialize blockchain_deserialize
    load_lem l h read = rw (
      nodes_at_lem,
      write_blocks_lem from l h.blocks,
      ll.size_eq,
      blockchain_deserialize,
      header-read (length l) (records (block_record from) l),
      read,
    )

  module _ ⦃host : Host⦄ ⦃ll : Llist⦄ where
    -- With the format of versions 0.1 and 0.2 and any version of three bytes, loading what saving
    -- wrote of a chain of well-formed blocks gives that chain, on a host of either byte order.
    pub load-save :
        (l : List Block)
        → IsBlockchain l
        → (blockchain_serialize version true (some (record { chain = some l }))
            >>= blockchain_deserialize version)
          ≡ ret (some (record { chain = some l }))
    unfolding blocks
    load-save l h =
        let number : seen host host 4 (length l) ≡ length l =
          rw (same_order host) at (seen_4 host host (length l) (omega (arith, h.fits))) in
        load_lem host host l h
          (rw (number, blocks, loop_all host host l h.blocks, same_order host, loaded_same l))

  module _ (from to : Host) ⦃ll : Llist⦄ where
    -- A file of 1 to 65535 well-formed blocks that was saved on a host of the other byte order
    -- loads as a blockchain whose list is NULL.
    pub load-foreign :
        (l : List Block)
        → IsBlockchain l
        → differs from to ≡ true
        → 0 < length l
        → length l < 2 ^ 16
        → (blockchain_serialize ⦃host = from⦄ version true (some (record { chain = some l }))
            >>= blockchain_deserialize ⦃host = to⦄ version)
          ≡ ret (some (record { chain = none }))
    unfolding blocks
    load-foreign l h other nonempty small =
        let n = length l in
        let number : seen from to 4 n ≡ swapendian32 n =
          rw other at (seen_4 from to n (omega arith)) in
        let large = swapendian32_large n nonempty small in
        let rounds : swapendian32 n ≡ n + suc (swapendian32 n - n - 1) = omega (arith, large) in
        load_lem from to l h
          (rw (number, rounds, blocks, loop_short from to (swapendian32 n - n - 1) l h.blocks))
