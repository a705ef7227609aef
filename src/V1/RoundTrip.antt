-- ===== src/V1/RoundTrip.antt =====
-- Files that `blockchain_serialize` of blockchain/v0.1/ wrote, loaded by `blockchain_deserialize` on a
-- machine of the same byte order or of the other one. The version is any three bytes, so that this
-- holds of version 0.2 too.
use holbertonschool_blockcha.Prelude.{
  ℕ, suc, ◌+◌, ◌≡◌, refl, le→ltb, none, some, List, [], ◌∷◌, ◌++◌, append_assoc, append-nil, ap,
  ◌∙◌, map, All, length, ret, arith, ◌>>=◌,
}
use holbertonschool_blockcha.Prelude.Host.{Host}
use holbertonschool_blockcha.Llist.{Llist}
use holbertonschool_blockcha.V1.Types.{Block}
use holbertonschool_blockcha.V1.Serialize.{block_bytes, write_blocks}
use holbertonschool_blockcha.V1.Reader.{read}
use holbertonschool_blockcha.V1.Deserialize.{read_value, read_info, read_block, blocks_loop, blocks}
use holbertonschool_blockcha.V1.Order.{differs}
use holbertonschool_blockcha.V1.Blocks.{IsBlock, loaded, block_record, block-read}

-- What a loop of writes leaves in the file.
abbrev pub records : (Block → List ℕ) → List Block → List ℕ
records write [] = []
records write (b ∷ l) = write b ++ records write l

pub write_blocks_lem :
    (from : Host) (l : List Block)
    → All IsBlock l
    → write_blocks ⦃host = from⦄ l ≡ ret (records (block_record from) l)
unfolding write_blocks block_bytes
write_blocks_lem from [] h = refl
write_blocks_lem from (b ∷ l) (hb, hl) = rw (
  write_blocks,
  block_bytes,
  le→ltb 1024 b.contents.len hb.contents.len,
  write_blocks_lem from l hl,
)

module _ (from to : Host) ⦃ll : Llist⦄ where
  -- The loop reads the blocks that were written, and goes on with the rounds that are left.
  loop_lem :
      (more : ℕ) (l done : List Block)
      → All IsBlock l
      → (rest : List ℕ)
      → blocks_loop ⦃host = to⦄
          (length l + more)
          (differs from to)
          done
          (records (block_record from) l ++ rest)
        ≡ blocks_loop ⦃host = to⦄ more
            (differs from to)
            (done ++ map (loaded (differs from to)) l)
            rest
  unfolding blocks_loop
  loop_lem more [] done h rest =
      let none_read : length {A = Block} [] + more ≡ more = omega arith in
      rw (none_read, append-nil)
  loop_lem more (b ∷ l) done (hb, hl) rest =
      let count : length (b ∷ l) + more ≡ suc (length l + more) = omega arith in
      rw
        (
          count,
          append_assoc (block_record from b) (records (block_record from) l) rest,
          blocks_loop,
          block-read from to b hb,
          ll.add_rear_eq,
        )
        (loop_lem more l (done ++ loaded (differs from to) b ∷ []) hl rest
          ∙ ap (λ t. blocks_loop ⦃host = to⦄ more (differs from to) t rest)
              (append_assoc done (loaded (differs from to) b ∷ [])
                (map (loaded (differs from to)) l)))

  -- The whole file, when the number of rounds is that of the blocks.
  pub loop_all :
      (l : List Block)
      → All IsBlock l
      → blocks_loop ⦃host = to⦄ (length l) (differs from to) [] (records (block_record from) l)
        ≡ ret (some (map (loaded (differs from to)) l, []))
  unfolding blocks_loop
  loop_all l h =
      let rounds : length l + 0 ≡ length l = omega arith in
      rw (rounds, append-nil) at (loop_lem 0 l [] h [])

  -- The file ends before the rounds do.
  pub loop_short :
      (more : ℕ) (l : List Block)
      → All IsBlock l
      → blocks_loop ⦃host = to⦄
          (length l + suc more)
          (differs from to)
          []
          (records (block_record from) l)
        ≡ ret none
  unfolding blocks_loop read_block read_info read_value read
  loop_short more l h = rw append-nil at (loop_lem (suc more) l [] h [])

  -- Well-formed blocks written on one host are read on another, if told their number, as the same
  -- blocks where the byte orders agree, and with times and nonces that lost their low 32 bits
  -- where they differ.
  pub blocks-write_blocks :
      (l : List Block)
      → All IsBlock l
      → (write_blocks ⦃host = from⦄ l >>= blocks ⦃host = to⦄ (length l) (differs from to))
        ≡ ret (some (map (loaded (differs from to)) l))
  unfolding blocks
  blocks-write_blocks l h = rw (write_blocks_lem from l h, blocks, loop_all l h)
