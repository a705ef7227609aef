-- ===== src/V1/Serialize.antt =====
-- blockchain/v0.1/blockchain_serialize.c. Version 0.2 has the same code and its own HBLK_VERSION,
-- which is the first argument. `write` is taken to write all that it is given.
use holbertonschool_blockcha.Prelude.{
  ℕ, ltb, if◌then◌else◌, Bool, true, false, Option, none, some, List, [], ◌∷◌, ◌++◌, take, Run, ret,
  ub, ◌>>=◌,
}
use holbertonschool_blockcha.Prelude.Host.{Host, bytes_of, get_endianness}
use holbertonschool_blockcha.Llist.{Llist}
use holbertonschool_blockcha.Llist.Walk.{nodes_at}
use holbertonschool_blockcha.Block.Types.{info_bytes, blockchain_data_max}
use holbertonschool_blockcha.Chain.Serialize.{hblk_magic}
use holbertonschool_blockcha.V1.Types.{Block, Blockchain}

unfoldable pub hblk_version : List ℕ
hblk_version = b'0' ∷ b'.' ∷ b'1' ∷ []

module _ ⦃host : Host⦄ where
  unfoldable pub block_bytes : Block → Run (List ℕ)
  block_bytes block =
      if ltb blockchain_data_max block.contents.len
      then ub
      else ret (
          info_bytes block.info
          ++ (bytes_of 4 block.contents.len
              ++ (take block.contents.len block.contents.buffer ++ block.hash)))

  unfoldable pub write_blocks : List Block → Run (List ℕ)
  write_blocks [] = ret []
  write_blocks (block ∷ rest) = do
    written ← block_bytes block
    more ← write_blocks rest
    ret (written ++ more)

  -- The four writes before the blocks.
  unfoldable pub header_bytes : List ℕ → ℕ → List ℕ
  unfolding hblk_magic
  header_bytes version number_of_blocks =
      hblk_magic ++ (version ++ (get_endianness ∷ bytes_of 4 number_of_blocks))

module _ ⦃host : Host⦄ ⦃ll : Llist⦄ where
  -- `none` is -1: `opened` says whether `open` gave a descriptor. A list that is NULL has the size
  -- -1, and the loop over it does nothing.
  unfoldable pub blockchain_serialize : List ℕ → Bool → Option Blockchain → Run (Option (List ℕ))
  blockchain_serialize version opened none = ret none
  blockchain_serialize version false (some blockchain) = ret none
  blockchain_serialize version true (some blockchain) = elim blockchain.chain [
    | none ↦ ret (some (header_bytes version 0xffffffff))
    | some chain ↦
        (write_blocks (nodes_at chain) >>= λ blocks.
        ret (some (header_bytes version (ll.size chain) ++ blocks)))
  ]
