-- ===== src/Examples/Early.antt =====
-- Files of the versions 0.1 and 0.2.
use holbertonschool_blockcha.Prelude.{
  ℕ, ◌≡◌, ◌↔◌, refl, true, none, some, List, [], ◌∷◌, map, replicate, ret, ◌>>=◌, arith,
}
use holbertonschool_blockcha.Prelude.Bytes.{le_bytes}
use holbertonschool_blockcha.Prelude.Host.{bytes_of, get_endianness}
use holbertonschool_blockcha.V1.Types.{Block}
use holbertonschool_blockcha.V1.Serialize.{hblk_version, write_blocks, blockchain_serialize}
use holbertonschool_blockcha.V1.Deserialize.{blocks, blockchain_deserialize}
use holbertonschool_blockcha.V1.Order.{differs}
use holbertonschool_blockcha.V1.Blocks.{IsBlock, loaded}
use holbertonschool_blockcha.V1.RoundTrip.{blocks-write_blocks}
use holbertonschool_blockcha.V1.Loaded.{IsBlockchain, load-save, load-foreign}
use holbertonschool_blockcha.V1.Refused.{IsHeader, blockchain_deserialize-refuses}
use holbertonschool_blockcha.V2.Files
use holbertonschool_blockcha.Examples.Platform.{plain_lists, little_host, big_host}

abbrev saved_block : Block
saved_block = record {
  info = record {
    index = 1;
    difficulty = 2;
    timestamp = 1700000000;
    nonce = 70000;
    prev_hash = replicate 32 1;
  };
  contents = record { buffer = 7 ∷ 8 ∷ replicate 1022 0; len = 2 };
  hash = replicate 32 2;
}

saved-IsBlockchain : IsBlockchain (saved_block ∷ saved_block ∷ [])
saved-IsBlockchain =
    let good : IsBlock saved_block = record {
      info = omega arith;
      contents = record { len = omega arith; length = refl; padded = refl };
      hash = refl;
    } in
    record { fits = omega arith; blocks = (good, (good, tt)) }

load-save_example :
    (blockchain_serialize Files.hblk_version true
        (some (record { chain = some (saved_block ∷ saved_block ∷ []) }))
      >>= blockchain_deserialize Files.hblk_version)
    ≡ ret (some (record { chain = some (saved_block ∷ saved_block ∷ []) }))
unfolding Files.hblk_version
load-save_example =
    load-save Files.hblk_version refl (saved_block ∷ saved_block ∷ []) saved-IsBlockchain

load-foreign_example :
    (blockchain_serialize ⦃host = little_host⦄ hblk_version true
        (some (record { chain = some (saved_block ∷ saved_block ∷ []) }))
      >>= blockchain_deserialize ⦃host = big_host⦄ hblk_version)
    ≡ ret (some (record { chain = none }))
unfolding hblk_version get_endianness bytes_of le_bytes
load-foreign_example =
    load-foreign hblk_version refl little_host big_host (saved_block ∷ saved_block ∷ [])
      saved-IsBlockchain refl (omega arith) (omega arith)

blocks-write_blocks_example :
    (write_blocks ⦃host = big_host⦄ (saved_block ∷ saved_block ∷ [])
      >>= blocks ⦃host = little_host⦄ 2 (differs big_host little_host))
    ≡ ret (some (map (loaded (differs big_host little_host)) (saved_block ∷ saved_block ∷ [])))
blocks-write_blocks_example =
    blocks-write_blocks big_host little_host (saved_block ∷ saved_block ∷ [])
      saved-IsBlockchain.blocks

abbrev newer_file : List ℕ
newer_file = b'H' ∷ b'B' ∷ b'L' ∷ b'K' ∷ b'0' ∷ b'.' ∷ b'2' ∷ replicate 5 1

blockchain_deserialize-refuses_example :
    (blockchain_deserialize hblk_version (some newer_file) ≡ ret none)
    ↔ (¬ IsHeader hblk_version newer_file)
unfolding hblk_version
blockchain_deserialize-refuses_example = blockchain_deserialize-refuses hblk_version refl newer_file
