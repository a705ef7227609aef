-- ===== src/Examples/EarlyBlocks.antt =====
-- The next block of versions 0.1 and 0.2.
use holbertonschool_blockcha.Prelude.{
  ℕ, ◌≡◌, ◌↔◌, refl, some, List, [], ◌∷◌, take, replicate, ret, arith,
}
use holbertonschool_blockcha.Prelude.Bytes.{le_bytes, of_le_bytes, mem_eq}
use holbertonschool_blockcha.Prelude.Host.{bytes_of}
use holbertonschool_blockcha.Crypto.{sha256}
use holbertonschool_blockcha.Block.Types.{info_bytes}
use holbertonschool_blockcha.Block.Difficulty.{full_bytes_zero, bits_zero, hash_matches_difficulty}
use holbertonschool_blockcha.V1.Types.{Block}
use holbertonschool_blockcha.V1.Create.{block_create}
use holbertonschool_blockcha.V1.Hash.{struct_bytes, block_hash}
use holbertonschool_blockcha.V1.Valid as Valid1
use holbertonschool_blockcha.V1.Valid.Meaning.{IsHashed, IsLinked}
use holbertonschool_blockcha.V1.Valid.Exact.{HasArrays, IsValidBlock, block_is_valid_1-IsValidBlock}
use holbertonschool_blockcha.V2.Mine.{with_nonce, block_mine}
use holbertonschool_blockcha.V2.Valid as Valid2
use holbertonschool_blockcha.V2.Mine.Found.{Wins}
use holbertonschool_blockcha.V2.Valid.Exact.{IsHarder, block_is_valid_2-IsValidBlock}
use holbertonschool_blockcha.V2.Next.{mined_block-valid}
use holbertonschool_blockcha.Examples.Platform.{plain_lists, little_host, toy_ssl, checksum}
use holbertonschool_blockcha.Examples.Payments.{digests}

abbrev unhashed : Block
unhashed = record {
  info = record {
    index = 4;
    difficulty = 1;
    timestamp = 1700000000;
    nonce = 0;
    prev_hash = replicate 32 9;
  };
  contents = record { buffer = 65 ∷ 66 ∷ replicate 1022 0; len = 2 };
  hash = replicate 32 0;
}

abbrev tail : Block
tail = record unhashed { hash = checksum (take 58 (struct_bytes unhashed)) }

tail-IsHashed : IsHashed tail
unfolding block_hash struct_bytes sha256 checksum le_bytes of_le_bytes info_bytes bytes_of mem_eq
tail-IsHashed = record {
  digest = checksum (take 58 (struct_bytes unhashed));
  hashed = refl;
  stored = refl;
}

abbrev fresh : Block
fresh = record {
  info = record {
    index = 5;
    difficulty = 0;
    timestamp = 1700000001;
    nonce = 0;
    prev_hash = tail.hash;
  };
  contents = record { buffer = 67 ∷ 68 ∷ 69 ∷ replicate 1021 0; len = 3 };
  hash = replicate 32 0;
}

abbrev eased : Block
eased = record fresh { info = record fresh.info { difficulty = 1 } }

abbrev fresh_hash : List ℕ
fresh_hash = checksum (take 59 (struct_bytes (with_nonce eased 0)))

fresh-Wins : Wins (with_nonce eased 0) fresh_hash
unfolding block_hash struct_bytes sha256 checksum le_bytes of_le_bytes info_bytes bytes_of
    hash_matches_difficulty full_bytes_zero bits_zero
fresh-Wins = record { hashed = refl; matched = refl }

fresh-HasArrays : HasArrays fresh
unfolding checksum le_bytes of_le_bytes
fresh-HasArrays = record { prev_hash = refl; buffer = refl; hash = refl }

block_is_valid_1-IsValidBlock_example :
    (Valid1.block_is_valid (some fresh) (some tail) ≡ ret 0)
    ↔ IsValidBlock IsLinked (some tail) fresh
block_is_valid_1-IsValidBlock_example =
    block_is_valid_1-IsValidBlock (some tail) fresh fresh-HasArrays

block_is_valid_2-IsValidBlock_example :
    (Valid2.block_is_valid (some fresh) (some tail) ≡ ret 0)
    ↔ IsValidBlock IsHarder (some tail) fresh
block_is_valid_2-IsValidBlock_example =
    block_is_valid_2-IsValidBlock (some tail) fresh fresh-HasArrays

fresh-made :
    block_create (some tail) (some (67 ∷ 68 ∷ 69 ∷ 70 ∷ [])) 3 1700000001 ≡ ret (some fresh)
unfolding block_create
fresh-made = refl

mined_block-valid_example :
    (m : Block) × (block_mine 4 [] eased ≡ ret (some m))
    × (Valid2.block_is_valid (some m) (some tail) ≡ ret 0)
unfolding checksum le_bytes
mined_block-valid_example =
    mined_block-valid tail fresh (67 ∷ 68 ∷ 69 ∷ 70 ∷ []) 3 1700000001 1 4 0 [] fresh_hash digests
      tail-IsHashed refl (omega arith) fresh-made (omega arith) (omega arith) (omega arith)
      fresh-Wins
