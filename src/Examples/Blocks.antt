-- ===== src/Examples/Blocks.antt =====
-- Blocks: the difficulty test, mining, and the validation of the next block.
use holbertonschool_blockcha.Prelude.{
  ℕ, ◌-◌, ◌^◌, ◌≡◌, ◌↔◌, refl, ltb, none, some, List, [], ◌∷◌, ◌++◌, replicate, ret, arith,
}
use holbertonschool_blockcha.Prelude.Bytes.{IsArray, le_bytes, of_le_bytes}
use holbertonschool_blockcha.Prelude.Host.{bytes_of}
use holbertonschool_blockcha.Llist.{run_each}
use holbertonschool_blockcha.Crypto.{sha256}
use holbertonschool_blockcha.Transaction.Hash.Total.{references, output_hashes}
use holbertonschool_blockcha.Block.Types.{Block, info_bytes}
use holbertonschool_blockcha.Block.Hash.{hash_transaction_ids, append_ids, block_hash}
use holbertonschool_blockcha.Block.Difficulty.{
  full_bytes_zero, bits_zero, hash_matches_difficulty, blockchain_difficulty,
}
use holbertonschool_blockcha.Block.Difficulty.Matches.{be_value, hash_matches_difficulty-value}
use holbertonschool_blockcha.Block.Difficulty.Steps.{Near, blockchain_difficulty-Near}
use holbertonschool_blockcha.Block.Mine.{with_nonce, block_mine}
use holbertonschool_blockcha.Block.Mine.Found.{Wins, IsMined, block_mine-finds}
use holbertonschool_blockcha.Block.Valid.{block_is_valid}
use holbertonschool_blockcha.Block.Valid.Exact.{
  HasArrays, IsValidBlock, block_is_valid-IsValidBlock,
}
use holbertonschool_blockcha.Examples.Platform.{plain_lists, little_host, toy_ssl, checksum}
use holbertonschool_blockcha.Examples.Payments.{owned, payment, digests}

-- A hash with twelve zero bits in front.
abbrev low_hash : List ℕ
low_hash = 0 ∷ 15 ∷ replicate 30 200

low_hash-IsArray : IsArray 32 low_hash
low_hash-IsArray = (omega arith, refl)

hash_matches_difficulty-value_example :
    hash_matches_difficulty low_hash 12 ≡ ret (ltb (be_value low_hash) (2 ^ (256 - 12)))
hash_matches_difficulty-value_example =
    hash_matches_difficulty-value low_hash 12 low_hash-IsArray (omega arith)

abbrev pub candidate : Block
candidate = record {
  info = record {
    index = 1;
    difficulty = 1;
    timestamp = 1700000000;
    nonce = 0;
    prev_hash = replicate 32 9;
  };
  contents = record { buffer = replicate 1024 0; len = 2 };
  transactions = some (payment ∷ []);
  hash = replicate 32 0;
}

abbrev candidate_hash : List ℕ
candidate_hash = checksum (info_bytes (with_nonce candidate 3).info ++ (0 ∷ 0 ∷ payment.id))

candidate-Wins : Wins (with_nonce candidate 3) candidate_hash
unfolding block_hash append_ids hash_transaction_ids run_each sha256 checksum le_bytes of_le_bytes
    info_bytes bytes_of hash_matches_difficulty full_bytes_zero bits_zero references output_hashes
candidate-Wins = record { hashed = λ buf. refl; matched = refl }

block_mine-finds_example :
    (m : Block) × (block_mine 4 [] candidate ≡ ret (some m)) × IsMined 0 candidate m
block_mine-finds_example =
    block_mine-finds 4 3 candidate [] candidate_hash digests (omega arith) (omega arith)
      (omega arith) (omega arith) candidate-Wins

abbrev before : Block
before = record candidate {
  info = record candidate.info { index = 0 };
  transactions = none;
  hash = replicate 32 9;
}

candidate-HasArrays : HasArrays candidate
candidate-HasArrays = record { prev_hash = refl; buffer = refl; hash = refl }

block_is_valid-IsValidBlock_example :
    (block_is_valid (some candidate) (some before) (some (owned ∷ [])) ≡ ret 0)
    ↔ IsValidBlock (some (owned ∷ [])) (some before) candidate
block_is_valid-IsValidBlock_example =
    block_is_valid-IsValidBlock (some (owned ∷ [])) (some before) candidate candidate-HasArrays

-- Five blocks with one time: faster than is expected.
abbrev quick : Block
quick = record candidate { info = record candidate.info { index = 10; difficulty = 7 } }

blockchain_difficulty-Near_example :
    Near (blockchain_difficulty (some (record { chain = replicate 5 quick; unspent = [] }))) 7
blockchain_difficulty-Near_example =
    blockchain_difficulty-Near (record { chain = replicate 5 quick; unspent = [] }) quick refl
      (omega arith) (omega arith) (omega arith)
