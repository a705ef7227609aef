-- ===== src/V2/Valid/Exact.antt =====
-- What `block_is_valid` of blockchain/v0.2/ accepts, with or without a block before it.
use holbertonschool_blockcha.Prelude.{
  ◌≡◌, ◌≢◌, refl, ◌↔◌, ne→==_false, if◌then◌else◌, true, Option, none, some, ret,
}
use holbertonschool_blockcha.Prelude.Host.{Host}
use holbertonschool_blockcha.Crypto.{Openssl}
use holbertonschool_blockcha.Block.Difficulty.{hash_matches_difficulty}
use holbertonschool_blockcha.V1.Types.{Block}
use holbertonschool_blockcha.V1.Valid.{is_genesis}
use holbertonschool_blockcha.V1.Valid.Meaning.{IsLinked}
use holbertonschool_blockcha.V1.Valid.Exact.{HasArrays, IsValidBlock, exactly}
use holbertonschool_blockcha.V2.Valid.{block_is_valid}
use holbertonschool_blockcha.V2.Valid.Meaning.{block_is_valid_2_iff}

module _ ⦃host : Host⦄ ⦃ssl : Openssl⦄ where
  -- What version 0.1 asks of a next block, and a stored hash that matches the difficulty.
  abbrev pub IsHarder : Block → Block → Type 0
  IsHarder p b = IsLinked p b × (hash_matches_difficulty b.hash b.info.difficulty ≡ ret true)

  at_zero_2 :
      (b : Block) (prev : Option Block)
      → b.info.index ≡ 0
      → block_is_valid (some b) prev ≡ ret (if is_genesis b then 0 else 1)
  unfolding block_is_valid
  at_zero_2 b none e = rw e refl
  at_zero_2 b (some p) e = rw e refl

  orphan_2 : (b : Block) → b.info.index ≢ 0 → block_is_valid (some b) none ≡ ret 1
  unfolding block_is_valid
  orphan_2 b h = rw (ne→==_false b.info.index 0 h) refl

  -- In version 0.2, a block whose arrays have the declared lengths is valid exactly if it is the
  -- genesis block, or if its index is not 0, there is a block before it, and it is a next block as
  -- in version 0.1 whose stored hash matches its difficulty.
  pub block_is_valid_2-IsValidBlock :
      (prev : Option Block) (b : Block)
      → HasArrays b
      → (block_is_valid (some b) prev ≡ ret 0) ↔ IsValidBlock IsHarder prev b
  block_is_valid_2-IsValidBlock prev b =
      exactly IsHarder (block_is_valid (some b)) b (at_zero_2 b) (orphan_2 b)
        (λ p. block_is_valid_2_iff p b) prev
