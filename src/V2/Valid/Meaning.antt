-- ===== src/V2/Valid/Meaning.antt =====
-- What `block_is_valid` of blockchain/v0.2/ answers 0 for.
use holbertonschool_blockcha.Prelude.{
  ◌≡◌, ◌≢◌, ◌↔◌, ap, ◌∙◌, ne→==_false, not, not-false, true, some, ret, >>=-eq-ret, passed,
}
use holbertonschool_blockcha.Prelude.Host.{Host}
use holbertonschool_blockcha.Crypto.{Openssl}
use holbertonschool_blockcha.Block.Difficulty.{hash_matches_difficulty}
use holbertonschool_blockcha.V1.Types.{Block}
use holbertonschool_blockcha.V1.Valid.Meaning.{IsLinked, check_link_sound, check_link_complete}
use holbertonschool_blockcha.V2.Valid.{check_difficulty, block_is_valid}

module _ ⦃host : Host⦄ ⦃ssl : Openssl⦄ where
  -- In version 0.2, a block with an index other than 0 is valid after another exactly if it is so in
  -- version 0.1 and its stored hash matches its difficulty.
  pub block_is_valid_2_iff :
      (prev b : Block)
      → b.info.index ≢ 0
      → (block_is_valid (some b) (some prev) ≡ ret 0)
        ↔ (IsLinked prev b × (hash_matches_difficulty b.hash b.info.difficulty ≡ ret true))
  unfolding block_is_valid check_difficulty
  block_is_valid_2_iff prev b h = (
    λ v.
        let (linked, last) =
          check_link_sound prev b (check_difficulty b) (rw (ne→==_false b.info.index 0 h) at v) in
        let (m, hm, more) = >>=-eq-ret (hash_matches_difficulty b.hash b.info.difficulty) _ last in
        let (c, _) = passed (not m) _ more in (linked, hm ∙ ap ret (not-false m c)),
    λ n.
        rw (block_is_valid, ne→==_false b.info.index 0 h)
          (check_link_complete prev b _ n.0 ∙ rw (check_difficulty, n.1)),
  )
