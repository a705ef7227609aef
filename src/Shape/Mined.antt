-- ===== src/Shape/Mined.antt =====
-- The sizes of a block from block_create.c to block_mine.c of blockchain/v0.3/.
use holbertonschool_blockcha.Prelude.{
  ℕ, zero, suc, ◌+◌, ◌%◌, ◌^◌, ◌<◌, ◌≡◌, refl, ltb, List, ◌++◌, length, take, ub, Ensures,
  Ensures-bind, Ensures-if, Ensures-option, Ensures-ret, Ensures-map, arith,
}
use holbertonschool_blockcha.Prelude.Host.{Host}
use holbertonschool_blockcha.Prelude.Maybe.{Always, Always-map}
use holbertonschool_blockcha.Llist.{Llist}
use holbertonschool_blockcha.Crypto.{Openssl, sha256}
use holbertonschool_blockcha.Crypto.Digest.{sha256-IsArray}
use holbertonschool_blockcha.Block.Types.{Block, info_bytes}
use holbertonschool_blockcha.Block.Hash.{append_ids, block_hash}
use holbertonschool_blockcha.Block.Difficulty.{hash_matches_difficulty}
use holbertonschool_blockcha.Block.Mine.{with_nonce, mine_loop, block_mine}

module _ ⦃host : Host⦄ ⦃ll : Llist⦄ ⦃ssl : Openssl⦄ where
  -- Whether the digest fails or not, the buffer has 32 bytes afterwards.
  length-block_hash :
      (b : Block) (buf : List ℕ) → length buf ≡ 32 → Ensures (λ h. length h ≡ 32) (block_hash b buf)
  unfolding block_hash
  length-block_hash b buf h =
      Ensures-if (λ h. length h ≡ 32) (ltb 1024 b.contents.len) ub _ (λ _. tt)
        (λ _.
          Ensures-option (λ h. length h ≡ 32)
            (sha256 (
              append_ids b.transactions
                (info_bytes b.info ++ take b.contents.len b.contents.buffer)))
            _ _ h (λ d e. (sha256-IsArray _ e).1))

  -- Mining changes the nonce and the stored hash alone.
  pub record IsRenonced (b m : Block) : Type 0 where
    pub nonce : ℕ
    pub digest : List ℕ
    pub fits : nonce < 2 ^ 64
    pub array : length digest ≡ 32
    pub mined : m ≡ record (with_nonce b nonce) { hash = digest }

  mine_loop-IsRenonced :
      (rounds nonce : ℕ) (b : Block) (buf : List ℕ)
      → nonce < 2 ^ 64
      → length buf ≡ 32
      → Ensures (Always (IsRenonced b)) (mine_loop rounds nonce b buf)
  unfolding mine_loop
  mine_loop-IsRenonced zero nonce b buf h k = tt
  mine_loop-IsRenonced (suc rounds) nonce b buf h k =
      Ensures-bind (Always (IsRenonced b)) (block_hash (with_nonce b nonce) buf) _ (λ d e.
        let array =
          Ensures-ret (λ h. length h ≡ 32) (length-block_hash (with_nonce b nonce) buf k) e in
        Ensures-bind (Always (IsRenonced b)) (hash_matches_difficulty d b.info.difficulty) _
          (λ matched _.
            Ensures-if (Always (IsRenonced b)) matched _ _
              (λ _. record { nonce = nonce; digest = d; fits = h; array = array; mined = refl })
              (λ _.
                Ensures-map (Always (IsRenonced (with_nonce b nonce))) (Always (IsRenonced b)) _
                  (λ o. Always-map (IsRenonced (with_nonce b nonce)) (IsRenonced b) o (λ m r.
                    record {
                      nonce = r.nonce;
                      digest = r.digest;
                      fits = r.fits;
                      array = r.array;
                      mined = r.mined;
                    }))
                  (mine_loop-IsRenonced rounds ((nonce + 1) % 2 ^ 64) (with_nonce b nonce) d
                    (omega arith) array))))

  pub block_mine-IsRenonced :
      (rounds : ℕ) (unset : List ℕ) (b : Block)
      → length unset ≡ 32
      → Ensures (Always (IsRenonced b)) (block_mine rounds unset b)
  unfolding block_mine
  block_mine-IsRenonced rounds unset b h = mine_loop-IsRenonced rounds 0 b unset (omega arith) h
