-- ===== src/V2/Mine/Found.antt =====
-- That `block_mine` of blockchain/v0.2/ ends, and with what.
use holbertonschool_blockcha.Prelude.{
  ℕ, zero, suc, ◌+◌, ◌-◌, ◌%◌, ◌^◌, ◌≤◌, ◌<◌, ◌≡◌, ◌≢◌, refl, sym, ap, ◌∙◌, ltb, le→ltb, true,
  false, none, some, List, take, ret, Bool-cases, Option-cases, inl, inr, arith,
}
use holbertonschool_blockcha.Prelude.Bytes.{IsArray}
use holbertonschool_blockcha.Prelude.Host.{Host}
use holbertonschool_blockcha.Crypto.{Openssl, sha256}
use holbertonschool_blockcha.Crypto.Digest.{sha256-IsArray}
use holbertonschool_blockcha.Block.Difficulty.{hash_matches_difficulty}
use holbertonschool_blockcha.Block.Difficulty.Matches.{be_value, hash_matches_difficulty-value}
use holbertonschool_blockcha.V1.Types.{Block}
use holbertonschool_blockcha.V1.Hash.{struct_bytes, block_hash}
use holbertonschool_blockcha.V2.Mine.{with_nonce, mine_loop}

module _ ⦃host : Host⦄ ⦃ssl : Openssl⦄ where
  -- With a digest that does not fail, a block whose data fits has a hash.
  hash_total :
      (b : Block)
      → ((s : List ℕ) → sha256 s ≢ none)
      → b.contents.len ≤ 1024
      → (d : List ℕ) × IsArray 32 d × (block_hash (some b) ≡ ret (some d))
  unfolding block_hash
  hash_total b digests fits =
      let buffer : List ℕ = take (56 + b.contents.len) (struct_bytes b) in
      elim (Option-cases (sha256 buffer)) [
        | inl failed ↦ absurd (digests _ failed)
        | inr (d, e) ↦ (
          d,
          sha256-IsArray buffer e,
          rw (block_hash, le→ltb 1116 (56 + b.contents.len) (omega arith), e),
        )
      ]

  -- The block has the hash `d`, which matches its difficulty.
  pub record Wins (b : Block) (d : List ℕ) : Type 0 where
    pub hashed : block_hash (some b) ≡ ret (some d)
    pub matched : hash_matches_difficulty d b.info.difficulty ≡ ret true

  -- What mining makes of a block: some nonce that wins, and the hash with it.
  pub record IsMined (b m : Block) : Type 0 where
    pub nonce : ℕ
    pub digest : List ℕ
    pub mined : m ≡ record (with_nonce b nonce) { hash = digest }
    pub wins : Wins (with_nonce b nonce) digest

  -- A nonce whose hash is too high does not win.
  loses :
      (b : Block) (start : ℕ) (e d : List ℕ)
      → block_hash (some (with_nonce b start)) ≡ ret (some e)
      → hash_matches_difficulty e b.info.difficulty ≡ ret false
      → Wins (with_nonce b start) d
      → ⊥
  loses b start e d hashed lost w =
      let same : ret (some e) ≡ ret (some d) = cc (hashed, w.hashed) in cc (same, lost, w.matched)

  round-lost :
      (rounds start : ℕ) (b : Block) (buf e : List ℕ)
      → (start + 1) % 2 ^ 64 ≡ suc start
      → block_hash (some (with_nonce b start)) ≡ ret (some e)
      → hash_matches_difficulty e b.info.difficulty ≡ ret false
      → mine_loop (suc rounds) start b buf ≡ mine_loop rounds (suc start) (with_nonce b start) e
  unfolding mine_loop
  round-lost rounds start b buf e step hashed lost = rw (hashed, lost, step)

  pub mine_loop-finds :
      (rounds start n : ℕ) (b : Block) (buf d : List ℕ)
      → ((s : List ℕ) → sha256 s ≢ none)
      → b.contents.len ≤ 1024
      → b.info.difficulty ≤ 256
      → start ≤ n
      → n < start + rounds
      → n < 2 ^ 64
      → Wins (with_nonce b n) d
      → (m : Block) × (mine_loop rounds start b buf ≡ ret (some m)) × IsMined b m
  unfolding mine_loop
  mine_loop-finds zero start n b buf d digests fits easy h1 h2 h3 w = absurd (omega arith)
  mine_loop-finds (suc rounds) start n b buf d digests fits easy h1 h2 h3 w =
      let (e, array, hashed) = hash_total (with_nonce b start) digests fits in
      let value = hash_matches_difficulty-value e b.info.difficulty array easy in
      elim (Bool-cases (ltb (be_value e) (2 ^ (256 - b.info.difficulty)))) [
        | inl low ↦ (
          record (with_nonce b start) { hash = e },
          rw (mine_loop, hashed, value, low),
          record {
            nonce = start;
            digest = e;
            mined = refl;
            wins = record { hashed = hashed; matched = value ∙ ap ret low };
          },
        )
        | inr high ↦
            let lost : hash_matches_difficulty e b.info.difficulty ≡ ret false =
              value ∙ ap ret high in
            let later : start ≢ n = λ same. loses b start e d hashed lost (rw (sym same) at w) in
            let small : (start + 1) % 2 ^ 64 ≡ suc start = omega arith in
            let (m, runs, r) =
              mine_loop-finds rounds (suc start) n (with_nonce b start) e d digests fits easy
                (omega arith) (omega arith) h3
                (record { hashed = w.hashed; matched = w.matched }) in
            (
              m,
              round-lost rounds start b buf e small hashed lost ∙ runs,
              record {
                nonce = r.nonce;
                digest = r.digest;
                mined = r.mined;
                wins = record { hashed = r.wins.hashed; matched = r.wins.matched };
              },
            )
      ]
