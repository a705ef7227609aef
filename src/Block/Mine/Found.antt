-- ===== src/Block/Mine/Found.antt =====
-- That `block_mine` ends, and with what.
use holbertonschool_blockcha.Prelude.{
  ℕ, zero, suc, ◌+◌, ◌-◌, ◌%◌, ◌^◌, ◌≤◌, ◌<◌, ◌≡◌, ◌≢◌, refl, sym, ◌⊎◌, [], ltb, le→ltb, true,
  false, none, some, List, ◌++◌, take, ret, Bool-cases, Option-cases, inl, inr, ap, ◌∙◌, arith,
}
use holbertonschool_blockcha.Prelude.Bytes.{IsArray}
use holbertonschool_blockcha.Prelude.Host.{Host}
use holbertonschool_blockcha.Llist.{Llist}
use holbertonschool_blockcha.Crypto.{Openssl, sha256}
use holbertonschool_blockcha.Crypto.Digest.{sha256-IsArray}
use holbertonschool_blockcha.Block.Types.{Block, info_bytes}
use holbertonschool_blockcha.Block.Hash.{append_ids, block_hash}
use holbertonschool_blockcha.Block.Difficulty.{hash_matches_difficulty}
use holbertonschool_blockcha.Block.Difficulty.Matches.{be_value, hash_matches_difficulty-value}
use holbertonschool_blockcha.Block.Mine.{with_nonce, mine_loop, block_mine}

le-split : (a b : ℕ) → a ≤ b → (a ≡ b) ⊎ (suc a ≤ b)
le-split a b h = ground arith

module _ ⦃host : Host⦄ ⦃ll : Llist⦄ ⦃ssl : Openssl⦄ where
  -- With a digest that does not fail, the hash does not depend on what the buffer held.
  block_hash-digest :
      (b : Block)
      → ((s : List ℕ) → sha256 s ≢ none)
      → b.contents.len ≤ 1024
      → (d : List ℕ) × IsArray 32 d × ((buf : List ℕ) → block_hash b buf ≡ ret d)
  unfolding block_hash
  block_hash-digest b digests fits =
      let buffer : List ℕ =
        append_ids b.transactions (info_bytes b.info ++ take b.contents.len b.contents.buffer) in
      elim (Option-cases (sha256 buffer)) [
        | inl failed ↦ absurd (digests _ failed)
        | inr (d, e) ↦
            (d, sha256-IsArray buffer e, λ buf. rw (block_hash, le→ltb 1024 b.contents.len fits, e))
      ]

  -- The block has the hash `d`, which matches its difficulty.
  pub record Wins (b : Block) (d : List ℕ) : Type 0 where
    pub hashed : (buf : List ℕ) → block_hash b buf ≡ ret d
    pub matched : hash_matches_difficulty d b.info.difficulty ≡ ret true

  -- What the loop returns: the first nonce from `start` on whose hash matches.
  pub record IsMined (start : ℕ) (b m : Block) : Type 0 where
    pub nonce : ℕ
    pub digest : List ℕ
    pub from_start : start ≤ nonce
    pub mined : m ≡ record (with_nonce b nonce) { hash = digest }
    pub wins : Wins (with_nonce b nonce) digest
    pub first : (k : ℕ) (d : List ℕ) → start ≤ k → k < nonce → Wins (with_nonce b k) d → ⊥

  -- A round whose hash is low enough returns, any other goes on.
  round-won :
      (rounds start : ℕ) (b : Block) (buf d : List ℕ)
      → Wins (with_nonce b start) d
      → mine_loop (suc rounds) start b buf ≡ ret (some (record (with_nonce b start) { hash = d }))
  unfolding mine_loop
  round-won rounds start b buf d w = rw (w.hashed buf, w.matched)

  round-lost :
      (rounds start : ℕ) (b : Block) (buf d : List ℕ)
      → suc start < 2 ^ 64
      → block_hash (with_nonce b start) buf ≡ ret d
      → hash_matches_difficulty d b.info.difficulty ≡ ret false
      → mine_loop (suc rounds) start b buf ≡ mine_loop rounds (suc start) (with_nonce b start) d
  unfolding mine_loop
  round-lost rounds start b buf d small hashed lost =
      let step : (start + 1) % 2 ^ 64 ≡ suc start = omega arith in rw (hashed, lost, step)

  IsMined-now :
      (start : ℕ) (b : Block) (d : List ℕ)
      → Wins (with_nonce b start) d
      → IsMined start b (record (with_nonce b start) { hash = d })
  IsMined-now start b d w = record {
    nonce = start;
    digest = d;
    from_start = omega arith;
    mined = refl;
    wins = w;
    first = λ k d' h1 h2 w'. absurd (omega arith);
  }

  loses :
      (b : Block) (d e : List ℕ)
      → ((buf : List ℕ) → block_hash b buf ≡ ret d)
      → hash_matches_difficulty d b.info.difficulty ≡ ret false
      → Wins b e
      → ⊥
  loses b d e hashed lost w =
      let same : ret d ≡ ret e = cc (hashed [], w.hashed []) in cc (same, lost, w.matched)

  -- A nonce that does not win is passed over.
  passed_over :
      (start : ℕ) (b m : Block) (d : List ℕ)
      → ((buf : List ℕ) → block_hash (with_nonce b start) buf ≡ ret d)
      → hash_matches_difficulty d b.info.difficulty ≡ ret false
      → IsMined (suc start) (with_nonce b start) m
      → IsMined start b m
  passed_over start b m d hashed lost r = record {
    nonce = r.nonce;
    digest = r.digest;
    from_start = omega (arith, r.from_start);
    mined = r.mined;
    wins = record { hashed = r.wins.hashed; matched = r.wins.matched };
    first = λ k e h1 h2 w'. elim (le-split start k h1) [
      | inl same ↦ loses (with_nonce b start) d e hashed lost (rw (sym same) at w')
      | inr after ↦ r.first k e after h2 (record { hashed = w'.hashed; matched = w'.matched })
    ];
  }

  mine_loop-finds :
      (rounds start n : ℕ) (b : Block) (buf d : List ℕ)
      → ((s : List ℕ) → sha256 s ≢ none)
      → b.contents.len ≤ 1024
      → b.info.difficulty ≤ 256
      → start ≤ n
      → n < start + rounds
      → n < 2 ^ 64
      → Wins (with_nonce b n) d
      → (m : Block) × (mine_loop rounds start b buf ≡ ret (some m)) × IsMined start b m
  mine_loop-finds zero start n b buf d digests fits easy h1 h2 h3 w = absurd (omega arith)
  mine_loop-finds (suc rounds) start n b buf d digests fits easy h1 h2 h3 w =
      let (e, array, hashed) = block_hash-digest (with_nonce b start) digests fits in
      let value = hash_matches_difficulty-value e b.info.difficulty array easy in
      elim (Bool-cases (ltb (be_value e) (2 ^ (256 - b.info.difficulty)))) [
        | inl low ↦
            let wins : Wins (with_nonce b start) e = record {
              hashed = hashed;
              matched = value ∙ ap ret low;
            } in
            (
              record (with_nonce b start) { hash = e },
              round-won rounds start b buf e wins,
              IsMined-now start b e wins,
            )
        | inr high ↦
            let lost : hash_matches_difficulty e b.info.difficulty ≡ ret false =
              value ∙ ap ret high in
            let later : start ≢ n =
              λ same. loses (with_nonce b start) e d hashed lost (rw (sym same) at w) in
            let small : suc start < 2 ^ 64 = omega arith in
            let (m, runs, r) =
              mine_loop-finds rounds (suc start) n (with_nonce b start) e d digests fits easy
                (omega arith) (omega arith) h3
                (record { hashed = w.hashed; matched = w.matched }) in
            (
              m,
              round-lost rounds start b buf e small (hashed buf) lost ∙ runs,
              passed_over start b m e hashed lost r,
            )
      ]

  -- If the data fits, the digest does not fail, the difficulty is at most 256 and some nonce below
  -- 2 ^ 64 wins, mining ends within more rounds than that nonce, with the first nonce that wins
  -- and its hash.
  pub block_mine-finds :
      (rounds n : ℕ) (b : Block) (unset d : List ℕ)
      → ((s : List ℕ) → sha256 s ≢ none)
      → b.contents.len ≤ 1024
      → b.info.difficulty ≤ 256
      → n < rounds
      → n < 2 ^ 64
      → Wins (with_nonce b n) d
      → (m : Block) × (block_mine rounds unset b ≡ ret (some m)) × IsMined 0 b m
  unfolding block_mine
  block_mine-finds rounds n b unset d digests fits easy h1 h2 w =
      mine_loop-finds rounds 0 n b unset d digests fits easy (omega arith) (omega arith) h2 w
