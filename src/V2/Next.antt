-- ===== src/V2/Next.antt =====
-- The next block of a chain of version 0.2, from `block_create` through `block_mine` to
-- `block_is_valid`.
use holbertonschool_blockcha.Prelude.{
  ℕ, ◌+◌, ◌%◌, ◌^◌, ◌≤◌, ◌<◌, ◌≡◌, ◌≢◌, sym, ap, ◌∙◌, ltb, true, none, some, List, ◌++◌, length,
  length-append, append_assoc, take, take-append_front, ret, ub, arith, if◌then◌else◌,
}
use holbertonschool_blockcha.Prelude.Bytes.{mem_eq_refl}
use holbertonschool_blockcha.Prelude.Host.{Host, bytes_of}
use holbertonschool_blockcha.Crypto.{Openssl, sha256}
use holbertonschool_blockcha.Block.Types.{info_bytes}
use holbertonschool_blockcha.Block.Difficulty.{hash_matches_difficulty}
use holbertonschool_blockcha.V1.Types.{Block}
use holbertonschool_blockcha.V1.Create.{block_create}
use holbertonschool_blockcha.V1.Hash.{struct_bytes, block_hash}
use holbertonschool_blockcha.V1.Valid.Meaning.{IsHashed, IsLinked}
use holbertonschool_blockcha.V2.Created.{IsSized, length-info_bytes, block_create-IsSized}
use holbertonschool_blockcha.V2.Mine.{with_nonce, block_mine}
use holbertonschool_blockcha.V2.Valid.{block_is_valid}
use holbertonschool_blockcha.V2.Valid.Meaning.{block_is_valid_2_iff}
use holbertonschool_blockcha.V2.Mine.Found.{Wins, IsMined, mine_loop-finds}

module _ ⦃host : Host⦄ ⦃ssl : Openssl⦄ where
  -- The stored hash is not part of what is hashed.
  hash_unstored :
      (b : Block) (h : List ℕ)
      → IsSized b
      → block_hash (some (record b { hash = h })) ≡ block_hash (some b)
  unfolding block_hash struct_bytes info_bytes
  hash_unstored b h sized =
      let info : length (info_bytes b.info) ≡ 56 = length-info_bytes b.info sized.prev_hash in
      let front : 56 + b.contents.len ≤ length (info_bytes b.info ++ b.contents.buffer) = omega (
        arith,
        length-append (info_bytes b.info) b.contents.buffer,
        info,
        sized.buffer,
        sized.fits,
      ) in
      let cut : (h' : List ℕ)
          → take (56 + b.contents.len) (struct_bytes (record b { hash = h' }))
            ≡ take (56 + b.contents.len) (info_bytes b.info ++ b.contents.buffer) =
        λ h'.
          rw
            (← append_assoc (info_bytes b.info) b.contents.buffer (bytes_of 4 b.contents.len ++ h'))
            (take-append_front _ _ _ front) in
      let same : take (56 + b.contents.len) (struct_bytes (record b { hash = h }))
          ≡ take (56 + b.contents.len) (struct_bytes b) =
        cut h ∙ sym (cut b.hash) in
      ap (λ t. if ltb 1116 (56 + b.contents.len) then ub else ret (sha256 t)) same

  mined-IsLinked :
      (prev b m : Block)
      → IsMined b m
      → IsHashed prev
      → IsSized b
      → b.info.index ≡ (prev.info.index + 1) % 2 ^ 32
      → prev.hash ≡ b.info.prev_hash
      → IsLinked prev m × (hash_matches_difficulty m.hash m.info.difficulty ≡ ret true)
  mined-IsLinked prev b m r hashed sized index linked = rw r.mined (
    record {
      index = index;
      prev_hashed = hashed;
      linked = rw linked (mem_eq_refl 32 b.info.prev_hash);
      hashed = record {
        digest = r.digest;
        hashed =
            hash_unstored (with_nonce b r.nonce) r.digest
              (record { prev_hash = sized.prev_hash; buffer = sized.buffer; fits = sized.fits })
            ∙ r.wins.hashed;
        stored = mem_eq_refl 32 r.digest;
      };
      fits = sized.fits;
    },
    r.wins.matched,
  )

  -- In version 0.2, with a digest that does not fail, a block made by block_create after a block
  -- whose stored hash is its hash, of a difficulty of at most 256, is mined in more rounds than
  -- some nonce below 2 ^ 64 that wins, and what mining returns is valid, unless the index wraps
  -- around to 0.
  pub mined_block-valid :
      (prev b : Block) (text : List ℕ) (data_len now difficulty rounds n : ℕ) (unset d : List ℕ)
      → ((s : List ℕ) → sha256 s ≢ none)
      → IsHashed prev
      → length prev.hash ≡ 32
      → (prev.info.index + 1) % 2 ^ 32 ≢ 0
      → block_create (some prev) (some text) data_len now ≡ ret (some b)
      → difficulty ≤ 256
      → n < rounds
      → n < 2 ^ 64
      → Wins (with_nonce (record b { info = record b.info { difficulty = difficulty } }) n) d
      → (m : Block) × (block_mine rounds unset
            (record b { info = record b.info { difficulty = difficulty } })
          ≡ ret (some m))
        × (block_is_valid (some m) (some prev) ≡ ret 0)
  unfolding block_mine
  mined_block-valid prev b text data_len now difficulty rounds n unset d digests hashed array later
        made easy h1 h2 w =
      let (sized, index, linked) = block_create-IsSized prev b text data_len now array made in
      let next : Block = record b { info = record b.info { difficulty = difficulty } } in
      let (m, runs, r) =
        mine_loop-finds rounds 0 n next unset d digests sized.fits easy (omega arith) (omega arith)
          h2 w in
      let valid =
        mined-IsLinked prev next m r hashed
          (record { prev_hash = sized.prev_hash; buffer = sized.buffer; fits = sized.fits }) index
          linked in
      let not_first : m.info.index ≢ 0 =
        λ e. later (sym index ∙ sym (ap (λ x. x.info.index) r.mined) ∙ e) in
      (m, runs, (block_is_valid_2_iff prev m not_first).1 valid)
