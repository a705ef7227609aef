-- ===== src/V1/Valid/Meaning.antt =====
-- What `block_is_valid` of blockchain/v0.1/ answers 0 for.
use holbertonschool_blockcha.Prelude.{
  ℕ, ◌+◌, ◌%◌, ◌^◌, ◌≤◌, ◌≡◌, ◌≢◌, ◌↔◌, refl, ltb, le→ltb, ltb-false, ◌==◌, ==_iff, ne→==_false,
  not, not-false, true, false, Option, none, some, List, Run, ret, >>=-eq-ret, passed,
}
use holbertonschool_blockcha.Prelude.Bytes.{mem_eq}
use holbertonschool_blockcha.Prelude.Host.{Host}
use holbertonschool_blockcha.Crypto.{Openssl}
use holbertonschool_blockcha.V1.Types.{Block}
use holbertonschool_blockcha.V1.Hash.{block_hash}
use holbertonschool_blockcha.V1.Valid.{hash_differs, check_link, block_is_valid}

hash_differs-false :
    (o : Option (List ℕ)) (hash : List ℕ)
    → hash_differs o hash ≡ false
    → (digest : List ℕ) × (o ≡ some digest) × (mem_eq 32 digest hash ≡ true)
unfolding hash_differs
hash_differs-false none hash h = cc
hash_differs-false (some digest) hash h = (digest, refl, not-false _ h)

module _ ⦃host : Host⦄ ⦃ssl : Openssl⦄ where
  -- The stored hash of a block is its hash.
  pub record IsHashed (b : Block) : Type 0 where
    pub digest : List ℕ
    pub hashed : block_hash (some b) ≡ ret (some digest)
    pub stored : mem_eq 32 digest b.hash ≡ true

  -- `b` may follow `prev`.
  pub record IsLinked (prev b : Block) : Type 0 where
    pub index : b.info.index ≡ (prev.info.index + 1) % 2 ^ 32
    pub prev_hashed : IsHashed prev
    pub linked : mem_eq 32 prev.hash b.info.prev_hash ≡ true
    pub hashed : IsHashed b
    pub fits : b.contents.len ≤ 1024

  -- The last test is `more`, which each version has its own of.
  pub check_link_sound :
      (prev b : Block) (more : Run ℕ)
      → check_link b prev more ≡ ret 0
      → IsLinked prev b × (more ≡ ret 0)
  unfolding check_link
  check_link_sound prev b more h =
      let (c1, h1) = passed (not (b.info.index == (prev.info.index + 1) % 2 ^ 32)) _ h in
      let (dp, hp, h2) = >>=-eq-ret (block_hash (some prev)) _ h1 in
      let (c2, h3) = passed (hash_differs dp prev.hash) _ h2 in
      let (c3, h4) = passed (not (mem_eq 32 prev.hash b.info.prev_hash)) _ h3 in
      let (d, hd, h5) = >>=-eq-ret (block_hash (some b)) _ h4 in
      let (c4, h6) = passed (hash_differs d b.hash) _ h5 in
      let (c5, h7) = passed (ltb 1024 b.contents.len) _ h6 in
      let (p, ep, sp) = hash_differs-false dp prev.hash c2 in
      let (q, eq, sq) = hash_differs-false d b.hash c4 in
      (
        record {
          index = (==_iff _ _).0 (not-false _ c1);
          prev_hashed = record { digest = p; hashed = rw ep at hp; stored = sp };
          linked = not-false _ c3;
          hashed = record { digest = q; hashed = rw eq at hd; stored = sq };
          fits = ltb-false 1024 b.contents.len c5;
        },
        h7,
      )

  pub check_link_complete :
      (prev b : Block) (more : Run ℕ) → IsLinked prev b → check_link b prev more ≡ more
  unfolding check_link hash_differs
  check_link_complete prev b more n = rw (
    check_link,
    (==_iff b.info.index _).1 n.index,
    n.prev_hashed.hashed,
    n.prev_hashed.stored,
    n.linked,
    n.hashed.hashed,
    n.hashed.stored,
    le→ltb 1024 b.contents.len n.fits,
  )

  -- In version 0.1, a block with an index other than 0 is valid after another exactly if its index is
  -- the next one, both stored hashes are right, it names the other's hash, and its data fits.
  pub block_is_valid_1_iff :
      (prev b : Block)
      → b.info.index ≢ 0
      → (block_is_valid (some b) (some prev) ≡ ret 0) ↔ IsLinked prev b
  unfolding block_is_valid
  block_is_valid_1_iff prev b h = (
    λ v. (check_link_sound prev b (ret 0) (rw (ne→==_false b.info.index 0 h) at v)).0,
    λ n. rw (block_is_valid, ne→==_false b.info.index 0 h) (check_link_complete prev b (ret 0) n),
  )
