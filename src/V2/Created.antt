-- ===== src/V2/Created.antt =====
-- The sizes of what `block_create` of blockchain/v0.2/block_create.c, which is that of version 0.1,
-- puts in a block.
use holbertonschool_blockcha.Prelude.{
  ℕ, ◌+◌, ◌-◌, ◌%◌, ◌^◌, ◌≤◌, ◌≡◌, refl, ltb, ltb-false, if◌then◌else◌, some, List, ◌++◌, length,
  length-append, length-take, length-replicate, take, replicate, ret, Bool-cases, inl, inr, arith,
}
use holbertonschool_blockcha.Prelude.Host.{Host, bytes_of, length-bytes_of}
use holbertonschool_blockcha.Block.Types.{BlockInfo, info_bytes}
use holbertonschool_blockcha.V1.Types.{Block}
use holbertonschool_blockcha.V1.Create.{block_create}

module _ ⦃host : Host⦄ where
  pub length-info_bytes : (i : BlockInfo) → length i.prev_hash ≡ 32 → length (info_bytes i) ≡ 56
  unfolding info_bytes
  length-info_bytes i h = omega (
    arith,
    h,
    length-append (bytes_of 4 i.index) (
        bytes_of 4 i.difficulty ++ (bytes_of 8 i.timestamp ++ (bytes_of 8 i.nonce ++ i.prev_hash))),
    length-append (bytes_of 4 i.difficulty)
        (bytes_of 8 i.timestamp ++ (bytes_of 8 i.nonce ++ i.prev_hash)),
    length-append (bytes_of 8 i.timestamp) (bytes_of 8 i.nonce ++ i.prev_hash),
    length-append (bytes_of 8 i.nonce) i.prev_hash,
    length-bytes_of 4 i.index,
    length-bytes_of 4 i.difficulty,
    length-bytes_of 8 i.timestamp,
    length-bytes_of 8 i.nonce,
  )

-- A block of the declared sizes: 32 bytes for the hash before it, and 1024 for its data.
pub record IsSized (b : Block) : Type 0 where
  pub prev_hash : length b.info.prev_hash ≡ 32
  pub buffer : length b.contents.buffer ≡ 1024
  pub fits : b.contents.len ≤ 1024

capped : ℕ → ℕ
capped n = if ltb 1024 n then 1024 else n

capped_le : (n : ℕ) → capped n ≤ 1024
unfolding capped
capped_le n = ground arith

pub block_create-IsSized :
    (prev b : Block) (text : List ℕ) (data_len now : ℕ)
    → length prev.hash ≡ 32
    → block_create (some prev) (some text) data_len now ≡ ret (some b)
    → IsSized b × (b.info.index ≡ (prev.info.index + 1) % 2 ^ 32) × (prev.hash ≡ b.info.prev_hash)
unfolding block_create capped
block_create-IsSized prev b text data_len now array made =
    elim (Bool-cases (ltb (length text) (capped data_len))) [
      | inl over ↦ cc (rw (block_create, over) at made)
      | inr enough ↦
          let max_len = capped data_len in
          let short : max_len ≤ 1024 = capped_le data_len in
          let created : Block = record {
            info = record {
              index = (prev.info.index + 1) % 2 ^ 32;
              difficulty = 0;
              timestamp = now % 2 ^ 64;
              nonce = 0;
              prev_hash = prev.hash;
            };
            contents = record {
              buffer = take max_len text ++ replicate (1024 - max_len) 0;
              len = max_len;
            };
            hash = replicate 32 0;
          } in
          let answer : ret (some created) ≡ ret (some b) = rw (block_create, enough) at made in
          let same : created ≡ b = cc answer in
          let full : length (take max_len text ++ replicate (1024 - max_len) 0) ≡ 1024 = omega (
            arith,
            length-append (take max_len text) (replicate (1024 - max_len) 0),
            length-take max_len text,
            length-replicate {A = ℕ} (1024 - max_len) 0,
            ltb-false (length text) max_len enough,
          ) in
          rw (← same) (record { prev_hash = array; buffer = full; fits = short }, refl, refl)
    ]
