-- ===== src/V1/Valid/Exact.antt =====
-- What `block_is_valid` of blockchain/v0.1/ accepts, with or without a block before it.
use holbertonschool_blockcha.Prelude.{
  ℕ, ◌≡◌, ◌≢◌, refl, sym, ap, ◌∙◌, ◌↔◌, ◌==◌, ==_iff, ne→==_false, if◌then◌else◌, true, Option,
  none, some, length, Run, ret, Bool-cases, inl, inr,
}
use holbertonschool_blockcha.Prelude.Bytes.{mem_eq}
use holbertonschool_blockcha.Prelude.Host.{Host}
use holbertonschool_blockcha.Crypto.{Openssl}
use holbertonschool_blockcha.Block.Valid.Exact.{and-both, same_array, clash, genesis_answer}
use holbertonschool_blockcha.V1.Types.{Block}
use holbertonschool_blockcha.V1.Create.{genesis_block}
use holbertonschool_blockcha.V1.Valid.{is_genesis, block_is_valid}
use holbertonschool_blockcha.V1.Valid.Meaning.{IsLinked, block_is_valid_1_iff}

-- The arrays have their declared lengths.
pub record HasArrays (b : Block) : Type 0 where
  pub prev_hash : length b.info.prev_hash ≡ 32
  pub buffer : length b.contents.buffer ≡ 1024
  pub hash : length b.hash ≡ 32

-- Blocks that agree in every member.
same_members :
    (a b : Block)
    → a.info.index ≡ b.info.index
    → a.info.difficulty ≡ b.info.difficulty
    → a.info.timestamp ≡ b.info.timestamp
    → a.info.nonce ≡ b.info.nonce
    → a.info.prev_hash ≡ b.info.prev_hash
    → a.contents.buffer ≡ b.contents.buffer
    → a.contents.len ≡ b.contents.len
    → a.hash ≡ b.hash
    → a ≡ b
same_members a b h1 h2 h3 h4 h5 h6 h7 h8 = λ i. record {
  info = record {
    index = h1 i;
    difficulty = h2 i;
    timestamp = h3 i;
    nonce = h4 i;
    prev_hash = h5 i;
  };
  contents = record { buffer = h6 i; len = h7 i };
  hash = h8 i;
}

is_genesis-eq : (b : Block) → HasArrays b → is_genesis b ≡ true → b ≡ genesis_block
unfolding is_genesis genesis_block
is_genesis-eq b arrays h =
    let (h7, hash) = and-both _ _ h in
    let (h6, len) = and-both _ _ h7 in
    let (h5, buffer) = and-both _ _ h6 in
    let (h4, prev_hash) = and-both _ _ h5 in
    let (h3, nonce) = and-both _ _ h4 in
    let (h2, timestamp) = and-both _ _ h3 in
    let (index, difficulty) = and-both _ _ h2 in
    same_members b genesis_block ((==_iff _ _).0 index) ((==_iff _ _).0 difficulty)
      ((==_iff _ _).0 timestamp) ((==_iff _ _).0 nonce)
      (same_array 32 _ _ arrays.prev_hash refl prev_hash)
      (same_array 1024 _ _ arrays.buffer refl buffer) ((==_iff _ _).0 len)
      (same_array 32 _ _ arrays.hash refl hash)

genesis_itself : is_genesis genesis_block ≡ true
unfolding is_genesis genesis_block mem_eq
genesis_itself = refl

genesis_index : genesis_block.info.index ≡ 0
unfolding genesis_block
genesis_index = refl

-- The genesis block, or one that may come next after the block before it.
pub data IsValidBlock (IsNext : Block → Block → Type 0) (prev : Option Block) (b : Block)
    : Type 0 where
  genesis : b ≡ genesis_block → IsValidBlock IsNext prev b
  next : (p : Block) → prev ≡ some p → b.info.index ≢ 0 → IsNext p b → IsValidBlock IsNext prev b

-- A validation that looks for the genesis block at index 0 only, that refuses other blocks without
-- one before them, and that accepts exactly the next ones after another.
module _ (IsNext : Block → Block → Type 0) (valid : Option Block → Run ℕ) (b : Block)
    (at_zero : (prev : Option Block)
      → b.info.index ≡ 0
      → valid prev ≡ ret (if is_genesis b then 0 else 1))
    (orphan : b.info.index ≢ 0 → valid none ≡ ret 1)
    (after : (p : Block) → b.info.index ≢ 0 → (valid (some p) ≡ ret 0) ↔ IsNext p b) where
  sound_later :
      (prev : Option Block) → b.info.index ≢ 0 → valid prev ≡ ret 0 → IsValidBlock IsNext prev b
  sound_later none h v = let no : ◌≡◌ {A = Run ℕ} (ret 1) (ret 0) = sym (orphan h) ∙ v in cc no
  sound_later (some p) h v = next p refl h ((after p h).0 v)

  sound : (prev : Option Block) → HasArrays b → valid prev ≡ ret 0 → IsValidBlock IsNext prev b
  sound prev arrays v = elim (Bool-cases (b.info.index == 0)) [
    | inl first ↦
        let e = (==_iff b.info.index 0).0 first in
        genesis (is_genesis-eq b arrays (genesis_answer (is_genesis b) (sym (at_zero prev e) ∙ v)))
    | inr later ↦ sound_later prev (λ e. clash (b.info.index) e later) v
  ]

  complete : (prev : Option Block) → IsValidBlock IsNext prev b → valid prev ≡ ret 0
  complete prev (genesis e) =
      let e0 : b.info.index ≡ 0 = ap (λ t. t.info.index) e ∙ genesis_index in
      let g : is_genesis b ≡ true = ap is_genesis e ∙ genesis_itself in
      at_zero prev e0 ∙ ap (λ c. ret (if c then 0 else 1)) g
  complete prev (next p e h n) = ap valid e ∙ (after p h).1 n

  pub exactly :
      (prev : Option Block) → HasArrays b → (valid prev ≡ ret 0) ↔ IsValidBlock IsNext prev b
  exactly prev arrays = (sound prev arrays, complete prev)

module _ ⦃host : Host⦄ ⦃ssl : Openssl⦄ where
  at_zero_1 :
      (b : Block) (prev : Option Block)
      → b.info.index ≡ 0
      → block_is_valid (some b) prev ≡ ret (if is_genesis b then 0 else 1)
  unfolding block_is_valid
  at_zero_1 b none e = rw e refl
  at_zero_1 b (some p) e = rw e refl

  orphan_1 : (b : Block) → b.info.index ≢ 0 → block_is_valid (some b) none ≡ ret 1
  unfolding block_is_valid
  orphan_1 b h = rw (ne→==_false b.info.index 0 h) refl

  -- In version 0.1, a block whose arrays have the declared lengths is valid exactly if it is the
  -- genesis block, or if its index is not 0, there is a block before it, its index is the next
  -- one, both stored hashes are right, it names the other's hash, and its data fits.
  pub block_is_valid_1-IsValidBlock :
      (prev : Option Block) (b : Block)
      → HasArrays b
      → (block_is_valid (some b) prev ≡ ret 0) ↔ IsValidBlock IsLinked prev b
  block_is_valid_1-IsValidBlock prev b =
      exactly IsLinked (block_is_valid (some b)) b (at_zero_1 b) (orphan_1 b)
        (λ p. block_is_valid_1_iff p b) prev
