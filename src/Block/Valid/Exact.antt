-- ===== src/Block/Valid/Exact.antt =====
-- What `block_is_valid` accepts, with or without a block before it.
use holbertonschool_blockcha.Prelude.{
  ℕ, ◌≡◌, ◌≢◌, refl, sym, ap, ◌∙◌, ◌↔◌, ◌==◌, ==_iff, ne→==_false, if◌then◌else◌, Bool, true, false,
  ◌&&◌, Option, none, some, List, length, Run, ret, Bool-cases, inl, inr, arith,
}
use holbertonschool_blockcha.Prelude.Bytes.{mem_eq, mem_eq→eq_all}
use holbertonschool_blockcha.Prelude.Host.{Host}
use holbertonschool_blockcha.Llist.{Llist}
use holbertonschool_blockcha.Crypto.{Openssl}
use holbertonschool_blockcha.Transaction.Types.{UnspentTxOut, Transaction}
use holbertonschool_blockcha.Block.Types.{Block}
use holbertonschool_blockcha.Block.Genesis.{genesis_block}
use holbertonschool_blockcha.Block.Valid.{is_genesis, block_is_valid}
use holbertonschool_blockcha.Block.Valid.Meaning.{IsNext, block_is_valid_iff}

-- The arrays have their declared lengths.
pub record HasArrays (b : Block) : Type 0 where
  pub prev_hash : length b.info.prev_hash ≡ 32
  pub buffer : length b.contents.buffer ≡ 1024
  pub hash : length b.hash ≡ 32

pub and-both : (a b : Bool) → (a && b) ≡ true → (a ≡ true) × (b ≡ true)
and-both true true h = (refl, refl)
and-both true false h = cc
and-both false b h = cc

is_null :
    (o : Option (List Transaction)) → (elim o [ none ↦ true | some _ ↦ false ]) ≡ true → o ≡ none
is_null none h = refl
is_null (some ts) h = cc

pub same_array :
    (n : ℕ) (xs ys : List ℕ) → length xs ≡ n → length ys ≡ n → mem_eq n xs ys ≡ true → xs ≡ ys
same_array n xs ys hx hy h = mem_eq→eq_all n xs ys (omega arith) (omega arith) h

-- Blocks that agree in every member.
same_members :
    (a b : Block)
    → a.info.index ≡ b.info.index
    → a.info.difficulty ≡ b.info.difficulty
    → a.info.timestamp ≡ b.info.timestamp
    → a.info.nonce ≡ b.info.nonce
    → a.info.prev_hash ≡ b.info.prev_hash
    → a.contents.buffer ≡ b.contents.buffer
    → a.contents.len ≡ b.contents.len
    → a.transactions ≡ b.transactions
    → a.hash ≡ b.hash
    → a ≡ b
same_members a b h1 h2 h3 h4 h5 h6 h7 h8 h9 = λ i. record {
  info = record {
    index = h1 i;
    difficulty = h2 i;
    timestamp = h3 i;
    nonce = h4 i;
    prev_hash = h5 i;
  };
  contents = record { buffer = h6 i; len = h7 i };
  transactions = h8 i;
  hash = h9 i;
}

is_genesis-eq : (b : Block) → HasArrays b → is_genesis b ≡ true → b ≡ genesis_block
unfolding is_genesis genesis_block
is_genesis-eq b arrays h =
    let (h8, hash) = and-both _ _ h in
    let (h7, transactions) = and-both _ _ h8 in
    let (h6, len) = and-both _ _ h7 in
    let (h5, buffer) = and-both _ _ h6 in
    let (h4, prev_hash) = and-both _ _ h5 in
    let (h3, nonce) = and-both _ _ h4 in
    let (h2, timestamp) = and-both _ _ h3 in
    let (index, difficulty) = and-both _ _ h2 in
    same_members b genesis_block ((==_iff _ _).0 index) ((==_iff _ _).0 difficulty)
      ((==_iff _ _).0 timestamp) ((==_iff _ _).0 nonce)
      (same_array 32 _ _ arrays.prev_hash refl prev_hash)
      (same_array 1024 _ _ arrays.buffer refl buffer) ((==_iff _ _).0 len)
      (is_null b.transactions transactions) (same_array 32 _ _ arrays.hash refl hash)

genesis_itself : is_genesis genesis_block ≡ true
unfolding is_genesis genesis_block mem_eq
genesis_itself = refl

genesis_index : genesis_block.info.index ≡ 0
unfolding genesis_block
genesis_index = refl

pub clash : (n : ℕ) → n ≡ 0 → (n == 0) ≢ false
clash n e h = ground arith

pub genesis_answer : (c : Bool) → ◌≡◌ {A = Run ℕ} (ret (if c then 0 else 1)) (ret 0) → c ≡ true
genesis_answer true h = refl
genesis_answer false h = cc h

module _ ⦃host : Host⦄ ⦃ll : Llist⦄ ⦃ssl : Openssl⦄ where
  pub data IsValidBlock (unspent : Option (List UnspentTxOut)) (prev : Option Block) (b : Block)
      : Type 0 where
    genesis : b ≡ genesis_block → IsValidBlock unspent prev b
    next :
        (p : Block)
        → prev ≡ some p
        → b.info.index ≢ 0
        → IsNext unspent p b
        → IsValidBlock unspent prev b

  at_zero :
      (unspent : Option (List UnspentTxOut)) (prev : Option Block) (b : Block)
      → b.info.index ≡ 0
      → block_is_valid (some b) prev unspent ≡ ret (if is_genesis b then 0 else 1)
  unfolding block_is_valid
  at_zero unspent none b e = rw e refl
  at_zero unspent (some p) b e = rw e refl

  orphan :
      (unspent : Option (List UnspentTxOut)) (b : Block)
      → b.info.index ≢ 0
      → block_is_valid (some b) none unspent ≡ ret 1
  unfolding block_is_valid
  orphan unspent b h = rw (ne→==_false b.info.index 0 h) refl

  sound_later :
      (unspent : Option (List UnspentTxOut)) (prev : Option Block) (b : Block)
      → b.info.index ≢ 0
      → block_is_valid (some b) prev unspent ≡ ret 0
      → IsValidBlock unspent prev b
  sound_later unspent none b h v =
      let no : ◌≡◌ {A = Run ℕ} (ret 1) (ret 0) = sym (orphan unspent b h) ∙ v in cc no
  sound_later unspent (some p) b h v = next p refl h ((block_is_valid_iff unspent p b h).0 v)

  sound :
      (unspent : Option (List UnspentTxOut)) (prev : Option Block) (b : Block)
      → HasArrays b
      → block_is_valid (some b) prev unspent ≡ ret 0
      → IsValidBlock unspent prev b
  sound unspent prev b arrays v = elim (Bool-cases (b.info.index == 0)) [
    | inl first ↦
        let e = (==_iff b.info.index 0).0 first in
        genesis (
          is_genesis-eq b arrays
            (genesis_answer (is_genesis b) (sym (at_zero unspent prev b e) ∙ v)))
    | inr later ↦ sound_later unspent prev b (λ e. clash (b.info.index) e later) v
  ]

  complete :
      (unspent : Option (List UnspentTxOut)) (prev : Option Block) (b : Block)
      → IsValidBlock unspent prev b
      → block_is_valid (some b) prev unspent ≡ ret 0
  complete unspent prev b (genesis e) =
      let e0 : b.info.index ≡ 0 = ap (λ t. t.info.index) e ∙ genesis_index in
      let g : is_genesis b ≡ true = ap is_genesis e ∙ genesis_itself in
      at_zero unspent prev b e0 ∙ ap (λ c. ret (if c then 0 else 1)) g
  complete unspent prev b (next p e h n) =
      ap (λ t. block_is_valid (some b) t unspent) e ∙ (block_is_valid_iff unspent p b h).1 n

  -- A block whose arrays have the declared lengths is valid exactly if it is the genesis block, or
  -- if its index is not 0, there is a block before it, and the seven conditions of a next block
  -- hold.
  pub block_is_valid-IsValidBlock :
      (unspent : Option (List UnspentTxOut)) (prev : Option Block) (b : Block)
      → HasArrays b
      → (block_is_valid (some b) prev unspent ≡ ret 0) ↔ IsValidBlock unspent prev b
  block_is_valid-IsValidBlock unspent prev b arrays =
      (sound unspent prev b arrays, complete unspent prev b)
