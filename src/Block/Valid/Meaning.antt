-- ===== src/Block/Valid/Meaning.antt =====
-- What `block_is_valid` accepts after another block, stated without its tests' order.
use holbertonschool_blockcha.Prelude.{
  ℕ, suc, ◌+◌, ◌%◌, ◌^◌, ◌≤◌, ◌≡◌, ◌≢◌, refl, ◌↔◌, ltb, le→ltb, ◌==◌, ==_iff, ne→==_false,
  if◌then◌else◌, Bool, true, false, not, ◌&&◌, ◌||◌, Option, some, List, [], ◌∷◌, All, length,
  replicate, Run, ret, ub, ◌>>=◌, >>=-eq-ret, passed, not-false, ltb-false, Bool-cases, inl, inr,
  Option-cases, suc-eq_zero,
}
use holbertonschool_blockcha.Prelude.Bytes.{mem_eq}
use holbertonschool_blockcha.Prelude.Host.{Host}
use holbertonschool_blockcha.Llist.{Llist}
use holbertonschool_blockcha.Llist.Walk.{nodes_at_lem}
use holbertonschool_blockcha.Crypto.{Openssl}
use holbertonschool_blockcha.Transaction.Types.{UnspentTxOut, Transaction}
use holbertonschool_blockcha.Transaction.Valid.{transaction_is_valid}
use holbertonschool_blockcha.Transaction.Coinbase.{coinbase_is_valid}
use holbertonschool_blockcha.Block.Types.{Block}
use holbertonschool_blockcha.Block.Hash.{block_hash}
use holbertonschool_blockcha.Block.Difficulty.{hash_matches_difficulty}
use holbertonschool_blockcha.Block.Valid.{
  validate_loop, validate_transactions, check_block, check_link, block_is_valid,
}

not-both : (a b : Bool) → (not a || not b) ≡ false → (a ≡ true) × (b ≡ true)
not-both true true h = (refl, refl)
not-both true false h = cc
not-both false b h = cc

-- A check that returns `true` only if the rest is reached as well.
checked :
    (m k : Run Bool)
    → (m >>= λ v. if not v then ret false else k) ≡ ret true
    → (m ≡ ret true) × (k ≡ ret true)
checked (ret true) k h = (refl, h)
checked (ret false) k h = cc
checked ub k h = cc

answered :
    (m : Run Bool) (c : Bool) → (m >>= λ v. ret (v && c)) ≡ ret true → (m ≡ ret true) × (c ≡ true)
answered (ret true) true h = (refl, refl)
answered (ret true) false h = cc
answered (ret false) c h = cc
answered ub c h = cc

-- The last answer of `check_block`.
settled : (m : Run Bool) → ◌>>=◌ {B = ℕ} m (λ v. ret (if v then 0 else 1)) ≡ ret 0 → m ≡ ret true
settled (ret true) h = refl
settled (ret false) h = cc
settled ub h = cc

module _ ⦃host : Host⦄ ⦃ll : Llist⦄ ⦃ssl : Openssl⦄ where
  -- The stored hash of a block is its hash.
  pub record IsHashed (b : Block) : Type 0 where
    pub digest : List ℕ
    pub hashed : block_hash b (replicate 32 0) ≡ ret digest
    pub stored : mem_eq 32 digest b.hash ≡ true

  -- The first transaction is a coinbase of this index, the others are valid.
  pub data AreTransactions (index : ℕ) (unspent : Option (List UnspentTxOut))
      : Option (List Transaction) → Type 0 where
    listed :
        (coinbase : Transaction) (rest : List Transaction)
        → coinbase_is_valid (some coinbase) index ≡ true
        → All (λ t. transaction_is_valid (some t) unspent ≡ ret true) rest
        → AreTransactions index unspent (some (coinbase ∷ rest))

  -- `b` may follow `prev`.
  pub record IsNext (unspent : Option (List UnspentTxOut)) (prev b : Block) : Type 0 where
    pub index : b.info.index ≡ (prev.info.index + 1) % 2 ^ 32
    pub prev_hashed : IsHashed prev
    pub linked : mem_eq 32 prev.hash b.info.prev_hash ≡ true
    pub hashed : IsHashed b
    pub fits : b.contents.len ≤ 1024
    pub difficult : hash_matches_difficulty b.hash b.info.difficulty ≡ ret true
    pub transactions : AreTransactions b.info.index unspent b.transactions

  loop_sound :
      (index i : ℕ) (ts : List Transaction) (unspent : Option (List UnspentTxOut))
      → validate_loop index (suc i) ts unspent ≡ ret true
      → All (λ t. transaction_is_valid (some t) unspent ≡ ret true) ts
  unfolding validate_loop
  loop_sound index i [] unspent h = tt
  loop_sound index i (t ∷ ts) unspent h =
      let (ht, hts) = checked (transaction_is_valid (some t) unspent) _ h in
      (ht, loop_sound index (suc i) ts unspent hts)

  loop_complete :
      (index i : ℕ) (ts : List Transaction) (unspent : Option (List UnspentTxOut))
      → All (λ t. transaction_is_valid (some t) unspent ≡ ret true) ts
      → validate_loop index (suc i) ts unspent ≡ ret true
  unfolding validate_loop
  loop_complete index i [] unspent h = refl
  loop_complete index i (t ∷ ts) unspent (ht, hts) =
      rw (ht, loop_complete index (suc i) ts unspent hts)

  first_sound :
      (index : ℕ) (ts : List Transaction) (unspent : Option (List UnspentTxOut))
      → validate_loop index 0 ts unspent ≡ ret true
      → not (length ts == 0) ≡ true
      → AreTransactions index unspent (some ts)
  unfolding validate_loop
  first_sound index [] unspent h some_node = cc
  first_sound index (c ∷ ts) unspent h some_node =
      elim (Bool-cases (coinbase_is_valid (some c) index)) [
        | inl good ↦ listed c ts good (loop_sound index 0 ts unspent (rw good at h))
        | inr bad ↦ cc (rw bad at h)
      ]

  transactions_sound :
      (b : Block) (unspent : Option (List UnspentTxOut))
      → validate_transactions b unspent ≡ ret true
      → AreTransactions b.info.index unspent b.transactions
  unfolding validate_transactions
  transactions_sound b unspent h = elim (Option-cases b.transactions) [
    | inl null ↦ cc (rw null at h)
    | inr (ts, e) ↦
        let listed_h : (validate_loop b.info.index 0 ts unspent >>= λ v.
        ret (v && not (length ts == 0)))
            ≡ ret true =
          rw (e, nodes_at_lem ts, ll.size_eq ts) at h in
        let (loop, nonempty) = answered _ _ listed_h in
        rw e (first_sound b.info.index ts unspent loop nonempty)
  ]

  listed_complete :
      (index : ℕ) (unspent : Option (List UnspentTxOut)) (o : Option (List Transaction))
      → AreTransactions index unspent o
      → (b : Block) → b.info.index ≡ index
      → b.transactions ≡ o
      → validate_transactions b unspent ≡ ret true
  unfolding validate_transactions validate_loop
  listed_complete index unspent o (listed c ts good rest) b at e =
      let good' : coinbase_is_valid (some c) b.info.index ≡ true = rw at good in
      simp (
        validate_transactions,
        e,
        nodes_at_lem,
        ll.size_eq,
        good',
        loop_complete b.info.index 0 ts unspent rest,
        suc-eq_zero,
      )

  valid_sound :
      (unspent : Option (List UnspentTxOut)) (prev b : Block)
      → check_link b prev unspent ≡ ret 0
      → IsNext unspent prev b
  unfolding check_link check_block
  valid_sound unspent prev b h =
      let (c1, h2) = passed (not (b.info.index == (prev.info.index + 1) % 2 ^ 32)) _ h in
      let (dp, hp, h3) = >>=-eq-ret (block_hash prev (replicate 32 0)) _ h2 in
      let (c2, h4) =
        passed (not (mem_eq 32 dp prev.hash) || not (mem_eq 32 prev.hash b.info.prev_hash)) _ h3 in
      let (stored, linked) = not-both _ _ c2 in
      let (d, hd, h5) = >>=-eq-ret (block_hash b (replicate 32 0)) _ h4 in
      let (c3, h6) = passed (not (mem_eq 32 d b.hash)) _ h5 in
      let (c4, h7) = passed (ltb 1024 b.contents.len) _ h6 in
      let (m, hm, h8) = >>=-eq-ret (hash_matches_difficulty b.hash b.info.difficulty) _ h7 in
      let (c5, h9) = passed (not m) _ h8 in
      let m_true : m ≡ true = not-false m c5 in
      record {
        index = (==_iff _ _).0 (not-false _ c1);
        prev_hashed = record { digest = dp; hashed = hp; stored = stored };
        linked = linked;
        hashed = record { digest = d; hashed = hd; stored = not-false _ c3 };
        fits = ltb-false 1024 b.contents.len c4;
        difficult = cc (hm, m_true);
        transactions = transactions_sound b unspent (settled _ h9);
      }

  valid_complete :
      (unspent : Option (List UnspentTxOut)) (prev b : Block)
      → IsNext unspent prev b
      → check_link b prev unspent ≡ ret 0
  unfolding check_link check_block
  valid_complete unspent prev b n = rw (
    check_link,
    (==_iff b.info.index _).1 n.index,
    n.prev_hashed.hashed,
    n.prev_hashed.stored,
    n.linked,
    check_block,
    n.hashed.hashed,
    n.hashed.stored,
    le→ltb 1024 b.contents.len n.fits,
    n.difficult,
    listed_complete b.info.index unspent b.transactions n.transactions b refl refl,
  )

  -- A block with an index other than 0 is valid after another exactly if its index is the next one,
  -- both stored hashes are right, it names the other's hash, its data fits, its hash matches its
  -- difficulty, and its transactions are a coinbase and valid ones.
  pub block_is_valid_iff :
      (unspent : Option (List UnspentTxOut)) (prev b : Block)
      → b.info.index ≢ 0
      → (block_is_valid (some b) (some prev) unspent ≡ ret 0) ↔ IsNext unspent prev b
  unfolding block_is_valid
  block_is_valid_iff unspent prev b h = (
    λ v. valid_sound unspent prev b (rw (ne→==_false b.info.index 0 h) at v),
    λ n. rw (block_is_valid, ne→==_false b.info.index 0 h) (valid_complete unspent prev b n),
  )
