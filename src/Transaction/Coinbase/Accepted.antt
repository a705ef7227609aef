-- ===== src/Transaction/Coinbase/Accepted.antt =====
-- What `coinbase_create` makes is what `coinbase_is_valid` accepts.
use holbertonschool_blockcha.Prelude.{
  ℕ, ◌≡◌, ◌≢◌, refl, true, Option, none, some, List, [], ◌∷◌, ◌++◌, replicate, Option-cases, inl,
  inr, arith,
}
use holbertonschool_blockcha.Prelude.Bytes.{mem_eq_refl, mem_eq-append}
use holbertonschool_blockcha.Prelude.Host.{Host, bytes_of, length-bytes_of}
use holbertonschool_blockcha.Llist.{Llist}
use holbertonschool_blockcha.Crypto.{Openssl, ec_to_pub, sha256}
use holbertonschool_blockcha.Transaction.Types.{TxIn, TxOut, Transaction}
use holbertonschool_blockcha.Transaction.Outputs.{tx_out_create}
use holbertonschool_blockcha.Transaction.Hash.{transaction_hash}
use holbertonschool_blockcha.Transaction.Hash.Total.{transaction_hash-some}
use holbertonschool_blockcha.Transaction.Coinbase.{
  is_empty, coinbase_input, coinbase_create_continue, coinbase_create, coinbase_parts,
  coinbase_is_valid,
}

module _ ⦃host : Host⦄ ⦃ll : Llist⦄ ⦃ssl : Openssl⦄ where
  parts_hold :
      (block_index : ℕ) (output : TxOut)
      → output.amount ≡ 50
      → coinbase_parts block_index (coinbase_input block_index) output ≡ true
  unfolding coinbase_parts coinbase_input is_empty
  parts_hold block_index output h =
      rw (
        mem_eq-append 4 (bytes_of 4 block_index) (replicate 28 0) (length-bytes_of 4 block_index),
        h,
      )

  -- The id is not part of what is hashed.
  hash_without_id :
      (id seed : List ℕ) (inputs : List TxIn) (outputs : List TxOut)
      → transaction_hash (record { id = id; inputs = inputs; outputs = outputs })
        ≡ transaction_hash (record { id = seed; inputs = inputs; outputs = outputs })
  unfolding transaction_hash
  hash_without_id id seed inputs outputs = refl

  sealed-IsValid :
      (block_index : ℕ) (output : TxOut) (id seed : List ℕ)
      → output.amount ≡ 50
      → transaction_hash
          (record { id = seed; inputs = coinbase_input block_index ∷ []; outputs = output ∷ [] })
        ≡ some id
      → coinbase_is_valid
          (some
            (record { id = id; inputs = coinbase_input block_index ∷ []; outputs = output ∷ [] }))
          block_index
        ≡ true
  unfolding coinbase_is_valid
  sealed-IsValid block_index output id seed fifty h = simp (
    coinbase_is_valid,
    hash_without_id id seed (coinbase_input block_index ∷ []) (output ∷ []),
    h,
    mem_eq_refl,
    ll.size_eq,
    ll.get_node_at_eq,
    parts_hold block_index output fifty,
  )

  -- The output of 50 is made.
  reward_output :
      (pubkey : List ℕ)
      → ((s : List ℕ) → sha256 s ≢ none)
      → (output : TxOut) × (tx_out_create 50 pubkey ≡ some output) × (output.amount ≡ 50)
  unfolding tx_out_create
  reward_output pubkey digests = elim (Option-cases (sha256 (bytes_of 4 50 ++ pubkey))) [
    | inl failed ↦ absurd (digests _ failed)
    | inr (hash, e) ↦ (record { amount = 50; pubkey = pubkey; hash = hash }, rw e, refl)
  ]

  abbrev empty_with : ℕ → TxOut → Transaction
  empty_with block_index output = record {
    id = replicate 32 0;
    inputs = coinbase_input block_index ∷ [];
    outputs = output ∷ [];
  }

  -- With a known public key and a digest that does not fail, a coinbase transaction is made, and
  -- it is valid for its block index.
  pub coinbase_create-IsValid :
      (receiver : Option ssl.EcKey) (pubkey : List ℕ) (block_index : ℕ)
      → ec_to_pub receiver ≡ some pubkey
      → ((s : List ℕ) → sha256 s ≢ none)
      → (tx : Transaction) × (coinbase_create receiver block_index ≡ some tx)
        × (coinbase_is_valid (some tx) block_index ≡ true)
  unfolding coinbase_create coinbase_create_continue
  coinbase_create-IsValid receiver pubkey block_index known digests =
      let (output, made, fifty) = reward_output pubkey digests in
      let unsealed = empty_with block_index output in
      let (id, hashed) = transaction_hash-some unsealed digests (omega arith) in
      (
        record unsealed { id = id },
        simp (coinbase_create, known, coinbase_create_continue, made, ll.add_rear_eq, hashed),
        sealed-IsValid block_index output id (replicate 32 0) fifty hashed,
      )
