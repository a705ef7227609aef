-- ===== src/Block/Supply.antt =====
-- The coins that a valid block makes.
use holbertonschool_blockcha.Prelude.{
  ℕ, ◌+◌, ◌%◌, ◌^◌, ◌≡◌, ◌≢◌, refl, ◌==◌, ==_iff, true, false, some, List, [], ◌∷◌, All, length,
  remove_first, ret, Bool-cases, Option-cases, inl, inr, arith,
}
use holbertonschool_blockcha.Prelude.Host.{Host}
use holbertonschool_blockcha.Prelude.Bytes.{mem_eq}
use holbertonschool_blockcha.Llist.{Llist}
use holbertonschool_blockcha.Llist.Walk.{nodes_at_lem}
use holbertonschool_blockcha.Crypto.{Openssl}
use holbertonschool_blockcha.Transaction.Types.{TxOut, TxIn, UnspentTxOut, Transaction}
use holbertonschool_blockcha.Transaction.Hash.{transaction_hash}
use holbertonschool_blockcha.Transaction.Coinbase.{coinbase_parts, coinbase_is_valid}
use holbertonschool_blockcha.Transaction.Update.{
  find_unspent, remove_spent, add_outputs, update_loop, update_unspent,
}
use holbertonschool_blockcha.Transaction.Update.Worth.{
  worth, Priced, AreDistinct, all-Left, worth-add_outputs,
}
use holbertonschool_blockcha.Transaction.Update.Supply.{
  inputs_of, ArePriced, worth-update_loop, add_outputs-Priced, add_outputs-Left,
}
use holbertonschool_blockcha.Transaction.Valid.{transaction_is_valid}
use holbertonschool_blockcha.Transaction.Valid.Meaning.{total_out}
use holbertonschool_blockcha.Block.Types.{Block}
use holbertonschool_blockcha.Block.Valid.{block_is_valid}
use holbertonschool_blockcha.Block.Valid.Meaning.{AreTransactions, listed, block_is_valid_iff}

one_element : {A : Type 0} (l : List A) → (length l == 1) ≡ true → (x : A) × (l ≡ x ∷ [])
one_element [] h = cc
one_element (x ∷ []) h = (x, refl)
one_element (x ∷ y ∷ l) h = absurd (omega (arith, (==_iff (length (x ∷ y ∷ l)) 1).0 h))

module _ ⦃host : Host⦄ where
  parts_amount : (n : ℕ) (i : TxIn) (o : TxOut) → coinbase_parts n i o ≡ true → o.amount ≡ 50
  unfolding coinbase_parts
  parts_amount n i o h = ground arith

module _ ⦃host : Host⦄ ⦃ll : Llist⦄ ⦃ssl : Openssl⦄ where
  -- A valid coinbase transaction has one input and one output, of 50 coins.
  pub record PaysCoinbase (c : Transaction) : Type 0 where
    pub input : TxIn
    pub output : TxOut
    pub inputs : c.inputs ≡ input ∷ []
    pub outputs : c.outputs ≡ output ∷ []
    pub amount : output.amount ≡ 50

  coinbase-PaysCoinbase :
      (c : Transaction) (n : ℕ) → coinbase_is_valid (some c) n ≡ true → PaysCoinbase c
  unfolding coinbase_is_valid
  coinbase-PaysCoinbase c n h = elim (Option-cases (transaction_hash c)) [
    | inl e ↦ cc (rw (coinbase_is_valid, e) at h)
    | inr (d, e) ↦ elim (Bool-cases (mem_eq 32 c.id d)) [
      | inr other ↦ cc (rw (coinbase_is_valid, e, other) at h)
      | inl same ↦ elim (Bool-cases (length c.inputs == 1)) [
        | inr no_input ↦ cc (rw (coinbase_is_valid, e, same, ll.size_eq c.inputs, no_input) at h)
        | inl one_input ↦ elim (Bool-cases (length c.outputs == 1)) [
          | inr no_output ↦ cc (
              rw
                (
                  coinbase_is_valid,
                  e,
                  same,
                  ll.size_eq c.inputs,
                  one_input,
                  ll.size_eq c.outputs,
                  no_output,
                )
                at h)
          | inl one_output ↦
              let (i, ins) = one_element c.inputs one_input in
              let (o, outs) = one_element c.outputs one_output in
              let at_0 : ll.get_node_at c.inputs 0 ≡ some i = rw (ll.get_node_at_eq, ins) in
              let at_0' : ll.get_node_at c.outputs 0 ≡ some o = rw (ll.get_node_at_eq, outs) in
              let parts =
                rw
                  (
                    coinbase_is_valid,
                    e,
                    same,
                    ll.size_eq c.inputs,
                    one_input,
                    ll.size_eq c.outputs,
                    one_output,
                    at_0,
                    at_0',
                  )
                  at h in
              record {
                input = i;
                output = o;
                inputs = ins;
                outputs = outs;
                amount = parts_amount n i o parts;
              }
        ]
      ]
    ]
  ]

  total_coinbase : (c : Transaction) → PaysCoinbase c → total_out c.outputs ≡ 50
  unfolding total_out
  total_coinbase c p = rw p.outputs (omega (arith, p.amount))

  both :
      (n : ℕ) (utxos : List UnspentTxOut) (c : Transaction) (ts : List Transaction)
      → AreTransactions n (some utxos) (some (c ∷ ts))
      → (coinbase_is_valid (some c) n ≡ true)
        × All (λ t. transaction_is_valid (some t) (some utxos) ≡ ret true) ts
  both n utxos c ts (listed _ _ good rest) = (good, rest)

  -- Nothing in the list has the hash that the inputs name.
  abbrev pub NamesNothing : List TxIn → List UnspentTxOut → Type 0
  NamesNothing is utxos = All (λ i. All (λ u. find_unspent i.tx_out_hash u ≡ false) utxos) is

  remove_nothing :
      (hash : List ℕ) (l : List UnspentTxOut)
      → All (λ u. find_unspent hash u ≡ false) l
      → remove_first (find_unspent hash) l ≡ l
  remove_nothing hash [] h = refl
  remove_nothing hash (u ∷ l) (hu, hs) = rw (hu, remove_nothing hash l hs)

  remove_spent-nothing :
      (is : List TxIn) (utxos : List UnspentTxOut)
      → NamesNothing is utxos
      → remove_spent is utxos ≡ utxos
  unfolding remove_spent
  remove_spent-nothing [] utxos h = refl
  remove_spent-nothing (i ∷ is) utxos (hi, hs) =
      rw
        (ll.remove_node_eq, remove_nothing i.tx_out_hash utxos hi, remove_spent-nothing is utxos hs)

  -- After the coinbase, which takes nothing away, the accepted transactions keep the worth.
  worth-after_coinbase :
      (price : List ℕ → ℕ) (utxos : List UnspentTxOut) (hash : List ℕ) (c : Transaction)
      (ts : List Transaction)
      → PaysCoinbase c
      → All (λ t. transaction_is_valid (some t) (some utxos) ≡ ret true) ts
      → All (Priced price) utxos
      → ArePriced price (c ∷ ts)
      → AreDistinct (inputs_of ts)
      → NamesNothing c.inputs utxos
      → worth (update_loop hash (c ∷ ts) utxos) % 2 ^ 32 ≡ (worth utxos + 50) % 2 ^ 32
  unfolding update_loop
  worth-after_coinbase price utxos hash c ts p valid priced (po, paid) distinct fresh =
      let start = add_outputs hash c.id c.outputs utxos in
      let rest =
        worth-update_loop price utxos hash priced ts start valid paid distinct
          (add_outputs-Priced price hash c.id c.outputs utxos po priced)
          (add_outputs-Left hash c.id c.outputs utxos utxos (inputs_of ts)
            (all-Left price utxos (inputs_of ts))) in
      let added = worth-add_outputs price hash c.id c.outputs utxos in
      rw (nodes_at_lem c.inputs, nodes_at_lem c.outputs, remove_spent-nothing c.inputs utxos fresh)
        (omega (arith, rest, added, total_coinbase c p))

  -- When the unspent outputs are updated with a valid block, they are worth exactly 50 coins more,
  -- modulo 2 ^ 32: if the inputs behind the coinbase name pairwise different hashes, the
  -- coinbase's input names none of an unspent output, and outputs of one hash have one amount.
  pub valid_block-worth :
      (price : List ℕ → ℕ) (utxos : List UnspentTxOut) (prev b : Block) (c : Transaction)
      (ts : List Transaction)
      → b.info.index ≢ 0
      → block_is_valid (some b) (some prev) (some utxos) ≡ ret 0
      → b.transactions ≡ some (c ∷ ts)
      → AreDistinct (inputs_of ts)
      → NamesNothing c.inputs utxos
      → All (Priced price) utxos
      → ArePriced price (c ∷ ts)
      → (utxos' : List UnspentTxOut) × (update_unspent b.transactions b.hash (some utxos)
          ≡ some utxos')
        × (worth utxos' % 2 ^ 32 ≡ (worth utxos + 50) % 2 ^ 32)
  unfolding update_unspent
  valid_block-worth price utxos prev b c ts later valid e distinct fresh priced paid =
      let n = (block_is_valid_iff (some utxos) prev b later).0 valid in
      let (good, accepted) = both b.info.index utxos c ts (rw e at n.transactions) in
      (
        update_loop b.hash (c ∷ ts) utxos,
        rw (e, nodes_at_lem (c ∷ ts)),
        worth-after_coinbase price utxos b.hash c ts (coinbase-PaysCoinbase c b.info.index good)
            accepted priced paid distinct fresh,
      )
