-- ===== src/Transaction/Update/Worth.antt =====
-- What the unspent outputs are worth before and after a transaction.
use holbertonschool_blockcha.Prelude.{
  ℕ, ◌+◌, ◌%◌, ◌^◌, ◌≡◌, sym, ◌∙◌, true, false, some, List, [], ◌∷◌, ◌++◌, All, take, find?,
  remove_first, ret, Bool-cases, inl, inr, arith,
}
use holbertonschool_blockcha.Prelude.Bytes.{mem_eq, mem_eq→eq, mem_eq_refl, mem_eq_same}
use holbertonschool_blockcha.Llist.{Llist}
use holbertonschool_blockcha.Llist.Walk.{nodes_at_lem}
use holbertonschool_blockcha.Crypto.{Openssl}
use holbertonschool_blockcha.Transaction.Types.{TxOut, TxIn, UnspentTxOut, Transaction}
use holbertonschool_blockcha.Transaction.Listed.{
  Elem, All-Elem, here, there, Elem-remove_first, found-Elem, remove_first-All,
}
use holbertonschool_blockcha.Transaction.Outputs.{unspent_tx_out_create}
use holbertonschool_blockcha.Transaction.Valid.{in_out_match, transaction_is_valid}
use holbertonschool_blockcha.Transaction.Valid.Meaning.{
  total_out, SpendAll, done, spend, transaction_is_valid_iff,
}
use holbertonschool_blockcha.Transaction.Update.{
  find_unspent, remove_spent, add_outputs, update_loop, update_unspent,
}

-- The sum of the amounts, without a width.
unfoldable pub worth : List UnspentTxOut → ℕ
worth [] = 0
worth (u ∷ us) = u.out.amount + worth us

-- Outputs of one hash have one amount, which `price` gives.
abbrev pub Priced : (List ℕ → ℕ) → UnspentTxOut → Type 0
Priced price u = u.out.amount ≡ price (take 32 u.out.hash)

-- No two inputs name one hash.
abbrev pub AreDistinct : List TxIn → Type 0
AreDistinct [] = Unit
AreDistinct (i ∷ is) = All (λ j. mem_eq 32 j.tx_out_hash i.tx_out_hash ≡ false) is × AreDistinct is

same_price :
    (price : List ℕ → ℕ) (hash : List ℕ) (u v : UnspentTxOut)
    → Priced price u
    → Priced price v
    → find_unspent hash u ≡ true
    → find_unspent hash v ≡ true
    → u.out.amount ≡ v.out.amount
unfolding find_unspent
same_price price hash u v pu pv hu hv =
    let eu = mem_eq→eq 32 u.out.hash hash hu in
    let ev = mem_eq→eq 32 v.out.hash hash hv in cc (pu, pv, eu, ev)

-- The output that is removed is worth what any listed one of that hash is.
worth-remove_first :
    (price : List ℕ → ℕ) (hash : List ℕ) (l : List UnspentTxOut) (u : UnspentTxOut)
    → All (Priced price) l
    → Elem u l
    → Priced price u
    → find_unspent hash u ≡ true
    → u.out.amount + worth (remove_first (find_unspent hash) l) ≡ worth l
unfolding worth
worth-remove_first price hash [] u hs m pu hit = elim m [ ]
worth-remove_first price hash (v ∷ l) u (hv, hs) (here e) pu hit =
    let first : find_unspent hash v ≡ true = rw e at hit in
    let same = same_price price hash u v pu hv hit first in rw first (omega (arith, same))
worth-remove_first price hash (v ∷ l) u (hv, hs) (there m) pu hit =
    elim (Bool-cases (find_unspent hash v)) [
      | inl first ↦
          let same = same_price price hash u v pu hv hit first in rw first (omega (arith, same))
      | inr later ↦ rw later (omega (arith, worth-remove_first price hash l u hs m pu hit))
    ]

worth-append :
    (l : List UnspentTxOut) (u : UnspentTxOut) → worth (l ++ u ∷ []) ≡ worth l + u.out.amount
unfolding worth
worth-append [] u = omega arith
worth-append (v ∷ l) u = omega (arith, worth-append l u)

-- An input that refers to an output names its hash.
matched_hash :
    (i : TxIn) (u : UnspentTxOut)
    → in_out_match i u ≡ true
    → mem_eq 32 i.tx_out_hash u.out.hash ≡ true
unfolding in_out_match
matched_hash i u h = elim (Bool-cases (mem_eq 32 i.tx_out_hash u.out.hash)) [
  | inl same ↦ same
  | inr other ↦ cc (rw (in_out_match, other) at h)
]

matched-find_unspent :
    (i : TxIn) (u : UnspentTxOut) → in_out_match i u ≡ true → find_unspent i.tx_out_hash u ≡ true
unfolding find_unspent
matched-find_unspent i u h =
    sym (mem_eq_same 32 i.tx_out_hash u.out.hash i.tx_out_hash (matched_hash i u h))
    ∙ mem_eq_refl 32 i.tx_out_hash

-- An input of another hash refers to an output of another hash.
other-find_unspent :
    (i j : TxIn) (u : UnspentTxOut)
    → in_out_match j u ≡ true
    → mem_eq 32 j.tx_out_hash i.tx_out_hash ≡ false
    → find_unspent i.tx_out_hash u ≡ false
unfolding find_unspent
other-find_unspent i j u h distinct =
    sym (mem_eq_same 32 j.tx_out_hash u.out.hash i.tx_out_hash (matched_hash j u h)) ∙ distinct

-- What each input refers to is in the list `l`.
abbrev pub Left : List UnspentTxOut → List UnspentTxOut → TxIn → Type 0
Left utxos l i = (u : UnspentTxOut) → find? (in_out_match i) utxos ≡ some u → Elem u l

pub remove_first-Left :
    (utxos l : List UnspentTxOut) (i : TxIn) (is : List TxIn)
    → All (λ j. mem_eq 32 j.tx_out_hash i.tx_out_hash ≡ false) is
    → All (Left utxos l) is
    → All (Left utxos (remove_first (find_unspent i.tx_out_hash) l)) is
remove_first-Left utxos l i [] d h = tt
remove_first-Left utxos l i (j ∷ is) (dj, ds) (hj, hs) = (
  λ u found.
      Elem-remove_first (find_unspent i.tx_out_hash) u
        (other-find_unspent i j u (found-Elem (in_out_match j) utxos found).1 dj) (hj u found),
  remove_first-Left utxos l i is ds hs,
)

module _ ⦃ll : Llist⦄ ⦃ssl : Openssl⦄ (price : List ℕ → ℕ) where
  -- Removing what the inputs spend takes away what they are worth.
  pub worth-remove_spent :
      (utxos : List UnspentTxOut) (id : List ℕ) (is : List TxIn) (total : ℕ) (l : List UnspentTxOut)
      → All (Priced price) utxos
      → All (Priced price) l
      → AreDistinct is
      → All (Left utxos l) is
      → SpendAll utxos id is total
      → total + worth (remove_spent is l) ≡ worth l
  unfolding remove_spent
  worth-remove_spent utxos id [] total l hu hl d h (done e) = omega (arith, e)
  worth-remove_spent utxos id (i ∷ is) total l hu hl (di, ds) (hi, hs) (spend u more s spent e) =
      let (listed, matched) = found-Elem (in_out_match i) utxos s.found in
      let without = remove_first (find_unspent i.tx_out_hash) l in
      let now =
        worth-remove_first price i.tx_out_hash l u hl (hi u s.found)
          (All-Elem (Priced price) utxos hu listed) (matched-find_unspent i u matched) in
      let later =
        worth-remove_spent utxos id is more without hu
          (remove_first-All (Priced price) (find_unspent i.tx_out_hash) l hl) ds
          (remove_first-Left utxos l i is di hs) spent in
      rw ll.remove_node_eq (omega (arith, now, later, e))

  pub worth-add_outputs :
      (hash id : List ℕ) (os : List TxOut) (l : List UnspentTxOut)
      → worth (add_outputs hash id os l) ≡ worth l + total_out os
  unfolding add_outputs total_out unspent_tx_out_create
  worth-add_outputs hash id [] l = omega arith
  worth-add_outputs hash id (o ∷ os) l =
      let u = unspent_tx_out_create hash id o in
      rw ll.add_rear_eq
        (omega (arith, worth-add_outputs hash id os (l ++ u ∷ []), worth-append l u))

  pub all-Left : (utxos : List UnspentTxOut) (is : List TxIn) → All (Left utxos utxos) is
  all-Left utxos [] = tt
  all-Left utxos (i ∷ is) =
      (λ u found. (found-Elem (in_out_match i) utxos found).0, all-Left utxos is)

  -- An accepted transaction whose inputs name pairwise different hashes neither makes nor destroys
  -- coins modulo 2 ^ 32 when the unspent outputs are updated, if unspent outputs of one hash have
  -- one amount.
  pub accepted-worth :
      (utxos : List UnspentTxOut) (t : Transaction) (hash : List ℕ)
      → All (Priced price) utxos
      → AreDistinct t.inputs
      → transaction_is_valid (some t) (some utxos) ≡ ret true
      → (utxos' : List UnspentTxOut) × (update_unspent (some (t ∷ [])) hash (some utxos)
          ≡ some utxos')
        × (worth utxos' % 2 ^ 32 ≡ worth utxos % 2 ^ 32)
  unfolding update_unspent update_loop
  accepted-worth utxos t hash priced distinct valid =
      let a = (transaction_is_valid_iff utxos t).0 valid in
      let kept = remove_spent t.inputs utxos in
      let spent =
        worth-remove_spent utxos t.id t.inputs a.total utxos priced priced distinct
          (all-Left utxos t.inputs) a.spent in
      let paid = worth-add_outputs hash t.id t.outputs kept in
      (
        add_outputs hash t.id t.outputs kept,
        rw (nodes_at_lem (t ∷ []), update_loop, nodes_at_lem t.inputs, nodes_at_lem t.outputs),
        omega (arith, spent, paid, a.balanced),
      )
