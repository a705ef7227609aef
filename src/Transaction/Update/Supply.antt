-- ===== src/Transaction/Update/Supply.antt =====
-- What the unspent outputs are worth before and after several transactions that were accepted over
-- one list.
use holbertonschool_blockcha.Prelude.{
  ℕ, ◌%◌, ◌^◌, ◌≡◌, refl, true, some, List, [], ◌∷◌, ◌++◌, All, All-append, take, remove_first, ret,
  arith,
}
use holbertonschool_blockcha.Llist.{Llist}
use holbertonschool_blockcha.Llist.Walk.{nodes_at_lem}
use holbertonschool_blockcha.Crypto.{Openssl}
use holbertonschool_blockcha.Transaction.Types.{TxOut, TxIn, UnspentTxOut, Transaction}
use holbertonschool_blockcha.Transaction.Listed.{Elem, here, there, remove_first-All}
use holbertonschool_blockcha.Transaction.Outputs.{unspent_tx_out_create}
use holbertonschool_blockcha.Transaction.Valid.{transaction_is_valid}
use holbertonschool_blockcha.Transaction.Valid.Meaning.{transaction_is_valid_iff}
use holbertonschool_blockcha.Transaction.Update.{
  find_unspent, remove_spent, add_outputs, update_loop,
}
use holbertonschool_blockcha.Transaction.Update.Worth.{
  worth, Priced, AreDistinct, Left, remove_first-Left, worth-remove_spent, worth-add_outputs,
}

-- The inputs of all the transactions, in their order.
abbrev pub inputs_of : List Transaction → List TxIn
inputs_of [] = []
inputs_of (t ∷ ts) = t.inputs ++ inputs_of ts

-- The outputs that are paid have the amounts that `price` gives.
abbrev pub ArePriced : (List ℕ → ℕ) → List Transaction → Type 0
ArePriced price ts = All (λ t. All (λ o. o.amount ≡ price (take 32 o.hash)) t.outputs) ts

module _ {A : Type 0} (P : A → Type 0) where
  All-snoc : (xs : List A) (y : A) → All P xs → P y → All P (xs ++ y ∷ [])
  All-snoc [] y h hy = (hy, tt)
  All-snoc (x ∷ xs) y (hx, hs) hy = (hx, All-snoc xs y hs hy)

Elem-append : {A : Type 0} {x : A} (xs ys : List A) → Elem x xs → Elem x (xs ++ ys)
Elem-append [] ys m = elim m [ ]
Elem-append (z ∷ xs) ys (here e) = here e
Elem-append (z ∷ xs) ys (there m) = there (Elem-append xs ys m)

AreDistinct-append : (is js : List TxIn) → AreDistinct (is ++ js) → AreDistinct is × AreDistinct js
AreDistinct-append [] js h = (tt, h)
AreDistinct-append (i ∷ is) js (hi, hs) =
    let (a, b) = AreDistinct-append is js hs in (((All-append _ is js hi).0, a), b)

module _ ⦃ll : Llist⦄ where
  remove_spent-All :
      (P : UnspentTxOut → Type 0) (is : List TxIn) (l : List UnspentTxOut)
      → All P l
      → All P (remove_spent is l)
  unfolding remove_spent
  remove_spent-All P [] l h = h
  remove_spent-All P (i ∷ is) l h = rw ll.remove_node_eq (
      remove_spent-All P is (remove_first (find_unspent i.tx_out_hash) l)
        (remove_first-All P (find_unspent i.tx_out_hash) l h))

  pub add_outputs-Priced :
      (price : List ℕ → ℕ) (hash id : List ℕ) (os : List TxOut) (l : List UnspentTxOut)
      → All (λ o. o.amount ≡ price (take 32 o.hash)) os
      → All (Priced price) l
      → All (Priced price) (add_outputs hash id os l)
  unfolding add_outputs unspent_tx_out_create
  add_outputs-Priced price hash id [] l ho h = h
  add_outputs-Priced price hash id (o ∷ os) l (ho, hos) h = rw ll.add_rear_eq (
      add_outputs-Priced price hash id os (l ++ unspent_tx_out_create hash id o ∷ []) hos
        (All-snoc (Priced price) l (unspent_tx_out_create hash id o) h ho))

  -- What later inputs refer to stays when other inputs are removed and outputs are added.
  remove_spent-Left :
      (utxos l : List UnspentTxOut) (is js : List TxIn)
      → AreDistinct (is ++ js)
      → All (Left utxos l) js
      → All (Left utxos (remove_spent is l)) js
  unfolding remove_spent
  remove_spent-Left utxos l [] js d h = h
  remove_spent-Left utxos l (i ∷ is) js (di, ds) h = rw ll.remove_node_eq (
      remove_spent-Left utxos (remove_first (find_unspent i.tx_out_hash) l) is js ds
        (remove_first-Left utxos l i js (All-append _ is js di).1 h))

  add_outputs-Elem :
      (hash id : List ℕ) (os : List TxOut) (l : List UnspentTxOut) {u : UnspentTxOut}
      → Elem u l
      → Elem u (add_outputs hash id os l)
  unfolding add_outputs
  add_outputs-Elem hash id [] l m = m
  add_outputs-Elem hash id (o ∷ os) l m = rw ll.add_rear_eq (
      add_outputs-Elem hash id os (l ++ unspent_tx_out_create hash id o ∷ [])
        (Elem-append l (unspent_tx_out_create hash id o ∷ []) m))

  pub add_outputs-Left :
      (hash id : List ℕ) (os : List TxOut) (utxos l : List UnspentTxOut) (js : List TxIn)
      → All (Left utxos l) js
      → All (Left utxos (add_outputs hash id os l)) js
  add_outputs-Left hash id os utxos l [] h = tt
  add_outputs-Left hash id os utxos l (j ∷ js) (hj, hs) = (
    λ u found. add_outputs-Elem hash id os l (hj u found),
    add_outputs-Left hash id os utxos l js hs,
  )

module _ ⦃ll : Llist⦄ ⦃ssl : Openssl⦄ (price : List ℕ → ℕ) (utxos : List UnspentTxOut)
    (hash : List ℕ) (priced : All (Priced price) utxos) where
  -- Transactions that were accepted over `utxos`, and whose inputs all name different hashes, keep the
  -- worth of any list that still has what they refer to, modulo 2 ^ 32.
  pub worth-update_loop :
      (ts : List Transaction) (l : List UnspentTxOut)
      → All (λ t. transaction_is_valid (some t) (some utxos) ≡ ret true) ts
      → ArePriced price ts
      → AreDistinct (inputs_of ts)
      → All (Priced price) l
      → All (Left utxos l) (inputs_of ts)
      → worth (update_loop hash ts l) % 2 ^ 32 ≡ worth l % 2 ^ 32
  unfolding update_loop
  worth-update_loop [] l valid paid distinct h left = refl
  worth-update_loop (t ∷ ts) l (v, valid) (po, paid) distinct h left =
      let a = (transaction_is_valid_iff utxos t).0 v in
      let (own, others) = AreDistinct-append t.inputs (inputs_of ts) distinct in
      let (left_own, left_others) = All-append (Left utxos l) t.inputs (inputs_of ts) left in
      let kept = remove_spent t.inputs l in
      let next = add_outputs hash t.id t.outputs kept in
      let spent =
        worth-remove_spent price utxos t.id t.inputs a.total l priced h own left_own a.spent in
      let added = worth-add_outputs price hash t.id t.outputs kept in
      let rest =
        worth-update_loop ts next valid paid others
          (add_outputs-Priced price hash t.id t.outputs kept po
            (remove_spent-All (Priced price) t.inputs l h))
          (add_outputs-Left hash t.id t.outputs utxos kept (inputs_of ts)
            (remove_spent-Left utxos l t.inputs (inputs_of ts) distinct left_others)) in
      rw (nodes_at_lem t.inputs, nodes_at_lem t.outputs)
        (omega (arith, rest, spent, added, a.balanced))
