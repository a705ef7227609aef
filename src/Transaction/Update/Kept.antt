-- ===== src/Transaction/Update/Kept.antt =====
-- What `update_unspent` leaves in the list: what no input refers to, and what is paid out and not
-- spent further on.
use holbertonschool_blockcha.Prelude.{
  ℕ, ◌≡◌, refl, false, some, List, [], ◌∷◌, ◌++◌, All, remove_first,
}
use holbertonschool_blockcha.Llist.{Llist}
use holbertonschool_blockcha.Llist.Walk.{nodes_at_lem}
use holbertonschool_blockcha.Transaction.Types.{TxOut, TxIn, UnspentTxOut, Transaction}
use holbertonschool_blockcha.Transaction.Outputs.{unspent_tx_out_create}
use holbertonschool_blockcha.Transaction.Listed.{Elem, here, there, Elem-remove_first}
use holbertonschool_blockcha.Transaction.Update.{
  find_unspent, remove_spent, add_outputs, update_loop, update_unspent,
}

Elem-append_left : {A : Type 0} {x : A} {l : List A} (r : List A) → Elem x l → Elem x (l ++ r)
Elem-append_left r (here e) = here e
Elem-append_left r (there m) = there (Elem-append_left r m)

Elem-append_right : {A : Type 0} {x : A} (l : List A) {r : List A} → Elem x r → Elem x (l ++ r)
Elem-append_right [] m = m
Elem-append_right (y ∷ l) m = there (Elem-append_right l m)

-- No input of the transaction names the hash of the output.
abbrev pub Untouched : UnspentTxOut → Transaction → Type 0
Untouched u t = All (λ i. find_unspent i.tx_out_hash u ≡ false) t.inputs

module _ ⦃ll : Llist⦄ where
  remove_spent-Elem :
      (u : UnspentTxOut) (is : List TxIn) (l : List UnspentTxOut)
      → All (λ i. find_unspent i.tx_out_hash u ≡ false) is
      → Elem u l
      → Elem u (remove_spent is l)
  unfolding remove_spent
  remove_spent-Elem u [] l h m = m
  remove_spent-Elem u (i ∷ is) l (hi, his) m = rw (ll.remove_node_eq) (
      remove_spent-Elem u is (remove_first (find_unspent i.tx_out_hash) l) his
        (Elem-remove_first (find_unspent i.tx_out_hash) u hi m))

  add_outputs-kept :
      (hash id : List ℕ) (os : List TxOut) (u : UnspentTxOut) (l : List UnspentTxOut)
      → Elem u l
      → Elem u (add_outputs hash id os l)
  unfolding add_outputs
  add_outputs-kept hash id [] u l m = m
  add_outputs-kept hash id (o ∷ os) u l m =
      rw ll.add_rear_eq (
        add_outputs-kept hash id os u _ (Elem-append_left (unspent_tx_out_create hash id o ∷ []) m))

  add_outputs-new :
      (hash id : List ℕ) (os : List TxOut) (o : TxOut) (l : List UnspentTxOut)
      → Elem o os
      → Elem (unspent_tx_out_create hash id o) (add_outputs hash id os l)
  unfolding add_outputs
  add_outputs-new hash id [] o l m = elim m [ ]
  add_outputs-new hash id (p ∷ os) o l (here e) =
      rw (ll.add_rear_eq, e) (add_outputs-kept hash id os _ _ (Elem-append_right l (here refl)))
  add_outputs-new hash id (p ∷ os) o l (there m) = add_outputs-new hash id os o _ m

  update_loop-Elem :
      (hash : List ℕ) (u : UnspentTxOut) (ts : List Transaction) (l : List UnspentTxOut)
      → All (Untouched u) ts
      → Elem u l
      → Elem u (update_loop hash ts l)
  unfolding update_loop
  update_loop-Elem hash u [] l h m = m
  update_loop-Elem hash u (t ∷ ts) l (ht, hts) m = rw (nodes_at_lem t.inputs) (
      update_loop-Elem hash u ts _ hts
        (add_outputs-kept hash t.id _ u _ (remove_spent-Elem u t.inputs l ht m)))

  update_loop-paid :
      (hash : List ℕ) (o : TxOut) (earlier : List Transaction) (t : Transaction)
      (later : List Transaction) (l : List UnspentTxOut)
      → Elem o t.outputs
      → All (Untouched (unspent_tx_out_create hash t.id o)) later
      → Elem (unspent_tx_out_create hash t.id o) (update_loop hash (earlier ++ t ∷ later) l)
  unfolding update_loop
  update_loop-paid hash o [] t later l m h =
      rw (update_loop, nodes_at_lem t.outputs)
        (update_loop-Elem hash _ later _ h (add_outputs-new hash t.id t.outputs o _ m))
  update_loop-paid hash o (e ∷ earlier) t later l m h =
      update_loop-paid hash o earlier t later _ m h

  -- An unspent output that no input names by its hash stays unspent.
  pub update_unspent-kept :
      (u : UnspentTxOut) (ts : List Transaction) (hash : List ℕ) (l : List UnspentTxOut)
      → All (Untouched u) ts
      → Elem u l
      → (l' : List UnspentTxOut) × (update_unspent (some ts) hash (some l) ≡ some l') × Elem u l'
  unfolding update_unspent
  update_unspent-kept u ts hash l h m =
      (update_loop hash ts l, rw (nodes_at_lem ts) refl, update_loop-Elem hash u ts l h m)

  -- An output of a transaction that no later one names by its hash is unspent after the update,
  -- under the block's hash and the transaction's id.
  pub update_unspent-paid :
      (o : TxOut) (earlier : List Transaction) (t : Transaction) (later : List Transaction)
      (hash : List ℕ) (l : List UnspentTxOut)
      → Elem o t.outputs
      → All (Untouched (unspent_tx_out_create hash t.id o)) later
      → (l' : List UnspentTxOut) × (update_unspent (some (earlier ++ t ∷ later)) hash (some l)
          ≡ some l')
        × Elem (unspent_tx_out_create hash t.id o) l'
  unfolding update_unspent
  update_unspent-paid o earlier t later hash l m h = (
    update_loop hash (earlier ++ t ∷ later) l,
    rw (nodes_at_lem (earlier ++ t ∷ later)) refl,
    update_loop-paid hash o earlier t later l m h,
  )
