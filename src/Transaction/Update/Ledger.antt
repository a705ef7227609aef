-- ===== src/Transaction/Update/Ledger.antt =====
-- The list of unspent outputs as a ledger: how many outputs of each hash can be spent, whatever their
-- order, and that `update_unspent` does to it what the transactions say.
use holbertonschool_blockcha.Prelude.{
  ℕ, suc, ◌+◌, ◌-◌, ◌≡◌, refl, sym, ap, ◌∙◌, if◌then◌else◌, true, some, List, [], ◌∷◌, ◌++◌,
  remove_first, Bool-cases, inl, inr, arith,
}
use holbertonschool_blockcha.Prelude.Bytes.{mem_eq, mem_eq_refl, mem_eq_same}
use holbertonschool_blockcha.Llist.{Llist}
use holbertonschool_blockcha.Llist.Walk.{nodes_at_lem}
use holbertonschool_blockcha.Transaction.Types.{TxOut, TxIn, UnspentTxOut, Transaction}
use holbertonschool_blockcha.Transaction.Outputs.{unspent_tx_out_create}
use holbertonschool_blockcha.Transaction.Update.{
  find_unspent, remove_spent, add_outputs, update_loop, update_unspent,
}

-- For each hash, the number of outputs with it.
abbrev pub Ledger : Type 0
Ledger = List ℕ → ℕ

unfoldable pub one_less : List ℕ → Ledger → Ledger
one_less hash ledger key = if mem_eq 32 hash key then ledger key - 1 else ledger key

unfoldable pub one_more : List ℕ → Ledger → Ledger
one_more hash ledger key = if mem_eq 32 hash key then ledger key + 1 else ledger key

-- A transaction spends one output for each input, and then pays each of its outputs.
unfoldable pub spend : List TxIn → Ledger → Ledger
spend [] ledger = ledger
spend (i ∷ is) ledger = spend is (one_less i.tx_out_hash ledger)

unfoldable pub pay : List TxOut → Ledger → Ledger
pay [] ledger = ledger
pay (o ∷ os) ledger = pay os (one_more o.hash ledger)

unfoldable pub settle : List Transaction → Ledger → Ledger
settle [] ledger = ledger
settle (t ∷ ts) ledger = settle ts (pay t.outputs (spend t.inputs ledger))

-- The ledger of a list.
unfoldable pub ledger_of : List UnspentTxOut → Ledger
ledger_of [] key = 0
ledger_of (u ∷ us) key = if find_unspent key u then suc (ledger_of us key) else ledger_of us key

both_match :
    (xs hash key : List ℕ)
    → mem_eq 32 xs key ≡ true
    → mem_eq 32 hash key ≡ true
    → mem_eq 32 xs hash ≡ true
both_match xs hash key h k =
    mem_eq_same 32 xs key hash h ∙ sym (mem_eq_same 32 hash key hash k) ∙ mem_eq_refl 32 hash

-- Without the first output of a hash there is one less of that hash, and as many of any other.
ledger_of-remove_first :
    (hash : List ℕ) (us : List UnspentTxOut) (key : List ℕ)
    → ledger_of (remove_first (find_unspent hash) us) key ≡ one_less hash (ledger_of us) key
unfolding ledger_of one_less find_unspent
ledger_of-remove_first hash [] key = ground arith
ledger_of-remove_first hash (u ∷ us) key =
    let rest = ledger_of-remove_first hash us key in
    let same_as = mem_eq_same 32 u.out.hash hash key in
    let clash = both_match u.out.hash hash key in
    elim (Bool-cases (mem_eq 32 u.out.hash hash)) [
      | inl a ↦ elim (Bool-cases (mem_eq 32 hash key)) [
        | inl c ↦ rw (one_less, a, c, ledger_of, find_unspent, same_as a ∙ c) (omega arith)
        | inr c ↦ rw (one_less, a, c, ledger_of, find_unspent, same_as a ∙ c)
      ]
      | inr a ↦ elim (Bool-cases (mem_eq 32 u.out.hash key)) [
        | inl b ↦ elim (Bool-cases (mem_eq 32 hash key)) [
          | inl c ↦ cc (clash b c, a)
          | inr c ↦
              (let more = rw (one_less, c) at rest in
                simp (find_unspent, one_less, ledger_of, a, b, c, more))
        ]
        | inr b ↦ simp (find_unspent, one_less, ledger_of, a, b, rest)
      ]
    ]

ledger_of-append :
    (us : List UnspentTxOut) (u : UnspentTxOut) (key : List ℕ)
    → ledger_of (us ++ u ∷ []) key ≡ one_more u.out.hash (ledger_of us) key
unfolding ledger_of one_more find_unspent
ledger_of-append [] u key = ground arith
ledger_of-append (v ∷ us) u key = ground (arith, ledger_of-append us u key)

module _ ⦃ll : Llist⦄ where
  remove_spent-spend :
      (is : List TxIn) (us : List UnspentTxOut)
      → ledger_of (remove_spent is us) ≡ spend is (ledger_of us)
  unfolding remove_spent spend
  remove_spent-spend [] us = refl
  remove_spent-spend (i ∷ is) us = rw ll.remove_node_eq (
      remove_spent-spend is (remove_first (find_unspent i.tx_out_hash) us)
      ∙ ap (spend is) (λ j key. ledger_of-remove_first i.tx_out_hash us key j))

  add_outputs-pay :
      (hash id : List ℕ) (os : List TxOut) (us : List UnspentTxOut)
      → ledger_of (add_outputs hash id os us) ≡ pay os (ledger_of us)
  unfolding add_outputs pay unspent_tx_out_create
  add_outputs-pay hash id [] us = refl
  add_outputs-pay hash id (o ∷ os) us = rw ll.add_rear_eq (
      add_outputs-pay hash id os (us ++ unspent_tx_out_create hash id o ∷ [])
      ∙ ap (pay os) (λ j key. ledger_of-append us (unspent_tx_out_create hash id o) key j))

  update_loop-settle :
      (hash : List ℕ) (ts : List Transaction) (us : List UnspentTxOut)
      → ledger_of (update_loop hash ts us) ≡ settle ts (ledger_of us)
  unfolding update_loop settle
  update_loop-settle hash [] us = refl
  update_loop-settle hash (t ∷ ts) us =
      rw (nodes_at_lem t.inputs, nodes_at_lem t.outputs)
        (update_loop-settle hash ts (add_outputs hash t.id t.outputs (remove_spent t.inputs us))
          ∙ ap (settle ts) (
              add_outputs-pay hash t.id t.outputs (remove_spent t.inputs us)
              ∙ ap (pay t.outputs) (remove_spent-spend t.inputs us)))

  -- Taken as a ledger, which counts the outputs of each hash and forgets their order, the updated
  -- list is the old one with the transactions settled in order: each input takes away an output of
  -- the hash it names, if there is one, and each output adds one.
  pub update_unspent-settle :
      (ts : List Transaction) (hash : List ℕ) (us : List UnspentTxOut)
      → (us' : List UnspentTxOut) × (update_unspent (some ts) hash (some us) ≡ some us')
        × (ledger_of us' ≡ settle ts (ledger_of us))
  unfolding update_unspent
  update_unspent-settle ts hash us =
      (update_loop hash ts us, rw (nodes_at_lem ts), update_loop-settle hash ts us)
