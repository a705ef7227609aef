-- ===== src/Shape/Signing.antt =====
-- The sizes of the inputs that blockchain/v0.3/transaction/tx_in_sign.c signs.
use holbertonschool_blockcha.Prelude.{
  ℕ, ◌==◌, Bool, true, Option, none, some, List, [], ◌∷◌, All, find?, if◌then◌else◌, Run, ret, ub,
  Ensures, Ensures-if, Ensures-option, Bool-cases, Option-cases, inl, inr,
}
use holbertonschool_blockcha.Prelude.Bytes.{mem_eq}
use holbertonschool_blockcha.Llist.{Llist, run_each}
use holbertonschool_blockcha.Llist.Walk.{nodes_at}
use holbertonschool_blockcha.Crypto.{Openssl, ec_to_pub}
use holbertonschool_blockcha.Transaction.Types.{TxIn, UnspentTxOut}
use holbertonschool_blockcha.Shape.{HasInShape}
use holbertonschool_blockcha.Transaction.Sign.{
  refers_to, sign_as_owner, tx_in_sign, sign_transaction_inputs,
}
use holbertonschool_blockcha.Shape.Parts.{length-ec_sign, ec_sign-len}

module _ ⦃ll : Llist⦄ ⦃ssl : Openssl⦄ where
  sign_as_owner-HasInShape :
      (i : TxIn) (id : List ℕ) (key : Option ssl.EcKey) (u : UnspentTxOut)
      → HasInShape i
      → HasInShape (sign_as_owner i id key u).1
  unfolding sign_as_owner
  sign_as_owner-HasInShape i id key u h = elim (Option-cases (ec_to_pub key)) [
    | inl e ↦ simp (sign_as_owner, e) h
    | inr (p, e) ↦ elim (Bool-cases (mem_eq 65 p u.out.pubkey)) [
      | inl own ↦
          simp (sign_as_owner, e, own)
            (record {
              arrays = record {
                block_hash = h.arrays.block_hash;
                tx_id = h.arrays.tx_id;
                tx_out_hash = h.arrays.tx_out_hash;
                sig = length-ec_sign key id i.sig h.arrays.sig;
              };
              sig_len = ec_sign-len key id i.sig h.sig_len;
            })
      | inr other ↦ simp (sign_as_owner, e, other) h
    ]
  ]

  tx_in_sign-HasInShape :
      (i : TxIn) (id : List ℕ) (key : Option ssl.EcKey) (us : Option (List UnspentTxOut))
      → HasInShape i
      → Ensures (λ r. HasInShape r.1) (tx_in_sign i id key us)
  unfolding tx_in_sign
  tx_in_sign-HasInShape i id none us h = h
  tx_in_sign-HasInShape i id (some key) none h = h
  tx_in_sign-HasInShape i id (some key) (some us) h =
      Ensures-if (λ r. HasInShape r.1) (ll.size us == 0) ub _ (λ _. tt)
        (λ _.
          Ensures-option (λ r. HasInShape r.1) (find? (refers_to i) (nodes_at us)) _ _ h
            (λ u _. sign_as_owner-HasInShape i id (some key) u h))

  sign_transaction_inputs-HasInShape :
      (id : List ℕ) (key : Option ssl.EcKey) (us : Option (List UnspentTxOut)) (i : TxIn)
      (met : Bool)
      → HasInShape i
      → HasInShape (sign_transaction_inputs id key us i met).1
  unfolding sign_transaction_inputs
  sign_transaction_inputs-HasInShape id key us i met h =
      go (tx_in_sign i id key us) (tx_in_sign-HasInShape i id key us h)
    where
      go :
          (m : Run (Bool × TxIn))
          → Ensures (λ r. HasInShape r.1) m
          → HasInShape
              (elim m as (λ _. ℕ × TxIn × Bool) [
                | ub ↦ (1, i, true)
                | ret (signed, i') ↦ (if signed then 0 else 1, i', met)
              ]).1
      go ub k = h
      go (ret r) k = k

-- What an action keeps true of each node, a loop over the nodes does.
run_each-All :
    {A S : Type 0} (P : A → Type 0) (f : A → S → ℕ × A × S)
    → ((x : A) (s : S) → P x → P (f x s).1)
    → (l : List A) (s : S) → All P l
    → All P (run_each f l s).1
unfolding run_each
run_each-All P f each [] s h = tt
run_each-All P f each (x ∷ l) s (hx, hl) = elim (Bool-cases ((f x s).0 == 0)) [
  | inl on ↦ rw (run_each, on) (each x s hx, run_each-All P f each l (f x s).2 hl)
  | inr stop ↦ rw (run_each, stop) (each x s hx, hl)
]

module _ ⦃ll : Llist⦄ ⦃ssl : Openssl⦄ where
  pub signed-HasInShape :
      (id : List ℕ) (key : Option ssl.EcKey) (us : Option (List UnspentTxOut)) (is : List TxIn)
      (met : Bool)
      → All HasInShape is
      → All HasInShape (ll.for_each (sign_transaction_inputs id key us) is met).1
  signed-HasInShape id key us is met h = rw ll.for_each_eq (
      run_each-All HasInShape (sign_transaction_inputs id key us)
        (sign_transaction_inputs-HasInShape id key us) is met h)
