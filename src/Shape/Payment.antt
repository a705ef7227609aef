-- ===== src/Shape/Payment.antt =====
-- The sizes of a payment (blockchain/v0.3/transaction/transaction_create.c and tx_in_sign.c).
use holbertonschool_blockcha.Prelude.{
  Bool, true, ret, refl, ℕ, ◌<◌, ◌+◌, ◌-◌, ◌%◌, ◌^◌, ◌≡◌, ◌==◌, ltb, leb, ◌&&◌, not, false, Option,
  none, some, List, [], ◌∷◌, All, length, replicate, ub, Ensures, Ensures-bind, Ensures-if,
  Ensures-option, Ensures-ret, Bool-cases, Option-cases, inl, inr, arith,
}
use holbertonschool_blockcha.Prelude.Bytes.{mem_eq}
use holbertonschool_blockcha.Prelude.Host.{Host}
use holbertonschool_blockcha.Prelude.Maybe.{Always, Always-some}
use holbertonschool_blockcha.Llist.{Llist}
use holbertonschool_blockcha.Llist.Walk.{nodes_at, nodes_at_lem}
use holbertonschool_blockcha.Crypto.{Openssl, ec_to_pub}
use holbertonschool_blockcha.Transaction.Types.{TxIn, TxOut, UnspentTxOut, Transaction}
use holbertonschool_blockcha.Transaction.Outputs.{tx_out_create, tx_in_create}
use holbertonschool_blockcha.Transaction.Hash.{transaction_hash}
use holbertonschool_blockcha.Transaction.Sign.{sign_transaction_inputs}
use holbertonschool_blockcha.Transaction.Select.{used_in_pool, select_unspent_in, select_loop}
use holbertonschool_blockcha.Transaction.Create.{
  pub_buffer, send_change, send_amount, seal, transaction_create,
}
use holbertonschool_blockcha.Chain.WellFormed.{IsTxOut, IsUnspent}
use holbertonschool_blockcha.Shape.{HasInShape, HasTxShape}
use holbertonschool_blockcha.Shape.Parts.{
  All-append, tx_in_create-HasInShape, length-ec_to_pub, tx_out_create-IsTxOut,
}
use holbertonschool_blockcha.Shape.Signing.{signed-HasInShape}
use holbertonschool_blockcha.Shape.Coinbase.{length-transaction_hash}

module _ ⦃ll : Llist⦄ where
  select_unspent_in-HasInShape :
      (pubkey : List ℕ) (pool : Option (List Transaction)) (u : UnspentTxOut)
      (chosen : List TxIn × ℕ)
      → IsUnspent u
      → All HasInShape chosen.0
      → All HasInShape (select_unspent_in pubkey pool u chosen).0
  unfolding select_unspent_in
  select_unspent_in-HasInShape pubkey pool u chosen hu h =
      elim (Bool-cases (mem_eq 65 u.out.pubkey pubkey && not (used_in_pool pool u))) [
        | inl own ↦
            simp (select_unspent_in, own, ll.add_rear_eq)
              (All-append HasInShape chosen.0 (tx_in_create u ∷ []) h
                (tx_in_create-HasInShape u hu, tt))
        | inr other ↦ simp (select_unspent_in, other) h
      ]

  select_loop-HasInShape :
      (pubkey : List ℕ) (pool : Option (List Transaction)) (amount : ℕ) (us : List UnspentTxOut)
      (chosen : List TxIn × ℕ)
      → All IsUnspent us
      → All HasInShape chosen.0
      → All HasInShape (select_loop pubkey pool amount us chosen).0
  unfolding select_loop
  select_loop-HasInShape pubkey pool amount [] chosen hs h = h
  select_loop-HasInShape pubkey pool amount (u ∷ us) chosen (hu, hs) h =
      let now = select_unspent_in-HasInShape pubkey pool u chosen hu h in
      elim (Bool-cases (leb amount (select_unspent_in pubkey pool u chosen).1)) [
        | inl enough ↦ simp (select_loop, enough) now
        | inr more ↦
            simp (select_loop, more)
              (select_loop-HasInShape pubkey pool amount us (select_unspent_in pubkey pool u chosen)
                hs now)
      ]

module _ ⦃host : Host⦄ ⦃ll : Llist⦄ ⦃ssl : Openssl⦄ where
  length-pub_buffer :
      (key : Option ssl.EcKey) (read : Bool) → Ensures (λ p. length p ≡ 65) (pub_buffer key read)
  unfolding pub_buffer
  length-pub_buffer key read = elim (Option-cases (ec_to_pub key)) [
    | inl e ↦
        let zeros : List ℕ = replicate 65 0 in
        rw (pub_buffer, e)
          (Ensures-if {A = List ℕ} (λ p. length p ≡ 65) read ub (ret zeros) (λ _. tt) (λ _. refl))
    | inr (p, e) ↦ rw (pub_buffer, e) (length-ec_to_pub key e)
  ]

  send_change-IsTxOut :
      (key : Option ssl.EcKey) (rest : ℕ) (os : List TxOut)
      → rest < 2 ^ 32
      → All IsTxOut os
      → Ensures (Always (All IsTxOut)) (send_change key rest os)
  unfolding send_change
  send_change-IsTxOut key rest os small h =
      Ensures-if (Always (All IsTxOut)) (rest == 0) _ _ (λ _. h)
        (λ _. Ensures-bind (Always (All IsTxOut)) (pub_buffer key true) _ (λ p e.
          Ensures-option (Always (All IsTxOut)) (tx_out_create rest p) _ _ tt (λ o made.
            rw ll.add_rear_eq (
              All-append IsTxOut os (o ∷ []) h (
                tx_out_create-IsTxOut rest p small
                    (Ensures-ret (λ p. length p ≡ 65) (length-pub_buffer key true) e) made,
                tt,
              )))))

  send_amount-IsTxOut :
      (sender receiver : Option ssl.EcKey) (amount total : ℕ)
      → amount < 2 ^ 32
      → Ensures (Always (All IsTxOut)) (send_amount sender receiver amount total)
  unfolding send_amount
  send_amount-IsTxOut sender receiver amount total small =
      Ensures-bind (Always (All IsTxOut)) (pub_buffer receiver (not (amount == 0))) _ (λ p e.
        Ensures-option (Always (All IsTxOut)) (tx_out_create amount p) _ _ tt (λ o made.
          send_change-IsTxOut sender ((total + 2 ^ 32 - amount) % 2 ^ 32) (ll.add_rear [] o)
            (omega arith)
            (rw ll.add_rear_eq (
              tx_out_create-IsTxOut amount p small
                  (Ensures-ret (λ p. length p ≡ 65) (length-pub_buffer receiver (not (amount == 0)))
                    e)
                  made,
              tt,
            ))))

  abbrev id_of : Transaction → List ℕ
  id_of t = elim (transaction_hash t) [ none ↦ replicate 32 0 | some h ↦ h ]

  length-id_of : (t : Transaction) → length (id_of t) ≡ 32
  length-id_of t = elim (Option-cases (transaction_hash t)) [
    | inl e ↦ rw (id_of, e)
    | inr (h, e) ↦ rw (id_of, e) (length-transaction_hash t e)
  ]

  seal-HasTxShape :
      (key : Option ssl.EcKey) (us : List UnspentTxOut) (t : Transaction)
      → All HasInShape t.inputs
      → All IsTxOut t.outputs
      → Ensures (Always HasTxShape) (seal key us t)
  unfolding seal
  seal-HasTxShape key us t hi ho =
      let signed = ll.for_each (sign_transaction_inputs (id_of t) key (some us)) t.inputs false in
      let shape : HasTxShape (record t { id = id_of t; inputs = signed.1 }) = record {
        id = length-id_of t;
        inputs = signed-HasInShape (id_of t) key (some us) t.inputs false hi;
        outputs = ho;
      } in
      Ensures-if (Always HasTxShape) signed.2 ub _ (λ _. tt) (λ _. shape)

  -- A payment of an amount that fits an int has the declared sizes.
  pub transaction_create-HasTxShape :
      (sender receiver : Option ssl.EcKey) (amount : ℕ) (us : List UnspentTxOut)
      (pool : Option (List Transaction))
      → amount < 2 ^ 32
      → All IsUnspent us
      → Ensures (Always HasTxShape) (transaction_create sender receiver amount (some us) pool)
  unfolding transaction_create
  transaction_create-HasTxShape none receiver amount us pool small h = tt
  transaction_create-HasTxShape (some key) none amount us pool small h = tt
  transaction_create-HasTxShape (some key) (some to) amount us pool small h =
      Ensures-bind (Always HasTxShape) (pub_buffer (some key) (not (ll.size us == 0))) _
        (λ pubkey _.
          let chosen = select_loop pubkey pool amount (nodes_at us) ([], 0) in
          Ensures-if (Always HasTxShape) (ltb chosen.1 amount) _ _ (λ _. tt)
            (λ _.
              Ensures-bind (Always HasTxShape) (send_amount (some key) (some to) amount chosen.1) _
                (λ made e. Ensures-option (Always HasTxShape) made _ _ tt (λ os e'.
                  seal-HasTxShape (some key) us _
                    (select_loop-HasInShape pubkey pool amount (nodes_at us) ([], 0)
                      (rw (nodes_at_lem us) h) tt)
                    (Always-some (All IsTxOut)
                      (Ensures-ret (Always (All IsTxOut))
                        (send_amount-IsTxOut (some key) (some to) amount chosen.1 small) e)
                      e')))))
