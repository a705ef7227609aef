-- ===== src/Transaction/Valid/DoubleSpend.antt =====
-- The same input twice in one transaction: nothing in `transaction_is_valid` keeps an unspent output
-- from being counted more than once.
use holbertonschool_blockcha.Prelude.{ℕ, ◌*◌, ◌≡◌, refl, true, some, List, [], ◌∷◌, ret, arith}
use holbertonschool_blockcha.Prelude.Bytes.{mem_eq_refl}
use holbertonschool_blockcha.Llist.{Llist}
use holbertonschool_blockcha.Crypto.{Openssl}
use holbertonschool_blockcha.Transaction.Types.{TxIn, UnspentTxOut, TxOut}
use holbertonschool_blockcha.Transaction.Hash.{transaction_hash}
use holbertonschool_blockcha.Transaction.Valid.{transaction_is_valid}
use holbertonschool_blockcha.Transaction.Valid.Meaning.{
  total_out, Spends, done, spend, transaction_is_valid_iff,
}

module _ ⦃ll : Llist⦄ ⦃ssl : Openssl⦄ where
  -- A transaction that names one signed input twice, pays out twice what it is worth, and has its
  -- hash as its id, is accepted.
  pub input_twice_accepted :
      (utxos : List UnspentTxOut) (id : List ℕ) (i : TxIn) (u : UnspentTxOut) (outputs : List TxOut)
      → Spends utxos id i u
      → transaction_hash (record { id = id; inputs = i ∷ i ∷ []; outputs = outputs }) ≡ some id
      → total_out outputs ≡ 2 * u.out.amount
      → transaction_is_valid
          (some (record { id = id; inputs = i ∷ i ∷ []; outputs = outputs }))
          (some utxos)
        ≡ ret true
  input_twice_accepted utxos id i u outputs s hashed twice =
      (transaction_is_valid_iff utxos _).1 (record {
        digest = id;
        total = 2 * u.out.amount;
        hashed = hashed;
        same_id = mem_eq_refl 32 id;
        spent = spend u u.out.amount s (spend u 0 s (done refl) (omega arith)) (omega arith);
        balanced = omega arith;
      })
