-- ===== src/Shape/Coinbase.antt =====
-- The sizes of a coinbase transaction (blockchain/v0.3/transaction/coinbase_create.c).
use holbertonschool_blockcha.Prelude.{
  ℕ, ◌+◌, ◌*◌, ◌≡◌, ◌==◌, refl, Option, none, some, List, length, length-append, replicate, arith,
}
use holbertonschool_blockcha.Prelude.Host.{Host, bytes_of, length-bytes_of}
use holbertonschool_blockcha.Prelude.Maybe.{Always, Always-bind, Always-some, Always-if}
use holbertonschool_blockcha.Llist.{Llist}
use holbertonschool_blockcha.Crypto.{Openssl, ec_to_pub, sha256}
use holbertonschool_blockcha.Crypto.Digest.{sha256-IsArray}
use holbertonschool_blockcha.Transaction.Types.{Transaction}
use holbertonschool_blockcha.Transaction.Outputs.{tx_out_create}
use holbertonschool_blockcha.Transaction.Hash.{transaction_hash}
use holbertonschool_blockcha.Transaction.Coinbase.{
  coinbase_input, coinbase_create_continue, coinbase_create,
}
use holbertonschool_blockcha.Shape.{HasInShape, HasTxShape}
use holbertonschool_blockcha.Shape.Parts.{length-ec_to_pub, tx_out_create-IsTxOut}

module _ ⦃ll : Llist⦄ ⦃ssl : Openssl⦄ where
  pub length-transaction_hash :
      (t : Transaction) {h : List ℕ} → transaction_hash t ≡ some h → length h ≡ 32
  unfolding transaction_hash
  length-transaction_hash t e =
      Always-some (λ h. length h ≡ 32)
        (Always-if (λ h. length h ≡ 32) (96 * ll.size t.inputs + 32 * ll.size t.outputs == 0) none _
          (λ _. tt) (λ _. digest_size _))
        e
    where
      digest_size : (s : List ℕ) → Always (λ h. length h ≡ 32) (sha256 s)
      digest_size s = go (sha256 s) refl
        where
          go : (o : Option (List ℕ)) → sha256 s ≡ o → Always (λ h. length h ≡ 32) o
          go none e = tt
          go (some d) e = (sha256-IsArray s e).1

module _ ⦃host : Host⦄ where
  coinbase_input-HasInShape : (index : ℕ) → HasInShape (coinbase_input index)
  unfolding coinbase_input
  coinbase_input-HasInShape index = record {
    arrays = record {
      block_hash = refl;
      tx_id = refl;
      tx_out_hash =
          omega (arith, length-append (bytes_of 4 index) (replicate 28 0), length-bytes_of 4 index);
      sig = refl;
    };
    sig_len = omega arith;
  }

module _ ⦃host : Host⦄ ⦃ll : Llist⦄ ⦃ssl : Openssl⦄ where
  pub coinbase_create-HasTxShape :
      (key : Option ssl.EcKey) (index : ℕ) → Always HasTxShape (coinbase_create key index)
  unfolding coinbase_create coinbase_create_continue
  coinbase_create-HasTxShape key index = Always-bind HasTxShape (ec_to_pub key) _ (λ pubkey known.
      Always-bind HasTxShape (tx_out_create 50 pubkey) _ (λ output made.
        Always-bind HasTxShape (transaction_hash _) _ (λ id hashed. record {
          id = length-transaction_hash _ hashed;
          inputs = rw ll.add_rear_eq (coinbase_input-HasInShape index, tt);
          outputs =
              rw ll.add_rear_eq (
                tx_out_create-IsTxOut 50 pubkey (omega arith) (length-ec_to_pub key known) made,
                tt,
              );
        })))
