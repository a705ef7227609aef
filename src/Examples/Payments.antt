-- ===== src/Examples/Payments.antt =====
-- Transactions: a payment, its validation, and the update of the unspent outputs.
use holbertonschool_blockcha.Prelude.{
  ℕ, ◌≡◌, ◌≢◌, ◌↔◌, refl, true, false, none, some, List, [], ◌∷◌, ◌++◌, replicate, ret,
  if◌then◌else◌, ◌==◌, ◌+◌, ◌*◌, length,
}
use holbertonschool_blockcha.Prelude.Bytes.{mem_eq, le_bytes, of_le_bytes}
use holbertonschool_blockcha.Llist.{run_each}
use holbertonschool_blockcha.Crypto.{sha256, ec_to_pub, ec_from_pub, ec_verify}
use holbertonschool_blockcha.Transaction.Types.{TxOut, TxIn, UnspentTxOut, Transaction}
use holbertonschool_blockcha.Transaction.Outputs.{unspent_tx_out_create}
use holbertonschool_blockcha.Transaction.Hash.{hash_inputs, hash_outputs, transaction_hash}
use holbertonschool_blockcha.Transaction.Hash.Total.{
  references, output_hashes, HasReference, transaction_hash_lem,
}
use holbertonschool_blockcha.Transaction.Coinbase.{coinbase_create, coinbase_is_valid}
use holbertonschool_blockcha.Transaction.Coinbase.Accepted.{coinbase_create-IsValid}
use holbertonschool_blockcha.Transaction.Valid.{in_out_match, transaction_is_valid}
use holbertonschool_blockcha.Transaction.Valid.Meaning.{
  total_out, Spends, IsAccepted, transaction_is_valid_iff,
}
use holbertonschool_blockcha.Transaction.Valid.DoubleSpend.{input_twice_accepted}
use holbertonschool_blockcha.Transaction.Update.{find_unspent, update_unspent}
use holbertonschool_blockcha.Transaction.Update.Kept.{update_unspent-kept, update_unspent-paid}
use holbertonschool_blockcha.Transaction.Listed.{Elem, here, there}
use holbertonschool_blockcha.Examples.Platform.{
  plain_lists, little_host, toy_ssl, checksum, toy_sign,
}

-- The owner's private key is 5.
abbrev pub owner_pub : List ℕ
owner_pub = 4 ∷ 5 ∷ replicate 63 0

abbrev pub owned : UnspentTxOut
owned = record {
  block_hash = replicate 32 1;
  tx_id = replicate 32 2;
  out = record { amount = 30; pubkey = owner_pub; hash = replicate 32 3 };
}

abbrev other : UnspentTxOut
other = record {
  block_hash = replicate 32 8;
  tx_id = replicate 32 2;
  out = record { amount = 7; pubkey = owner_pub; hash = replicate 32 3 };
}

abbrev pub elsewhere : UnspentTxOut
elsewhere = record {
  block_hash = replicate 32 1;
  tx_id = replicate 32 2;
  out = record { amount = 9; pubkey = owner_pub; hash = replicate 32 4 };
}

abbrev paid : ℕ → TxOut
paid amount = record { amount = amount; pubkey = owner_pub; hash = replicate 32 6 }

-- The input that spends `owned`, with the signature of an id.
abbrev signed_input : List ℕ → TxIn
signed_input id = record {
  block_hash = replicate 32 1;
  tx_id = replicate 32 2;
  tx_out_hash = replicate 32 3;
  sig = record { sig = toy_sign 5 id ++ replicate 56 0; len = 16 };
}

abbrev payment_id : List ℕ
payment_id = checksum (references (signed_input [] ∷ []) ++ output_hashes (paid 30 ∷ []))

abbrev pub payment : Transaction
payment = record { id = payment_id; inputs = signed_input payment_id ∷ []; outputs = paid 30 ∷ [] }

transaction_is_valid_iff_example :
    (transaction_is_valid (some payment) (some (owned ∷ [])) ≡ ret true)
    ↔ IsAccepted (owned ∷ []) payment
transaction_is_valid_iff_example = transaction_is_valid_iff (owned ∷ []) payment

payment-HasReference : HasReference (signed_input payment_id)
payment-HasReference = record { block_hash = refl; tx_id = refl; tx_out_hash = refl }

transaction_hash_example : transaction_hash payment ≡ (
    if length payment.inputs + length payment.outputs == 0
    then none
    else sha256 (references payment.inputs ++ output_hashes payment.outputs))
transaction_hash_example = transaction_hash_lem payment (payment-HasReference, tt) (refl, tt)

pub digests : (s : List ℕ) → sha256 s ≢ none
unfolding sha256
digests s e = cc

abbrev twice_id : List ℕ
twice_id =
    checksum (references (signed_input [] ∷ signed_input [] ∷ []) ++ output_hashes (paid 60 ∷ []))

Spends-owned : Spends (owned ∷ []) twice_id (signed_input twice_id) owned
unfolding in_out_match mem_eq ec_verify ec_from_pub toy_sign checksum le_bytes of_le_bytes
    references output_hashes
Spends-owned = record { found = refl; signed = refl }

twice_hashed :
    transaction_hash (record {
      id = twice_id;
      inputs = signed_input twice_id ∷ signed_input twice_id ∷ [];
      outputs = paid 60 ∷ [];
    })
    ≡ some twice_id
unfolding transaction_hash hash_inputs hash_outputs sha256 run_each references output_hashes
twice_hashed = refl

twice_total : total_out (paid 60 ∷ []) ≡ 2 * owned.out.amount
unfolding total_out
twice_total = refl

input_twice_accepted_example :
    transaction_is_valid
      (some (record {
        id = twice_id;
        inputs = signed_input twice_id ∷ signed_input twice_id ∷ [];
        outputs = paid 60 ∷ [];
      }))
      (some (owned ∷ []))
    ≡ ret true
input_twice_accepted_example =
    input_twice_accepted (owned ∷ []) twice_id (signed_input twice_id) owned (paid 60 ∷ [])
      Spends-owned twice_hashed twice_total

owner_known : ec_to_pub (some 5) ≡ some owner_pub
unfolding ec_to_pub le_bytes
owner_known = refl

coinbase_create-IsValid_example :
    (tx : Transaction) × (coinbase_create (some 5) 7 ≡ some tx)
    × (coinbase_is_valid (some tx) 7 ≡ true)
coinbase_create-IsValid_example = coinbase_create-IsValid (some 5) owner_pub 7 owner_known digests

not_named : find_unspent (replicate 32 3) elsewhere ≡ false
unfolding find_unspent mem_eq
not_named = refl

update_unspent-kept_example :
    (l : List UnspentTxOut) × (update_unspent
        (some (payment ∷ []))
        (replicate 32 5)
        (some (owned ∷ elsewhere ∷ []))
      ≡ some l)
    × Elem elsewhere l
update_unspent-kept_example =
    update_unspent-kept elsewhere (payment ∷ []) (replicate 32 5) (owned ∷ elsewhere ∷ [])
      ((not_named, tt), tt) (there (here refl))

update_unspent-paid_example :
    (l : List UnspentTxOut) × (update_unspent
        (some ([] ++ payment ∷ []))
        (replicate 32 5)
        (some (owned ∷ []))
      ≡ some l)
    × Elem (unspent_tx_out_create (replicate 32 5) payment.id (paid 30)) l
update_unspent-paid_example =
    update_unspent-paid (paid 30) [] payment [] (replicate 32 5) (owned ∷ []) (here refl) tt

differs : in_out_match (signed_input payment_id) other ≡ false
unfolding in_out_match mem_eq
differs = refl
