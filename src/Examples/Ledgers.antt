-- ===== src/Examples/Ledgers.antt =====
-- The unspent outputs as a ledger, and what they are worth.
use holbertonschool_blockcha.Prelude.{
  ℕ, ◌%◌, ◌^◌, ◌≡◌, refl, true, some, List, [], ◌∷◌, replicate, ret, get_or, ◌==◌, if◌then◌else◌,
}
use holbertonschool_blockcha.Prelude.Bytes.{mem_eq, le_bytes, of_le_bytes}
use holbertonschool_blockcha.Llist.{run_each}
use holbertonschool_blockcha.Llist.Walk.{nodes_at, nodes_from}
use holbertonschool_blockcha.Crypto.{sha256, ec_from_pub, ec_verify}
use holbertonschool_blockcha.Transaction.Types.{UnspentTxOut}
use holbertonschool_blockcha.Transaction.Hash.{hash_inputs, hash_outputs, transaction_hash}
use holbertonschool_blockcha.Transaction.Hash.Total.{references, output_hashes}
use holbertonschool_blockcha.Transaction.Valid.{
  in_out_match, sum_outputs, check_tx_inputs, transaction_is_valid,
}
use holbertonschool_blockcha.Transaction.Update.{update_unspent}
use holbertonschool_blockcha.Transaction.Update.Ledger.{ledger_of, settle, update_unspent-settle}
use holbertonschool_blockcha.Transaction.Update.Worth.{worth, accepted-worth}
use holbertonschool_blockcha.Examples.Platform.{
  plain_lists, little_host, toy_ssl, checksum, toy_sign,
}
use holbertonschool_blockcha.Examples.Payments.{owned, elsewhere, payment}

update_unspent-settle_example :
    (us' : List UnspentTxOut) × (update_unspent
        (some (payment ∷ []))
        (replicate 32 5)
        (some (elsewhere ∷ owned ∷ []))
      ≡ some us')
    × (ledger_of us' ≡ settle (payment ∷ []) (ledger_of (elsewhere ∷ owned ∷ [])))
update_unspent-settle_example =
    update_unspent-settle (payment ∷ []) (replicate 32 5) (elsewhere ∷ owned ∷ [])

-- An amount for each of the two hashes.
abbrev price : List ℕ → ℕ
price hash = if get_or hash 0 0 == 3 then 30 else 9

payment_valid : transaction_is_valid (some payment) (some (elsewhere ∷ owned ∷ [])) ≡ ret true
unfolding transaction_is_valid transaction_hash hash_inputs hash_outputs run_each references
    output_hashes check_tx_inputs sum_outputs in_out_match ec_verify ec_from_pub mem_eq le_bytes
    of_le_bytes checksum toy_sign sha256 nodes_at nodes_from
payment_valid = refl

accepted-worth_example :
    (us' : List UnspentTxOut) × (update_unspent
        (some (payment ∷ []))
        (replicate 32 5)
        (some (elsewhere ∷ owned ∷ []))
      ≡ some us')
    × (worth us' % 2 ^ 32 ≡ worth (elsewhere ∷ owned ∷ []) % 2 ^ 32)
accepted-worth_example =
    accepted-worth price (elsewhere ∷ owned ∷ []) payment (replicate 32 5) (refl, (refl, tt))
      (tt, tt) payment_valid
