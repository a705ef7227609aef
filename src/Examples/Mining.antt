-- ===== src/Examples/Mining.antt =====
-- The command `mine`, with an invalid transaction in the pool.
use holbertonschool_blockcha.Prelude.{
  find?, ◌++◌, false, ℕ, List, ◌+◌, ◌%◌, ◌^◌, ◌≡◌, refl, true, Option, none, some, [], ◌∷◌,
  replicate, Run, ret, ub, arith,
}
use holbertonschool_blockcha.Prelude.Bytes.{mem_eq, le_bytes, of_le_bytes}
use holbertonschool_blockcha.Transaction.Types.{TxOut, UnspentTxOut, Transaction}
use holbertonschool_blockcha.Prelude.Host.{bytes_of}
use holbertonschool_blockcha.Block.Types.{Block, info_bytes}
use holbertonschool_blockcha.Block.Hash.{hash_transaction_ids, append_ids, block_hash}
use holbertonschool_blockcha.Block.Difficulty.{
  full_bytes_zero, bits_zero, hash_matches_difficulty, blockchain_difficulty,
}
use holbertonschool_blockcha.Block.Mine.{with_nonce}
use holbertonschool_blockcha.Block.Valid.{
  validate_loop, validate_transactions, check_block, check_link, block_is_valid,
}
use holbertonschool_blockcha.Llist.{run_each}
use holbertonschool_blockcha.Llist.Walk.{nodes_at, nodes_from}
use holbertonschool_blockcha.Crypto.{sha256, ec_to_pub, ec_from_pub, ec_verify}
use holbertonschool_blockcha.Transaction.Outputs.{tx_out_create}
use holbertonschool_blockcha.Transaction.Hash.{hash_inputs, hash_outputs, transaction_hash}
use holbertonschool_blockcha.Transaction.Sign.{refers_to}
use holbertonschool_blockcha.Transaction.Select.{check_inputs, check_unspent}
use holbertonschool_blockcha.Transaction.Valid.{
  in_out_match, sum_outputs, check_tx_inputs, transaction_is_valid,
}
use holbertonschool_blockcha.Transaction.Coinbase.{
  is_empty, coinbase_input, coinbase_create_continue, coinbase_create, coinbase_parts,
  coinbase_is_valid,
}
use holbertonschool_blockcha.Transaction.Update.{find_unspent, update_unspent}
use holbertonschool_blockcha.Cli.State.{done, State}
use holbertonschool_blockcha.Cli.Mine.{
  drop_invalid, add_transaction, fill_block, append_block, handle_mine,
}
use holbertonschool_blockcha.Cli.Mine.Command.{next_block, CanMine, handle_mine-succeeds}
use holbertonschool_blockcha.Block.Mine.Found.{Wins, IsMined}
use holbertonschool_blockcha.Examples.Platform.{
  plain_lists, little_host, toy_ssl, checksum, toy_sign,
}
use holbertonschool_blockcha.Examples.Payments.{owned, owner_pub, payment, digests}
use holbertonschool_blockcha.Examples.Client.{start, world, first_block}
use holbertonschool_blockcha.Transaction.Hash.Total.{references, output_hashes}
use holbertonschool_blockcha.Cli.Mine.{invalid_tx}
use holbertonschool_blockcha.Cli.Mine.Filter.{valid_ones, drop_invalid-filter}
use holbertonschool_blockcha.Transaction.Update.Worth.{worth}
use holbertonschool_blockcha.Block.Supply.{valid_block-worth}
use holbertonschool_blockcha.Cli.Mine.Succeeds.{pool_of}

abbrev stray : Transaction
stray = record payment { id = replicate 32 0 }

-- A pool with an invalid transaction and a valid one.
abbrev busy : State
busy = record start { tx_pool = stray ∷ payment ∷ [] }

abbrev coinbase_or : Option Transaction → Transaction
coinbase_or none = payment
coinbase_or (some c) = c

abbrev reward_tx : Transaction
reward_tx = coinbase_or (coinbase_create (some 5) 1)

reward_made : coinbase_create (some 5) ((first_block.info.index + 1) % 2 ^ 32) ≡ some reward_tx
unfolding coinbase_create coinbase_create_continue coinbase_input ec_to_pub tx_out_create
    transaction_hash hash_inputs hash_outputs run_each bytes_of le_bytes of_le_bytes checksum sha256
reward_made = refl

busy-CanMine : CanMine busy 5 owner_pub first_block
unfolding ec_to_pub le_bytes of_le_bytes block_hash append_ids info_bytes bytes_of checksum sha256
    mem_eq blockchain_difficulty transaction_is_valid check_tx_inputs check_unspent check_inputs
    transaction_hash hash_inputs hash_outputs sum_outputs in_out_match ec_verify ec_from_pub
    run_each nodes_at nodes_from refers_to toy_sign references output_hashes
busy-CanMine = record {
  wallet = refl;
  known = refl;
  tail = refl;
  room = omega arith;
  prev_hashed = record { digest = first_block.hash; hashed = refl; stored = refl };
  pool = ((false, refl), ((true, refl), tt));
  easy = omega arith;
}

kept : pool_of busy ≡ payment ∷ []
unfolding invalid_tx transaction_is_valid check_tx_inputs transaction_hash hash_inputs hash_outputs
    sum_outputs in_out_match ec_verify ec_from_pub run_each nodes_at nodes_from mem_eq toy_sign
    checksum bytes_of le_bytes of_le_bytes sha256 references output_hashes
kept = refl

abbrev next_filled : Block
next_filled = fill_block busy (pool_of busy) (next_block first_block 1700000000) reward_tx

abbrev digest_or : Run (List ℕ) → List ℕ
digest_or ub = []
digest_or (ret d) = d

next-Wins : Wins (with_nonce next_filled 0) (digest_or (block_hash (with_nonce next_filled 0) []))
unfolding fill_block add_transaction blockchain_difficulty block_hash append_ids
    hash_transaction_ids run_each info_bytes bytes_of le_bytes of_le_bytes checksum sha256
    hash_matches_difficulty full_bytes_zero bits_zero invalid_tx transaction_is_valid
    check_tx_inputs transaction_hash hash_inputs hash_outputs sum_outputs in_out_match ec_verify
    ec_from_pub nodes_at nodes_from mem_eq toy_sign references output_hashes
next-Wins = record { hashed = λ buf. refl; matched = refl }

handle_mine-succeeds_example :
    (m : Block) × (handle_mine world busy ≡ ret (some (done, append_block busy m)))
    × IsMined 0 next_filled m
handle_mine-succeeds_example =
    handle_mine-succeeds world busy 5 owner_pub first_block reward_tx 0
      (digest_or (block_hash (with_nonce next_filled 0) [])) digests busy-CanMine reward_made
      (omega arith) (omega arith) next-Wins

-- The next block, mined.
abbrev next_mined : Block
next_mined = record next_filled { hash = digest_or (block_hash (with_nonce next_filled 0) []) }

abbrev outputs : List TxOut
outputs = owned.out ∷ (payment.outputs ++ reward_tx.outputs)

abbrev amount_or : Option TxOut → ℕ
amount_or none = 0
amount_or (some o) = o.amount

abbrev price : List ℕ → ℕ
price hash = amount_or (find? (λ o. mem_eq 32 o.hash hash) outputs)

next_valid : block_is_valid (some next_mined) (some first_block) (some (owned ∷ [])) ≡ ret 0
unfolding fill_block add_transaction blockchain_difficulty block_hash append_ids
    hash_transaction_ids run_each info_bytes bytes_of le_bytes of_le_bytes checksum sha256
    hash_matches_difficulty full_bytes_zero bits_zero invalid_tx transaction_is_valid
    check_tx_inputs transaction_hash hash_inputs hash_outputs sum_outputs in_out_match ec_verify
    ec_from_pub nodes_at nodes_from mem_eq toy_sign references output_hashes block_is_valid
    check_link check_block validate_transactions validate_loop coinbase_is_valid coinbase_parts
    is_empty coinbase_create coinbase_create_continue coinbase_input ec_to_pub tx_out_create
next_valid = refl

next_transactions : next_mined.transactions ≡ some (reward_tx ∷ payment ∷ [])
unfolding fill_block add_transaction run_each invalid_tx transaction_is_valid check_tx_inputs
    transaction_hash hash_inputs hash_outputs sum_outputs in_out_match ec_verify ec_from_pub
    nodes_at nodes_from mem_eq toy_sign references output_hashes checksum bytes_of le_bytes
    of_le_bytes sha256
next_transactions = refl

valid_block-worth_example :
    (utxos' : List UnspentTxOut) × (update_unspent next_mined.transactions next_mined.hash
        (some (owned ∷ []))
      ≡ some utxos')
    × (worth utxos' % 2 ^ 32 ≡ (worth (owned ∷ []) + 50) % 2 ^ 32)
unfolding fill_block find_unspent mem_eq coinbase_create coinbase_create_continue coinbase_input
    ec_to_pub tx_out_create bytes_of le_bytes of_le_bytes checksum sha256 transaction_hash
    hash_inputs hash_outputs run_each references output_hashes
valid_block-worth_example =
    valid_block-worth price (owned ∷ []) first_block next_mined reward_tx (payment ∷ [])
      (omega arith) next_valid next_transactions (tt, tt) ((refl, tt), tt) (refl, tt)
      ((refl, tt), ((refl, tt), tt))

drop_invalid-filter_example :
    drop_invalid (plain_lists.size busy.tx_pool) (owned ∷ []) busy.tx_pool
    ≡ ret (valid_ones (owned ∷ []) busy.tx_pool)
drop_invalid-filter_example = drop_invalid-filter (owned ∷ []) busy.tx_pool busy-CanMine.pool
