-- ===== src/Examples/Sessions.antt =====
-- A session of the client, whose last line, `exit now`, ends it.
use mathlib.Core.Option.{some-injective}
use mathlib.Core.Path.{subst, sym, ◌∙◌}
use holbertonschool_blockcha.Prelude.{ℕ, ◌≡◌, ◌≢◌, refl, some, List, [], ◌∷◌, ret, ub, arith}
use holbertonschool_blockcha.Prelude.Bytes.{same_string, mem_eq, le_bytes, of_le_bytes}
use holbertonschool_blockcha.Prelude.Host.{bytes_of}
use holbertonschool_blockcha.Llist.{run_each}
use holbertonschool_blockcha.Llist.Walk.{nodes_at, nodes_from}
use holbertonschool_blockcha.Crypto.{sha256, ec_create, ec_to_pub}
use holbertonschool_blockcha.Transaction.Outputs.{tx_out_create, unspent_tx_out_create}
use holbertonschool_blockcha.Transaction.Hash.{hash_inputs, hash_outputs, transaction_hash}
use holbertonschool_blockcha.Transaction.Coinbase.{
  is_empty, coinbase_input, coinbase_create_continue, coinbase_create, coinbase_parts,
  coinbase_is_valid,
}
use holbertonschool_blockcha.Transaction.Update.{
  find_unspent, remove_spent, add_outputs, update_loop, update_unspent,
}
use holbertonschool_blockcha.Block.Types.{info_bytes}
use holbertonschool_blockcha.Block.Genesis.{
  genesis_hash, genesis_data, genesis_block, blockchain_create,
}
use holbertonschool_blockcha.Block.Create.{block_create}
use holbertonschool_blockcha.Block.Hash.{hash_transaction_ids, append_ids, block_hash}
use holbertonschool_blockcha.Block.Difficulty.{
  full_bytes_zero, bits_zero, hash_matches_difficulty, blockchain_difficulty,
}
use holbertonschool_blockcha.Block.Mine.{mine_loop, block_mine}
use holbertonschool_blockcha.Block.Valid.{
  validate_loop, validate_transactions, check_block, check_link, block_is_valid,
}
use holbertonschool_blockcha.Cli.State.{done}
use holbertonschool_blockcha.Cli.Mine.{
  test_all, drop_invalid, add_transaction, fill_block, append_block, mine, handle_mine,
}
use holbertonschool_blockcha.Cli.Command.{find_command, load, handle_wallet_create}
use holbertonschool_blockcha.Shape.Reached.{Reached}
use holbertonschool_blockcha.Examples.Platform.{plain_lists, little_host, checksum}
use holbertonschool_blockcha.Examples.Runs.{genesis_ssl, world, with_wallet, after_mining}
use holbertonschool_blockcha.Cli.Main.{
  command_of, skip_spaces, cut_word, strtok, start, Session, run_line, main_loop, main,
}
use holbertonschool_blockcha.Cli.Main.Sessions.{LoadsNothing, Continues, main_loop-Continues}
use holbertonschool_blockcha.Prelude.Text.{codes}
use holbertonschool_blockcha.Cli.Main.Words.{Words, line_of, IsWord, ask, main_loop-exit}
use holbertonschool_blockcha.Shape.Sessions.{main-Reached}

abbrev create_line : List ℕ
create_line =
    b'w' ∷ b'a' ∷ b'l' ∷ b'l' ∷ b'e' ∷ b't' ∷ b'_' ∷ b'c' ∷ b'r' ∷ b'e' ∷ b'a' ∷ b't' ∷ b'e' ∷ []

abbrev mine_line : List ℕ
mine_line = b'm' ∷ b'i' ∷ b'n' ∷ b'e' ∷ []

abbrev exit_line : List ℕ
exit_line = b'e' ∷ b'x' ∷ b'i' ∷ b't' ∷ b' ' ∷ b'n' ∷ b'o' ∷ b'w' ∷ []

abbrev session : Session
session = (world, create_line) ∷ (world, []) ∷ (world, mine_line) ∷ (world, exit_line) ∷ []

ended : main (λ t. 0) session ≡ ret (some (1, after_mining))
unfolding main main_loop run_line strtok skip_spaces cut_word command_of same_string
    handle_wallet_create ec_create find_command start blockchain_create genesis_hash genesis_data
    genesis_block handle_mine mine block_create coinbase_create coinbase_create_continue
    coinbase_input coinbase_is_valid coinbase_parts is_empty drop_invalid test_all fill_block
    append_block add_transaction blockchain_difficulty block_mine mine_loop block_hash append_ids
    hash_transaction_ids info_bytes hash_matches_difficulty full_bytes_zero bits_zero block_is_valid
    check_link check_block validate_transactions validate_loop update_unspent update_loop
    remove_spent add_outputs find_unspent unspent_tx_out_create ec_to_pub tx_out_create
    transaction_hash hash_inputs hash_outputs run_each nodes_at nodes_from mem_eq bytes_of le_bytes
    of_le_bytes checksum sha256
ended = refl

loads_nothing :
    (line : List ℕ) (word : List ℕ)
    → (strtok line).0 ≡ some word
    → command_of word ≢ load
    → LoadsNothing line
loads_nothing line word first other name e h =
    other (subst (λ n. command_of n ≡ load) (some-injective name word (sym e ∙ first)) h)

create_loads : LoadsNothing create_line
unfolding strtok skip_spaces cut_word command_of same_string
create_loads = loads_nothing create_line create_line refl (λ e. cc)

mine_loads : LoadsNothing mine_line
unfolding strtok skip_spaces cut_word command_of same_string
mine_loads = loads_nothing mine_line (b'm' ∷ b'i' ∷ b'n' ∷ b'e' ∷ []) refl (λ e. cc)

exit_loads : LoadsNothing exit_line
unfolding strtok skip_spaces cut_word command_of same_string
exit_loads = loads_nothing exit_line (b'e' ∷ b'x' ∷ b'i' ∷ b't' ∷ []) refl (λ e. cc)

empty_loads : LoadsNothing []
unfolding strtok skip_spaces
empty_loads name e = cc

main-Reached_example : Reached after_mining
main-Reached_example =
    main-Reached (λ t. 0) session after_mining 1 (λ t. omega arith)
      ((refl, create_loads), ((refl, empty_loads), ((refl, mine_loads), ((refl, exit_loads), tt))))
      ended

main_loop-Continues_example : Continues start after_mining
unfolding main
main_loop-Continues_example =
    main_loop-Continues (λ t. 0) session done start after_mining 1
      (create_loads, (empty_loads, (mine_loads, (exit_loads, tt)))) ended

now-IsWord : IsWord (codes "now")
now-IsWord = ((λ e. omega (arith, e)), ((λ e. omega (arith, e)), ((λ e. omega (arith, e)), tt)))

-- `exit now` with two spaces in front.
main_loop-exit_example :
    main_loop
      (λ t. 0)
      ((world, line_of ((2, codes "exit") ∷ (0, codes "now") ∷ []) 0) ∷ (world, mine_line) ∷ [])
      done
      with_wallet
    ≡ ret (some (1, with_wallet))
main_loop-exit_example =
    main_loop-exit (λ t. 0) world 2 ((0, codes "now") ∷ []) 0 ((world, mine_line) ∷ []) done
      with_wallet (now-IsWord, tt)

-- `send 5  a`, and a space behind it.
abbrev send_words : Words
send_words = (0, codes "send") ∷ (0, codes "5") ∷ (1, codes "a") ∷ []

send_line : line_of send_words 1 ≡ codes "send 5  a "
send_line = refl

-- The array for the address has 130 bytes, and 131 are written.
send_overflow : ask (λ t. 5) world send_words with_wallet ≡ ub
unfolding ask find_command command_of same_string
send_overflow = refl
