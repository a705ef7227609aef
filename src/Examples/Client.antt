-- ===== src/Examples/Client.antt =====
-- The client: addresses, and the commands on a small state.
use holbertonschool_blockcha.Prelude.{
  ◌≡◌, refl, true, Option, none, some, [], ◌∷◌, replicate, Run, ret, ub, arith,
}
use holbertonschool_blockcha.Prelude.Bytes.{IsArray, mem_eq, le_bytes, of_le_bytes}
use holbertonschool_blockcha.Prelude.Host.{bytes_of}
use holbertonschool_blockcha.Block.Types.{Block, BlockInfo, info_bytes}
use holbertonschool_blockcha.Block.Create.{block_create}
use holbertonschool_blockcha.Block.Hash.{hash_transaction_ids, append_ids, block_hash}
use holbertonschool_blockcha.Block.Difficulty.{
  full_bytes_zero, bits_zero, hash_matches_difficulty, blockchain_difficulty,
}
use holbertonschool_blockcha.Block.Mine.{mine_loop, block_mine}
use holbertonschool_blockcha.Block.Valid.{
  validate_loop, validate_transactions, check_block, check_link, block_is_valid,
}
use holbertonschool_blockcha.Llist.{run_each}
use holbertonschool_blockcha.Llist.Walk.{nodes_at, nodes_from}
use holbertonschool_blockcha.Crypto.{sha256, ec_to_pub, ec_from_pub, ec_sign, ec_verify}
use holbertonschool_blockcha.Transaction.Outputs.{
  tx_out_create, unspent_tx_out_create, tx_in_create,
}
use holbertonschool_blockcha.Transaction.Hash.{hash_inputs, hash_outputs, transaction_hash}
use holbertonschool_blockcha.Transaction.Sign.{
  refers_to, sign_as_owner, tx_in_sign, sign_transaction_inputs,
}
use holbertonschool_blockcha.Transaction.Select.{
  check_inputs, check_unspent, used_in_pool, select_unspent_in, select_loop,
}
use holbertonschool_blockcha.Transaction.Create.{
  pub_buffer, send_change, send_amount, seal, transaction_create,
}
use holbertonschool_blockcha.Transaction.Valid.{
  in_out_match, sum_outputs, check_tx_inputs, transaction_is_valid,
}
use holbertonschool_blockcha.Transaction.Coinbase.{
  is_empty, coinbase_input, coinbase_create_continue, coinbase_create, coinbase_parts,
  coinbase_is_valid,
}
use holbertonschool_blockcha.Transaction.Update.{
  find_unspent, remove_spent, add_outputs, update_loop, update_unspent,
}
use holbertonschool_blockcha.Cli.Tools.{
  check_string, digit_value, scan_pub, string_to_pub, hex_char, bytes_to_hex,
}
use holbertonschool_blockcha.Cli.Tools.Hex.{string_to_pub-bytes_to_hex}
use holbertonschool_blockcha.Cli.State.{Answer, done, State, World}
use holbertonschool_blockcha.Cli.Mine.{
  test_all, drop_invalid, add_transaction, fill_block, append_block, mine, handle_mine,
}
use holbertonschool_blockcha.Cli.Mine.Extends.{MineEnds, handle_mine-Ends}
use holbertonschool_blockcha.Cli.Command.{find_command, mine_block}
use holbertonschool_blockcha.Cli.Command.Grows.{Grows, find_command-Grows}
use holbertonschool_blockcha.Cli.Send.{str_to_key, handle_send}
use holbertonschool_blockcha.Cli.Send.Accepted.{SendEnds, handle_send-Ends}
use holbertonschool_blockcha.Examples.Platform.{
  empty_disk, plain_lists, little_host, toy_ssl, checksum, toy_sign,
}
use holbertonschool_blockcha.Examples.Payments.{owned, owner_pub}

owner_pub-IsArray : IsArray 65 owner_pub
owner_pub-IsArray = (omega arith, refl)

string_to_pub-bytes_to_hex_example : string_to_pub (some (bytes_to_hex owner_pub)) ≡ some owner_pub
string_to_pub-bytes_to_hex_example = string_to_pub-bytes_to_hex owner_pub owner_pub-IsArray

abbrev pub first_info : BlockInfo
first_info = record {
  index = 0;
  difficulty = 0;
  timestamp = 9;
  nonce = 0;
  prev_hash = replicate 32 0;
}

abbrev pub first_block : Block
first_block = record {
  info = first_info;
  contents = record { buffer = replicate 1024 0; len = 0 };
  transactions = none;
  hash = checksum (info_bytes first_info);
}

abbrev pub start : State
start = record {
  wallet = some 5;
  blockchain = record { chain = first_block ∷ []; unspent = owned ∷ [] };
  tx_pool = [];
}

abbrev pub world : World
world = record {
  now = 1700000000;
  entropy = 5;
  file_at = λ path. none;
  can_write = λ path. true;
  disk = empty_disk;
  unset = [];
  rounds = 1;
  address_room = 130;
}

abbrev state_after : Run (Option (Answer × State)) → State
state_after ub = start
state_after (ret none) = start
state_after (ret (some (a, s))) = s

abbrev sent_after : Run (Answer × State) → State
sent_after ub = start
sent_after (ret (a, s)) = s

sent :
    handle_send 30 (bytes_to_hex owner_pub) start
    ≡ ret (done, sent_after (handle_send 30 (bytes_to_hex owner_pub) start))
unfolding handle_send str_to_key string_to_pub check_string scan_pub digit_value bytes_to_hex
    hex_char ec_from_pub ec_to_pub transaction_create pub_buffer select_loop select_unspent_in
    used_in_pool check_unspent check_inputs send_amount send_change tx_out_create seal
    sign_transaction_inputs tx_in_sign refers_to sign_as_owner ec_sign transaction_hash hash_inputs
    hash_outputs run_each nodes_at nodes_from transaction_is_valid check_tx_inputs sum_outputs
    in_out_match ec_verify mem_eq bytes_of le_bytes of_le_bytes checksum toy_sign sha256
    tx_in_create
sent = refl

handle_send-Ends_example :
    SendEnds start done (sent_after (handle_send 30 (bytes_to_hex owner_pub) start))
handle_send-Ends_example =
    handle_send-Ends 30 (bytes_to_hex owner_pub) start
      (sent_after (handle_send 30 (bytes_to_hex owner_pub) start)) done sent

mined : handle_mine world start ≡ ret (some (done, state_after (handle_mine world start)))
unfolding handle_mine mine block_create coinbase_create coinbase_create_continue coinbase_input
    coinbase_is_valid coinbase_parts is_empty drop_invalid test_all fill_block append_block
    add_transaction blockchain_difficulty block_mine mine_loop block_hash append_ids
    hash_transaction_ids info_bytes hash_matches_difficulty full_bytes_zero bits_zero block_is_valid
    check_link check_block validate_transactions validate_loop update_unspent update_loop
    remove_spent add_outputs find_unspent unspent_tx_out_create ec_to_pub tx_out_create
    transaction_hash hash_inputs hash_outputs run_each nodes_at nodes_from mem_eq bytes_of le_bytes
    of_le_bytes checksum sha256
mined = refl

handle_mine-Ends_example : MineEnds start done (state_after (handle_mine world start))
handle_mine-Ends_example =
    handle_mine-Ends world start (state_after (handle_mine world start)) done mined

ran :
    find_command world mine_block none none (λ t. 0) start
    ≡ ret (some (done, state_after (handle_mine world start)))
unfolding find_command
ran = mined

find_command-Grows_example : Grows start (state_after (handle_mine world start))
find_command-Grows_example =
    find_command-Grows world mine_block none none (λ t. 0) start
      (state_after (handle_mine world start)) done (λ e. cc) ran
