-- ===== src/Examples/Printing.antt =====
-- What the client prints of small states.
use holbertonschool_blockcha.Prelude.{◌≡◌, refl, none, [], ◌∷◌, replicate, ret, ub, arith}
use holbertonschool_blockcha.Prelude.Text.{
  codes, digits, decimal, printed, c_string, print_hex_buffer,
}
use holbertonschool_blockcha.Llist.{run_each}
use holbertonschool_blockcha.Transaction.Types.{UnspentTxOut}
use holbertonschool_blockcha.Transaction.Print.{transaction_print}
use holbertonschool_blockcha.Block.Genesis.{genesis_block}
use holbertonschool_blockcha.Cli.State.{done, State}
use holbertonschool_blockcha.Cli.Tools.{sum_unspent, hex_char, bytes_to_hex}
use holbertonschool_blockcha.Cli.List.{
  compares_unspent_tx_out, generate_sorted_unspent_list, print_unspent_tx_out_info,
  print_sorted_unspent_list,
}
use holbertonschool_blockcha.Cli.List.Legible.{IsListed, print_sorted_unspent_list-tells}
use holbertonschool_blockcha.Cli.Info.{
  last_block_lines, coins_of, handle_info, size_shown, print_transactions, print_block_info,
  handle_info_block,
}
use holbertonschool_blockcha.Prelude.Host.Swap.{swap_endian}
use holbertonschool_blockcha.Llist.Walk.{nodes_at, nodes_from}
use holbertonschool_blockcha.Examples.Platform.{plain_lists, toy_ssl}

abbrev few : UnspentTxOut
few = record {
  block_hash = replicate 32 1;
  tx_id = replicate 32 2;
  out = record { amount = 7; pubkey = replicate 65 4; hash = replicate 32 171 };
}

abbrev many : UnspentTxOut
many = record few { out = record few.out { amount = 4294967290 } }

few-IsListed : IsListed few
few-IsListed = record {
  block_hash = (omega arith, refl);
  tx_id = (omega arith, refl);
  amount = omega arith;
  pubkey = (omega arith, refl);
  hash = (omega arith, refl);
}

many-IsListed : IsListed many
many-IsListed = record {
  block_hash = (omega arith, refl);
  tx_id = (omega arith, refl);
  amount = omega arith;
  pubkey = (omega arith, refl);
  hash = (omega arith, refl);
}

abbrev ascending : State
ascending = record {
  wallet = none;
  blockchain = record { chain = genesis_block ∷ []; unspent = few ∷ many ∷ [] };
  tx_pool = [];
}

abbrev descending : State
descending = record ascending {
  blockchain = record ascending.blockchain { unspent = many ∷ few ∷ [] };
}

-- Both are printed in one order.
print_sorted_unspent_list-tells_example : (few ∷ many ∷ []) ≡ (few ∷ many ∷ [])
unfolding generate_sorted_unspent_list compares_unspent_tx_out print_sorted_unspent_list run_each
    print_unspent_tx_out_info
print_sorted_unspent_list-tells_example =
    print_sorted_unspent_list-tells descending ascending ascending ascending refl refl
      (few-IsListed, (many-IsListed, tt)) (few-IsListed, (many-IsListed, tt)) refl

-- The coins are counted modulo 2 ^ 32.
info_text : handle_info ascending ≡ (
  done,
  codes
      "Number of Blocks in Blockchain: 1\nNumber of unspent transaction outputs: 2\nTransaction pool is available\nNumber of pending transactions in transaction pool: 0\nCoins: 1\n\nBlock Header:\nThis is the Genesis Block\n",
)
unfolding handle_info coins_of sum_unspent run_each last_block_lines genesis_block printed decimal
    digits
info_text = refl

-- A full buffer is read past its end.
data_text : (c_string (72 ∷ 105 ∷ 0 ∷ 33 ∷ []) ≡ ret (codes "Hi")) × (c_string (72 ∷ 105 ∷ []) ≡ ub)
unfolding c_string
data_text = (refl, refl)

hex_text : print_hex_buffer 2 (197 ∷ 10 ∷ 255 ∷ []) ≡ ret (codes "c50a")
unfolding print_hex_buffer
hex_text = refl

no_transaction : transaction_print none (ret []) ≡ ret []
unfolding transaction_print
no_transaction = refl

-- The genesis block has no list of transactions, and is said to have 2 ^ 32 - 1.
info_block_text : handle_info_block ascending ≡ (
  done,
  codes
      "Blockchain Information:\nBlock Index: 0\nTimestamp: 1537578000\nPrevious Block Hash: 0000000000000000000000000000000000000000000000000000000000000000\nBlock Hash: c52c26c8b5461639635d8edf2a97d48d0c8e0009c817f2b1d3d7ff2f04515803\nNumber of Transactions: 4294967295\nList of Transactions:\nBlock Size: 206158431288 bytes\n\n",
)
unfolding handle_info_block print_block_info size_shown print_transactions nodes_at nodes_from
    genesis_block printed decimal digits bytes_to_hex hex_char
info_block_text = refl

swapped : swap_endian (1 ∷ 2 ∷ 3 ∷ 255 ∷ 5 ∷ []) 5 ≡ ret (5 ∷ 255 ∷ 3 ∷ 2 ∷ 1 ∷ [])
unfolding swap_endian
swapped = refl
