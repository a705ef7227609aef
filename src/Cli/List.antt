-- ===== src/Cli/List.antt =====
-- The command `list`, cli/unspent_list.c: it sorts the unspent outputs where they are, and prints
-- them.
pub mod Legible
use holbertonschool_blockcha.Prelude.{ℕ, ltb, if◌then◌else◌, none, some, List, [], ◌∷◌, ◌++◌}
use holbertonschool_blockcha.Prelude.Text.{codes, chars, unsigned, say, Piece, printed}
use holbertonschool_blockcha.Cli.Tools.{bytes_to_hex}
use holbertonschool_blockcha.Llist.{Llist, Comparison, less, equal, greater}
use holbertonschool_blockcha.Crypto.{Openssl}
use holbertonschool_blockcha.Transaction.Types.{UnspentTxOut}
use holbertonschool_blockcha.Cli.State.{Answer, done, failed, State}

unfoldable pub compares_unspent_tx_out : UnspentTxOut → UnspentTxOut → Comparison
compares_unspent_tx_out first second =
    if ltb first.out.amount second.out.amount
    then less
    else if ltb second.out.amount first.out.amount
    then greater
    else equal

unfoldable pub unspent_lines : UnspentTxOut → List Piece
unspent_lines utxo =
    say "Block Hash: "
    ∷ chars (bytes_to_hex utxo.block_hash)
    ∷ say "\n"
    ∷ say "Transaction ID: "
    ∷ chars (bytes_to_hex utxo.tx_id)
    ∷ say "\n"
    ∷ say "Output Info:\n"
    ∷ say "    - Amount: "
    ∷ unsigned utxo.out.amount
    ∷ say "\n"
    ∷ say "    - Public Address: "
    ∷ chars (bytes_to_hex utxo.out.pubkey)
    ∷ say "\n"
    ∷ say "    - Output Hash: "
    ∷ chars (bytes_to_hex utxo.out.hash)
    ∷ say "\n"
    ∷ []

-- The node is never NULL. What was printed before is handed on.
unfoldable pub print_unspent_tx_out_info : UnspentTxOut → List ℕ → ℕ × UnspentTxOut × List ℕ
print_unspent_tx_out_info utxo out = (0, utxo, out ++ printed (unspent_lines utxo))

module _ ⦃ll : Llist⦄ ⦃ssl : Openssl⦄ where
  unfoldable pub generate_sorted_unspent_list : State → Answer × State
  generate_sorted_unspent_list state =
      elim (ll.sort state.blockchain.unspent compares_unspent_tx_out) [
        | none ↦ (failed, state)
        | some sorted ↦
            (done, record state { blockchain = record state.blockchain { unspent = sorted } })
      ]

  -- What it prints.
  unfoldable pub print_sorted_unspent_list : State → List ℕ
  print_sorted_unspent_list state =
      elim (ll.sort state.blockchain.unspent compares_unspent_tx_out) [
        | none ↦ codes "Error: Failed to sort unspent transactions list\n"
        | some sorted ↦ (ll.for_each print_unspent_tx_out_info sorted []).2
      ]
