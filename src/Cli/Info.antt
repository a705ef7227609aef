-- ===== src/Cli/Info.antt =====
-- The commands that only print: cli/handle_info.c, cli/handle_info_block.c and cli/handle_help.c.
-- `printf` of the C library puts what it writes behind what was written before. The hex strings that
-- are printed are never freed.
use Prim.Native.String.{String}
use holbertonschool_blockcha.Prelude.{
  ℕ, ◌+◌, ◌*◌, ◌-◌, ◌%◌, ◌^◌, ◌==◌, if◌then◌else◌, Option, none, some, List, [], ◌∷◌, ◌++◌,
}
use holbertonschool_blockcha.Prelude.Text.{codes, Piece, chars, unsigned, say, printed}
use holbertonschool_blockcha.Llist.{Llist}
use holbertonschool_blockcha.Llist.Walk.{nodes_at}
use holbertonschool_blockcha.Crypto.{Openssl}
use holbertonschool_blockcha.Transaction.Types.{TxOut, TxIn, Transaction}
use holbertonschool_blockcha.Block.Types.{Block, Blockchain}
use holbertonschool_blockcha.Cli.State.{Answer, done, State}
use holbertonschool_blockcha.Cli.Tools.{sum_unspent, bytes_to_hex}
use holbertonschool_blockcha.Cli.List.{print_unspent_tx_out_info}

-- The table of the commands with what they are for.
abbrev commands : List (String × String)
commands =
    ("exit", "                Exit the program")
    ∷ ("wallet_create", "        Create a new wallet")
    ∷ ("wallet_save <path>", "Save the wallet to a file")
    ∷ ("wallet_load <path>", "Load the wallet from a file")
    ∷ ("mine", "                Mine new blocks")
    ∷ ("send <amount> <address>", "Send coins to a specific address")
    ∷ ("info", "                Display information about the blockchain")
    ∷ ("info_block", "        Display information about the latest block")
    ∷ ("list", "                List unspent transactions")
    ∷ ("clear", "                Clear the screen")
    ∷ ("ls", "                List files in the current directory")
    ∷ ("load <path>", "        Load blockchain data from a file")
    ∷ ("save <path>/<file>", "Save blockchain data to a file")
    ∷ ("help", "                Display this help message")
    ∷ []

each_command : List (String × String) → List Piece
each_command [] = []
each_command ((command, description) ∷ rows) =
    say command ∷ say "\t\t\t" ∷ say description ∷ say "\n" ∷ each_command rows

unfoldable print_help : List ℕ
unfolding each_command
print_help = printed (say "Available commands:\n" ∷ each_command commands)

-- The last lines of `info`, about the tail of the chain.
unfoldable pub last_block_lines : Option Block → List Piece
last_block_lines none = say "No blocks in the blockchain\n" ∷ []
last_block_lines (some last_block) =
    say "\nBlock Header:\n"
    ∷ (if last_block.info.index == 0
        then (say "This is the Genesis Block\n" ∷ [])
        else (say "Nonce: "
            ∷ unsigned last_block.info.nonce
            ∷ say "\n"
            ∷ say "Difficulty: "
            ∷ unsigned last_block.info.difficulty
            ∷ say "\n"
            ∷ []))

unfoldable pub print_input_info : TxIn → List ℕ → ℕ × TxIn × List ℕ
print_input_info input out = (
  0,
  input,
  out
      ++ printed (
          say "    - Block Hash: "
          ∷ chars (bytes_to_hex input.block_hash)
          ∷ say "\n"
          ∷ say "    - Transaction ID: "
          ∷ chars (bytes_to_hex input.tx_id)
          ∷ say "\n"
          ∷ say "    - Transaction Output Hash: "
          ∷ chars (bytes_to_hex input.tx_out_hash)
          ∷ say "\n"
          ∷ []),
)

unfoldable pub print_output_info : TxOut → List ℕ → ℕ × TxOut × List ℕ
print_output_info output out = (
  0,
  output,
  out
      ++ printed (
          say "    - Amount: "
          ∷ unsigned output.amount
          ∷ say "\n"
          ∷ say "    - Public Address: "
          ∷ chars (bytes_to_hex output.pubkey)
          ∷ say "\n"
          ∷ say "    - Output Hash: "
          ∷ chars (bytes_to_hex output.hash)
          ∷ say "\n"
          ∷ []),
)

-- On a host whose pointers have 8 bytes.
abbrev sizeof_block : ℕ
sizeof_block = 1128

abbrev sizeof_transaction : ℕ
sizeof_transaction = 48

module _ ⦃ll : Llist⦄ where
  -- `arg` is the blockchain, whose unspent outputs are printed below each transaction.
  unfoldable pub print_transaction_info :
      Blockchain → Transaction → List ℕ → ℕ × Transaction × List ℕ
  print_transaction_info blockchain transaction out =
      let heading =
        out
        ++ printed (
            say "- Transaction ID: "
            ∷ chars (bytes_to_hex transaction.id)
            ∷ say "\n"
            ∷ say "  Inputs:\n"
            ∷ []) in
      let inputs = (ll.for_each print_input_info transaction.inputs heading).2 in
      let outputs =
        (ll.for_each print_output_info transaction.outputs (inputs ++ codes "  Outputs:\n")).2 in
      let unspent =
        (ll.for_each print_unspent_tx_out_info blockchain.unspent
          (outputs ++ codes "  Unspent:\n")).2 in
      (0, transaction, unspent)

  -- What `%u` shows of the size: NULL has the size -1.
  unfoldable pub size_shown : {A : Type 0} → Option (List A) → ℕ
  size_shown none = 2 ^ 32 - 1
  size_shown (some l) = ll.size l

  -- Over NULL nothing is done for each node.
  unfoldable pub print_transactions : Blockchain → Option (List Transaction) → List ℕ → List ℕ
  print_transactions blockchain none out = out
  print_transactions blockchain (some transactions) out =
      (ll.for_each (print_transaction_info blockchain) transactions out).2

  unfoldable pub print_block_info : Blockchain → Block → List ℕ → List ℕ
  print_block_info blockchain block out =
      let num_transactions = size_shown block.transactions in
      let heading =
        out
        ++ printed (
            say "Block Index: "
            ∷ unsigned block.info.index
            ∷ say "\n"
            ∷ say "Timestamp: "
            ∷ unsigned block.info.timestamp
            ∷ say "\n"
            ∷ say "Previous Block Hash: "
            ∷ chars (bytes_to_hex block.info.prev_hash)
            ∷ say "\n"
            ∷ say "Block Hash: "
            ∷ chars (bytes_to_hex block.hash)
            ∷ say "\n"
            ∷ say "Number of Transactions: "
            ∷ unsigned num_transactions
            ∷ say "\n"
            ∷ say "List of Transactions:\n"
            ∷ []) in
      print_transactions blockchain block.transactions heading
      ++ printed (
          say "Block Size: "
          ∷ unsigned ((sizeof_block + num_transactions * sizeof_transaction) % 2 ^ 64)
          ∷ say " bytes\n"
          ∷ say "\n"
          ∷ [])

  print_blocks : Blockchain → List Block → List ℕ → List ℕ
  print_blocks blockchain [] out = out
  print_blocks blockchain (block ∷ blocks) out =
      print_blocks blockchain blocks (print_block_info blockchain block out)

module _ ⦃ll : Llist⦄ ⦃ssl : Openssl⦄ where
  -- The coins that `info` counts.
  unfoldable pub coins_of : State → ℕ
  unfolding sum_unspent
  coins_of state = (ll.for_each sum_unspent state.blockchain.unspent 0).2

  -- What is printed. The state, its blockchain and its pool are never NULL.
  unfoldable pub handle_info : State → Answer × List ℕ
  unfolding coins_of last_block_lines
  handle_info state = (
    done,
    printed (
        say "Number of Blocks in Blockchain: "
        ∷ unsigned (ll.size state.blockchain.chain)
        ∷ say "\n"
        ∷ say "Number of unspent transaction outputs: "
        ∷ unsigned (ll.size state.blockchain.unspent)
        ∷ say "\n"
        ∷ say "Transaction pool is available\n"
        ∷ say "Number of pending transactions in transaction pool: "
        ∷ unsigned (ll.size state.tx_pool)
        ∷ say "\n"
        ∷ say "Coins: "
        ∷ unsigned (coins_of state)
        ∷ say "\n"
        ∷ last_block_lines (ll.get_tail state.blockchain.chain)),
  )

  unfoldable pub handle_info_block : State → Answer × List ℕ
  unfolding print_blocks
  handle_info_block state = (
    done,
    print_blocks state.blockchain (nodes_at state.blockchain.chain)
        (codes "Blockchain Information:\n"),
  )
