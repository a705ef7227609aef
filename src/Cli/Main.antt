-- ===== src/Cli/Main.antt =====
-- `main` of cli/cli.c: the lines that are read, split into words, up to the command `exit` or the end
-- of the input.
pub mod Sessions
pub mod Words
use holbertonschool_blockcha.Prelude.{
  ℕ, ◌==◌, ◌&&◌, if◌then◌else◌, not, Bool, true, false, Option, none, some, List, [], ◌∷◌, find?,
  Run, ret, ub,
}
use holbertonschool_blockcha.Prelude.Bytes.{same_string}
use holbertonschool_blockcha.Prelude.Host.{Host}
use holbertonschool_blockcha.Llist.{Llist}
use holbertonschool_blockcha.Crypto.{Openssl}
use holbertonschool_blockcha.Block.Genesis.{blockchain_create}
use holbertonschool_blockcha.Cli.State.{Answer, done, leave, failed, State, World}
use holbertonschool_blockcha.Cli.Command.{
  Command, exit, wallet_create, wallet_save, wallet_load, mine_block, send, info, info_block, help,
  list, clear, ls, load, save, unknown, find_command,
}

-- The comparisons of `find_command`, in its order.
abbrev names : List (List ℕ × Command)
names =
    (b'e' ∷ b'x' ∷ b'i' ∷ b't' ∷ [], exit)
    ∷ (
      b'w' ∷ b'a' ∷ b'l' ∷ b'l' ∷ b'e' ∷ b't' ∷ b'_' ∷ b'c' ∷ b'r' ∷ b'e' ∷ b'a' ∷ b't' ∷ b'e' ∷ [],
      wallet_create,
    )
    ∷ (b'w' ∷ b'a' ∷ b'l' ∷ b'l' ∷ b'e' ∷ b't' ∷ b'_' ∷ b's' ∷ b'a' ∷ b'v' ∷ b'e' ∷ [], wallet_save)
    ∷ (b'w' ∷ b'a' ∷ b'l' ∷ b'l' ∷ b'e' ∷ b't' ∷ b'_' ∷ b'l' ∷ b'o' ∷ b'a' ∷ b'd' ∷ [], wallet_load)
    ∷ (b'm' ∷ b'i' ∷ b'n' ∷ b'e' ∷ [], mine_block)
    ∷ (b's' ∷ b'e' ∷ b'n' ∷ b'd' ∷ [], send)
    ∷ (b'i' ∷ b'n' ∷ b'f' ∷ b'o' ∷ [], info)
    ∷ (b'i' ∷ b'n' ∷ b'f' ∷ b'o' ∷ b'_' ∷ b'b' ∷ b'l' ∷ b'o' ∷ b'c' ∷ b'k' ∷ [], info_block)
    ∷ (b'h' ∷ b'e' ∷ b'l' ∷ b'p' ∷ [], help)
    ∷ (b'l' ∷ b'i' ∷ b's' ∷ b't' ∷ [], list)
    ∷ (b'c' ∷ b'l' ∷ b'e' ∷ b'a' ∷ b'r' ∷ [], clear)
    ∷ (b'l' ∷ b's' ∷ [], ls)
    ∷ (b'l' ∷ b'o' ∷ b'a' ∷ b'd' ∷ [], load)
    ∷ (b's' ∷ b'a' ∷ b'v' ∷ b'e' ∷ [], save)
    ∷ []

unfoldable pub command_of : List ℕ → Command
command_of cmd = elim (find? (λ entry. same_string cmd entry.0) names) [
  | none ↦ unknown
  | some (name, command) ↦ command
]

-- `strtok(s, " ")`: the first word, and what stands behind the space that ends it.
unfoldable pub skip_spaces : List ℕ → List ℕ
skip_spaces [] = []
skip_spaces (c ∷ s) = if c == b' ' then skip_spaces s else c ∷ s

unfoldable pub cut_word : List ℕ → List ℕ × List ℕ
cut_word [] = ([], [])
cut_word (c ∷ s) = let more = cut_word s in if c == b' ' then ([], s) else (c ∷ more.0, more.1)

-- `none` is NULL: only spaces are left.
unfoldable pub strtok : List ℕ → Option (List ℕ) × List ℕ
strtok s = elim (skip_spaces s) [
  | [] ↦ (none, [])
  | c ∷ t ↦ let (word, rest) = cut_word (c ∷ t) in (some word, rest)
]

module _ ⦃ssl : Openssl⦄ where
  -- A session: each line with the world that it is run in. Behind the last one `readline` returns NULL.
  abbrev pub Session : Type 0
  Session = List (World × List ℕ)

module _ ⦃host : Host⦄ ⦃ll : Llist⦄ ⦃ssl : Openssl⦄ where
  -- The state that `main` starts with.
  unfoldable pub start : State
  start = record { wallet = none; blockchain = blockchain_create; tx_pool = [] }

  -- One line that is not empty; a line of spaces has no command, and `strcmp` reads NULL. The array for
  -- the receiver's address has 130 bytes.
  unfoldable pub run_line : (List ℕ → ℕ) → World → List ℕ → State → Run (Option (Answer × State))
  run_line atoi world line state =
      let (cmd, after_cmd) = strtok line in
      let (arg1, after_arg1) = strtok after_cmd in
      let (arg2, _) = strtok after_arg1 in
      elim cmd [
        | none ↦ ub
        | some name ↦
            find_command (record world { address_room = 130 }) (command_of name) arg1 arg2 atoi
              state
      ]

  -- `ret != 0`
  abbrev pub status : Answer → ℕ
  status done = 0
  status leave = 1
  status failed = 1

  -- The loop of `main` with the last answer: the exit status and the state that is cleaned up.
  unfoldable pub main_loop : (List ℕ → ℕ) → Session → Answer → State → Run (Option (ℕ × State))
  main_loop atoi [] answer state = ret (some (status answer, state))
  main_loop atoi ((world, []) ∷ lines) answer state = main_loop atoi lines answer state
  main_loop atoi ((world, c ∷ line) ∷ lines) answer state =
      elim (run_line atoi world (c ∷ line) state) [
        | ub ↦ ub
        | ret none ↦ ret none
        | ret (some (leave, state')) ↦ ret (some (status leave, state'))
        | ret (some (done, state')) ↦ main_loop atoi lines done state'
        | ret (some (failed, state')) ↦ main_loop atoi lines failed state'
      ]

  unfoldable pub main : (List ℕ → ℕ) → Session → Run (Option (ℕ × State))
  unfolding start
  main atoi lines = main_loop atoi lines done start
