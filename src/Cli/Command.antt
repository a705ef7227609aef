-- ===== src/Cli/Command.antt =====
-- `find_command` of cli/cli.c, and the handlers that only call one function: cli/handle_exit.c,
-- cli/handle_load.c, cli/handle_save.c and cli/handle_wallet_*.c.
pub mod Grows
pub mod Wallet
use holbertonschool_blockcha.Prelude.{
  length, ℕ, ◌+◌, ◌*◌, ltb, if◌then◌else◌, Option, none, some, List, Run, ret, ub, ◌>>=◌,
}
use holbertonschool_blockcha.Prelude.Host.{Host}
use holbertonschool_blockcha.Llist.{Llist}
use holbertonschool_blockcha.Crypto.{Openssl, ec_create, ec_pub_len}
use holbertonschool_blockcha.Crypto.Files.{Disk, ec_save, ec_load}
use holbertonschool_blockcha.Chain.Serialize.{blockchain_serialize}
use holbertonschool_blockcha.Chain.Deserialize.{blockchain_deserialize}
use holbertonschool_blockcha.Cli.State.{Answer, done, leave, failed, State, World}
use holbertonschool_blockcha.Cli.Mine.{handle_mine}
use holbertonschool_blockcha.Cli.Send.{handle_send}
use holbertonschool_blockcha.Cli.Info.{handle_info, handle_info_block}
use holbertonschool_blockcha.Cli.List.{generate_sorted_unspent_list}

-- The commands, by their names; `unknown` is any other string.
pub data Command : Type 0 where
  exit : Command
  wallet_create : Command
  wallet_save : Command
  wallet_load : Command
  mine_block : Command
  send : Command
  info : Command
  info_block : Command
  help : Command
  list : Command
  clear : Command
  ls : Command
  load : Command
  save : Command
  unknown : Command

module _ ⦃ssl : Openssl⦄ where
  -- The key that was there is freed in either case.
  unfoldable pub handle_wallet_create : World → State → Answer × State
  handle_wallet_create world state = elim (ec_create world.entropy) [
    | none ↦ (failed, record state { wallet = none })
    | some key ↦ (done, record state { wallet = some key })
  ]

  unfoldable pub handle_wallet_load : World → State → List ℕ → Run (Answer × State)
  handle_wallet_load world state path = ec_load (some path) world.disk >>= λ loaded. elim loaded [
    | none ↦ ret (failed, record state { wallet = none })
    | some key ↦ ret (done, record state { wallet = some key })
  ]

  -- With the disk afterwards.
  unfoldable pub handle_wallet_save : World → State → List ℕ → Run (Answer × Disk)
  handle_wallet_save world state path = elim state.wallet [
    | none ↦ ret (failed, world.disk)
    | some key ↦
        (ec_save (some key) (some path) world.disk >>= λ saved.
        if saved.0 then ret (done, saved.1) else ret (failed, saved.1))
  ]

module _ ⦃host : Host⦄ ⦃ll : Llist⦄ ⦃ssl : Openssl⦄ where
  unfoldable pub handle_load : World → State → List ℕ → Run (Answer × State)
  handle_load world state path = blockchain_deserialize (world.file_at path) >>= λ loaded.
      elim loaded [
        | none ↦ ret (failed, state)
        | some blockchain ↦ ret (done, record state { blockchain = blockchain })
      ]

  -- With the bytes that the file holds afterwards, if it was written.
  unfoldable pub handle_save : World → State → List ℕ → Run (Answer × Option (List ℕ))
  handle_save world state path =
      blockchain_serialize (world.can_write path) (some state.blockchain) >>= λ written.
      elim written [ none ↦ ret (failed, none) | some bytes ↦ ret (done, some bytes) ]

  -- The call for one command, and the state after it; `none` where `mine` still runs. What `save`
  -- and `wallet_save` write is in their handlers, and so is what is printed. `amount` is what `atoi` makes of the
  -- first argument. `strncpy` fills 131 bytes of the address's buffer, whatever the
  -- argument; a longer argument is left there without its NUL, and is read past its end.
  unfoldable pub find_command :
      World
      → Command
      → Option (List ℕ)
      → Option (List ℕ)
      → (List ℕ → ℕ)
      → State
      → Run (Option (Answer × State))
  find_command world exit arg1 arg2 atoi state = ret (some (leave, state))
  find_command world wallet_create none arg2 atoi state =
      ret (some (handle_wallet_create world state))
  find_command world wallet_create (some path) arg2 atoi state = ret (some (failed, state))
  find_command world wallet_save none arg2 atoi state = ret (some (failed, state))
  find_command world wallet_save (some path) arg2 atoi state =
      handle_wallet_save world state path >>= λ r. ret (some (r.0, state))
  find_command world wallet_load none arg2 atoi state = ret (some (failed, state))
  find_command world wallet_load (some path) arg2 atoi state =
      handle_wallet_load world state path >>= λ r. ret (some r)
  find_command world mine_block none arg2 atoi state = handle_mine world state
  find_command world mine_block (some path) arg2 atoi state = ret (some (failed, state))
  find_command world send none arg2 atoi state = ret (some (failed, state))
  find_command world send (some amount) none atoi state = ret (some (failed, state))
  find_command world send (some amount) (some address) atoi state =
      if ltb world.address_room (ec_pub_len * 2 + 1)
      then ub
      else (if ltb (ec_pub_len * 2) (length address)
          then ub
          else (handle_send (atoi amount) address state >>= λ r. ret (some r)))
  find_command world info arg1 arg2 atoi state = ret (some ((handle_info state).0, state))
  find_command world info_block arg1 arg2 atoi state =
      ret (some ((handle_info_block state).0, state))
  find_command world help arg1 arg2 atoi state = ret (some (done, state))
  find_command world list none arg2 atoi state = ret (some (generate_sorted_unspent_list state))
  find_command world list (some path) arg2 atoi state = ret (some (failed, state))
  find_command world clear arg1 arg2 atoi state = ret (some (done, state))
  find_command world ls arg1 arg2 atoi state = ret (some (done, state))
  find_command world load none arg2 atoi state = ret (some (failed, state))
  find_command world load (some path) arg2 atoi state =
      handle_load world state path >>= λ r. ret (some r)
  find_command world save none arg2 atoi state = ret (some (failed, state))
  find_command world save (some path) arg2 atoi state =
      handle_save world state path >>= λ r. ret (some (r.0, state))
  find_command world unknown arg1 arg2 atoi state = ret (some (failed, state))
