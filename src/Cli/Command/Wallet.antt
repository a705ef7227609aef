-- ===== src/Cli/Command/Wallet.antt =====
-- `wallet_save` and then `wallet_load`.
use holbertonschool_blockcha.Prelude.{◌≡◌, ℕ, some, List, ret}
use holbertonschool_blockcha.Crypto.{Openssl}
use holbertonschool_blockcha.Crypto.Files.{Disk, ec_load}
use holbertonschool_blockcha.Crypto.Files.Restored.{CanSave, ec_load-ec_save}
use holbertonschool_blockcha.Cli.State.{done, State, World}
use holbertonschool_blockcha.Cli.Command.{handle_wallet_load, handle_wallet_save}

module _ ⦃ssl : Openssl⦄ where
  load_lem :
      (w : World) (s : State) (path : List ℕ) (key : ssl.EcKey)
      → ec_load (some path) w.disk ≡ ret (some key)
      → handle_wallet_load w s path ≡ ret (done, record s { wallet = some key })
  unfolding handle_wallet_load
  load_lem w s path key h = rw (handle_wallet_load, h)

  -- Where the wallet's key pair can be saved in a folder, `wallet_save` answers that it is done,
  -- and `wallet_load` of the folder, from the disk that it leaves and in any state, puts that pair
  -- into the wallet and changes nothing else.
  pub handle_wallet_load-handle_wallet_save :
      (w w' : World) (s s' : State) (path : List ℕ) (key : ssl.EcKey)
      → s.wallet ≡ some key
      → CanSave key path w.disk
      → (disk : Disk) × (handle_wallet_save w s path ≡ ret (done, disk))
        × (handle_wallet_load (record w' { disk = disk }) s' path
            ≡ ret (done, record s' { wallet = s.wallet }))
  unfolding handle_wallet_save
  handle_wallet_load-handle_wallet_save w w' s s' path key wallet h =
      let (disk, saved, loaded) = ec_load-ec_save key path w.disk h in
      (
        disk,
        rw (handle_wallet_save, wallet, saved),
        rw wallet (load_lem (record w' { disk = disk }) s' path key loaded),
      )
