-- ===== src/Examples/Wallets.antt =====
-- Key pairs on the disk.
use holbertonschool_blockcha.Prelude.{
  ℕ, ◌≤◌, ◌≡◌, ◌↔◌, refl, some, List, [], ◌∷◌, length, replicate, ret, ub, arith,
}
use holbertonschool_blockcha.Crypto.Files.{Disk, ec_load}
use holbertonschool_blockcha.Crypto.Files.Restored.{CanSave}
use holbertonschool_blockcha.Crypto.Files.Undefined.{ec_load_undefined}
use holbertonschool_blockcha.Cli.State.{done}
use holbertonschool_blockcha.Cli.Main.{start}
use holbertonschool_blockcha.Cli.Command.{handle_wallet_load, handle_wallet_save}
use holbertonschool_blockcha.Cli.Command.Wallet.{handle_wallet_load-handle_wallet_save}
use holbertonschool_blockcha.Examples.Platform.{plain_lists, little_host, empty_disk}
use holbertonschool_blockcha.Examples.Runs.{genesis_ssl, world, with_wallet}

abbrev keys_folder : List ℕ
keys_folder = b'k' ∷ b'e' ∷ b'y' ∷ b's' ∷ []

abbrev long_folder : List ℕ
long_folder = replicate 8180 b'k'

can_save : CanSave 5 keys_folder empty_disk
can_save = record {
  fits = omega arith;
  folder_there = refl;
  opens_private = refl;
  opens_public = refl;
  private = refl;
  public = refl;
}

handle_wallet_load-handle_wallet_save_example :
    (disk : Disk) × (handle_wallet_save world with_wallet keys_folder ≡ ret (done, disk))
    × (handle_wallet_load (record world { disk = disk }) start keys_folder
        ≡ ret (done, record start { wallet = some 5 }))
handle_wallet_load-handle_wallet_save_example =
    handle_wallet_load-handle_wallet_save world world with_wallet start keys_folder 5 refl can_save

ec_load_undefined_example :
    (ec_load (some long_folder) empty_disk ≡ ub)
    ↔ ((8180 ≤ length long_folder) × (length long_folder ≤ 8181))
ec_load_undefined_example = ec_load_undefined long_folder empty_disk
