-- ===== src/V2/Files.antt =====
-- blockchain_serialize.c and blockchain_deserialize.c of blockchain/v0.2/: the code of version 0.1
-- with the HBLK_VERSION of blockchain/v0.2/blockchain.h.
use holbertonschool_blockcha.Prelude.{ℕ, Bool, Option, List, [], ◌∷◌, Run}
use holbertonschool_blockcha.Prelude.Host.{Host}
use holbertonschool_blockcha.Llist.{Llist}
use holbertonschool_blockcha.V1.Types.{Blockchain}
use holbertonschool_blockcha.V1.Serialize
use holbertonschool_blockcha.V1.Deserialize

unfoldable pub hblk_version : List ℕ
hblk_version = b'0' ∷ b'.' ∷ b'2' ∷ []

module _ ⦃host : Host⦄ ⦃ll : Llist⦄ where
  unfoldable pub blockchain_serialize : Bool → Option Blockchain → Run (Option (List ℕ))
  blockchain_serialize = Serialize.blockchain_serialize hblk_version

  unfoldable pub blockchain_deserialize : Option (List ℕ) → Run (Option Blockchain)
  blockchain_deserialize = Deserialize.blockchain_deserialize hblk_version
