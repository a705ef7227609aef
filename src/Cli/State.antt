-- ===== src/Cli/State.antt =====
-- `state_t` of cli/cli.h, and what the commands take from outside the program.
use holbertonschool_blockcha.Prelude.{ℕ, Bool, Option, List}
use holbertonschool_blockcha.Crypto.{Openssl}
use holbertonschool_blockcha.Crypto.Files.{Disk}
use holbertonschool_blockcha.Transaction.Types.{Transaction}
use holbertonschool_blockcha.Block.Types.{Blockchain}

-- The ints that the commands return: 0, 1 and -1.
pub data Answer : Type 0 where
  done : Answer
  leave : Answer
  failed : Answer

module _ ⦃ssl : Openssl⦄ where
  pub record State : Type 0 where
    pub wallet : Option ssl.EcKey
    pub blockchain : Blockchain
    pub tx_pool : List Transaction

  -- The clock, the randomness, the files, the disk that the keys are kept on, what an array holds that nothing
  -- was written to, the rounds of mining that are looked at, and the size of the buffer for the
  -- receiver's address.
  pub record World : Type 0 where
    pub now : ℕ
    pub entropy : ℕ
    pub file_at : List ℕ → Option (List ℕ)
    pub can_write : List ℕ → Bool
    pub disk : Disk
    pub unset : List ℕ
    pub rounds : ℕ
    pub address_room : ℕ
