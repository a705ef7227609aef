-- ===== src/Crypto/Files.antt =====
-- crypto/ec_save.c and crypto/ec_load.c: a key pair in two files of a folder.
pub mod Restored
pub mod Undefined
use holbertonschool_blockcha.Prelude.{
  ℕ, ◌+◌, ltb, if◌then◌else◌, not, Bool, true, false, Option, none, some, List, [], ◌∷◌, ◌++◌,
  length, Run, ret, ub, ◌>>=◌,
}
use holbertonschool_blockcha.Prelude.Bytes.{same_string}
use holbertonschool_blockcha.Crypto.{Openssl}

-- BUFSIZ of the GNU C library.
abbrev pub bufsiz : ℕ
bufsiz = 8192

abbrev pub pri_filename : List ℕ
pri_filename = b'k' ∷ b'e' ∷ b'y' ∷ b'.' ∷ b'p' ∷ b'e' ∷ b'm' ∷ []

abbrev pub pub_filename : List ℕ
pub_filename = b'k' ∷ b'e' ∷ b'y' ∷ b'_' ∷ b'p' ∷ b'u' ∷ b'b' ∷ b'.' ∷ b'p' ∷ b'e' ∷ b'm' ∷ []

-- What the system calls meet: whether a path exists, the files that can be read, and where `mkdir`
-- and `fopen` for writing succeed.
pub record Disk : Type 0 where
  pub exists : List ℕ → Bool
  pub file_at : List ℕ → Option (List ℕ)
  pub can_make : List ℕ → Bool
  pub can_open : List ℕ → Bool

-- `sprintf(buf, "%s/%s", folder, name)` into an array of BUFSIZ bytes.
unfoldable pub sprintf_path : List ℕ → List ℕ → Run (List ℕ)
sprintf_path folder name =
    let path = folder ++ (b'/' ∷ name) in if ltb bufsiz (length path + 1) then ub else ret path

-- The folder is there, or is made.
unfoldable pub ensure_folder : List ℕ → Disk → Option Disk
ensure_folder folder disk =
    if disk.exists folder
    then some disk
    else if disk.can_make folder
    then some (record disk { exists = λ p. if same_string p folder then true else disk.exists p })
    else none

-- One file, with what the library made of the key. If it cannot be opened, `fclose` is given NULL.
unfoldable pub write_pem : Bool × List ℕ → List ℕ → Disk → Run (Bool × Disk)
write_pem (succeeds, text) path disk =
    if not (disk.can_open path)
    then ub
    else ret (
      succeeds,
      record disk { file_at = λ p. if same_string p path then some text else disk.file_at p },
    )

module _ ⦃ssl : Openssl⦄ where
  -- Whether the result is not 0, and the disk afterwards.
  unfoldable pub ec_save : Option ssl.EcKey → Option (List ℕ) → Disk → Run (Bool × Disk)
  ec_save none folder disk = ret (false, disk)
  ec_save (some key) none disk = ret (false, disk)
  ec_save (some key) (some folder) disk = do
    path_priv ← sprintf_path folder pri_filename
    path_pub ← sprintf_path folder pub_filename
    elim (ensure_folder folder disk) [
      | none ↦ ret (false, disk)
      | some made ↦
          (write_pem (ssl.pem_write_private key) path_priv made >>= λ first.
          if not first.0
          then ret (false, first.1)
          else write_pem (ssl.pem_write_public key) path_pub first.1)
    ]

  unfoldable pub ec_load : Option (List ℕ) → Disk → Run (Option ssl.EcKey)
  ec_load none disk = ret none
  ec_load (some folder) disk =
      if ltb bufsiz (length folder + length pub_filename) then ret none else (do
        path_pub ← sprintf_path folder pub_filename
        elim (disk.file_at path_pub) [
          | none ↦ ret none
          | some text ↦ elim (ssl.pem_read_public none text) [
            | none ↦ ret none
            | some key ↦
                (sprintf_path folder pri_filename >>= λ path_priv. elim (disk.file_at path_priv) [
                  | none ↦ ret none
                  | some private ↦ ret (ssl.pem_read_private (some key) private)
                ])
          ]
        ])
