-- ===== src/Crypto/Files/Restored.antt =====
-- What `ec_load` makes of the files of `ec_save`.
use holbertonschool_blockcha.Prelude.{
  ℕ, ◌+◌, ◌≤◌, ◌≡◌, refl, ap, ◌∙◌, if◌then◌else◌, Bool, true, ◌||◌, none, some, List, ◌∷◌, ◌++◌,
  length, length-append, le→ltb, ret, arith, Bool-cases, inl, inr, ◌>>=◌,
}
use holbertonschool_blockcha.Prelude.Bytes.{same_string, same_string_refl, same_string-append}
use holbertonschool_blockcha.Crypto.{Openssl}
use holbertonschool_blockcha.Crypto.Files.{
  bufsiz, pri_filename, pub_filename, Disk, sprintf_path, ensure_folder, write_pem, ec_save,
  ec_load,
}

abbrev pub path_of : List ℕ → List ℕ → List ℕ
path_of folder name = folder ++ (b'/' ∷ name)

pub sprintf_path-fits :
    (folder name : List ℕ)
    → length folder + length name + 2 ≤ 8192
    → sprintf_path folder name ≡ ret (path_of folder name)
unfolding sprintf_path
sprintf_path-fits folder name h = ground (arith, length-append folder (b'/' ∷ name))

abbrev written : List ℕ → List ℕ → Disk → Disk
written path text disk = record disk {
  file_at = λ p. if same_string p path then some text else disk.file_at p;
}

-- The folder and the files that are wanted for a pair of keys.
pub record CanSave ⦃ssl : Openssl⦄ (key : ssl.EcKey) (folder : List ℕ) (disk : Disk) : Type 0 where
  pub fits : length folder ≤ 8179
  pub folder_there : (disk.exists folder || disk.can_make folder) ≡ true
  pub opens_private : disk.can_open (path_of folder pri_filename) ≡ true
  pub opens_public : disk.can_open (path_of folder pub_filename) ≡ true
  pub private : (ssl.pem_write_private key).0 ≡ true
  pub public : (ssl.pem_write_public key).0 ≡ true

folder_made :
    (folder : List ℕ) (disk : Disk)
    → (disk.exists folder || disk.can_make folder) ≡ true
    → (made : Disk) × (ensure_folder folder disk ≡ some made) × (made.can_open ≡ disk.can_open)
unfolding ensure_folder
folder_made folder disk h = elim (Bool-cases (disk.exists folder)) [
  | inl there ↦ (disk, rw (ensure_folder, there), refl)
  | inr not_there ↦ (
    record disk { exists = λ p. if same_string p folder then true else disk.exists p },
    rw (ensure_folder, not_there, rw not_there at h),
    refl,
  )
]

write_pem-opens :
    (text : Bool × List ℕ) (path : List ℕ) (disk : Disk)
    → disk.can_open path ≡ true
    → write_pem text path disk ≡ ret (text.0, written path text.1 disk)
unfolding write_pem
write_pem-opens text path disk h = rw (write_pem, h)

module _ ⦃ssl : Openssl⦄ (key : ssl.EcKey) (folder : List ℕ) where
  abbrev path_priv : List ℕ
  path_priv = path_of folder pri_filename

  abbrev path_pub : List ℕ
  path_pub = path_of folder pub_filename

  -- The disk after a pair was saved.
  abbrev both_written : Disk → Disk
  both_written made =
      written path_pub (ssl.pem_write_public key).1
        (written path_priv (ssl.pem_write_private key).1 made)

  ec_save-writes :
      (disk : Disk)
      → CanSave key folder disk
      → (made : Disk) × (ec_save (some key) (some folder) disk ≡ ret (true, both_written made))
  unfolding ec_save
  ec_save-writes disk h =
      let (made, ensured, same) = folder_made folder disk h.folder_there in
      let first =
        write_pem-opens (ssl.pem_write_private key) path_priv made (rw same h.opens_private) in
      let second =
        write_pem-opens (ssl.pem_write_public key) path_pub
          (written path_priv (ssl.pem_write_private key).1 made) (rw same h.opens_public) in
      (
        made,
        rw (
          sprintf_path-fits folder pri_filename (omega (arith, h.fits)),
          sprintf_path-fits folder pub_filename (omega (arith, h.fits)),
          ensured,
          first,
          h.private,
          second,
          h.public,
        ),
      )

  reads_private :
      (made : Disk) → (both_written made).file_at path_priv ≡ some (ssl.pem_write_private key).1
  unfolding same_string
  reads_private made = rw (
    same_string-append folder (b'/' ∷ pri_filename) (b'/' ∷ pub_filename),
    same_string_refl path_priv,
  )

  reads_public :
      (made : Disk) → (both_written made).file_at path_pub ≡ some (ssl.pem_write_public key).1
  reads_public made = rw (same_string_refl path_pub)

  ec_load-reads :
      (d : Disk) (public private : List ℕ) (k : ssl.EcKey)
      → length folder ≤ 8179
      → d.file_at path_pub ≡ some public
      → ssl.pem_read_public none public ≡ some k
      → d.file_at path_priv ≡ some private
      → ec_load (some folder) d ≡ ret (ssl.pem_read_private (some k) private)
  unfolding ec_load
  ec_load-reads d public private k short there first there' = rw (
    ec_load,
    le→ltb bufsiz (length folder + 11) (omega arith),
    sprintf_path-fits folder pub_filename (omega arith),
    ◌>>=◌,
    there,
    first,
    sprintf_path-fits folder pri_filename (omega arith),
    ◌>>=◌,
    there',
  )

  ec_load-written :
      (disk made : Disk)
      → CanSave key folder disk
      → ec_load (some folder) (both_written made) ≡ ret (some key)
  ec_load-written disk made h =
      let (k, public) =
        ssl.pem_read_public_written key (ssl.pem_write_public key).1
          (ap (λ b. (b, (ssl.pem_write_public key).1)) h.public) in
      let private =
        ssl.pem_read_private_written key (some k) (ssl.pem_write_private key).1
          (ap (λ b. (b, (ssl.pem_write_private key).1)) h.private) in
      ec_load-reads (both_written made) (ssl.pem_write_public key).1 (ssl.pem_write_private key).1 k
        h.fits (reads_public made) public (reads_private made)
      ∙ ap ret private

  -- Where a pair can be saved, `ec_save` saves it and `ec_load` reads it again.
  pub ec_load-ec_save :
      (disk : Disk)
      → CanSave key folder disk
      → (disk' : Disk) × (ec_save (some key) (some folder) disk ≡ ret (true, disk'))
        × (ec_load (some folder) disk' ≡ ret (some key))
  ec_load-ec_save disk h =
      let (made, saved) = ec_save-writes disk h in
      (both_written made, saved, ec_load-written disk made h)
