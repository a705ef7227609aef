-- ===== src/Crypto/Files/Undefined.antt =====
-- Where `ec_load` writes past its array.
use holbertonschool_blockcha.Prelude.{
  ℕ, ◌+◌, ◌≤◌, ◌<◌, ◌≡◌, ◌≢◌, ◌↔◌, ltb, le→ltb, lt→ltb, none, some, List, ◌∷◌, length,
  length-append, ret, ub, arith, Bool-cases, Option-cases, inl, inr, ◌>>=◌,
}
use holbertonschool_blockcha.Crypto.{Openssl}
use holbertonschool_blockcha.Crypto.Files.{
  bufsiz, pri_filename, pub_filename, Disk, sprintf_path, ec_load,
}
use holbertonschool_blockcha.Crypto.Files.Restored.{path_of, sprintf_path-fits}

sprintf_path-long :
    (folder name : List ℕ) → 8192 < length folder + length name + 2 → sprintf_path folder name ≡ ub
unfolding sprintf_path
sprintf_path-long folder name h = ground (arith, length-append folder (b'/' ∷ name))

module _ ⦃ssl : Openssl⦄ (folder : List ℕ) (d : Disk) where
  ec_load_long : 8181 < length folder → ec_load (some folder) d ≡ ret none
  unfolding ec_load
  ec_load_long long = rw (ec_load, lt→ltb bufsiz (length folder + 11) (omega arith))

  ec_load_short : length folder ≤ 8179 → ec_load (some folder) d ≢ ub
  unfolding ec_load
  ec_load_short short undefined =
      let room = le→ltb bufsiz (length folder + 11) (omega arith) in
      let fits_public = sprintf_path-fits folder pub_filename (omega arith) in
      let fits_private = sprintf_path-fits folder pri_filename (omega arith) in
      elim (Option-cases (d.file_at (path_of folder pub_filename))) [
        | inl e ↦ cc (rw (ec_load, room, fits_public, ◌>>=◌, e) at undefined)
        | inr (text, e) ↦ elim (Option-cases (ssl.pem_read_public none text)) [
          | inl e' ↦ cc (rw (ec_load, room, fits_public, ◌>>=◌, e, e') at undefined)
          | inr (key, e') ↦ elim (Option-cases (d.file_at (path_of folder pri_filename))) [
            | inl e'' ↦
                cc (rw (ec_load, room, fits_public, ◌>>=◌, e, e', fits_private, e'') at undefined)
            | inr (private, e'') ↦
                cc (rw (ec_load, room, fits_public, ◌>>=◌, e, e', fits_private, e'') at undefined)
          ]
        ]
      ]

  -- `ec_load` writes past its array exactly for the folders of 8180 and 8181 bytes, since its test
  -- leaves no room for the slash and the terminating NUL; for no other folder is it undefined.
  pub ec_load_undefined :
      (ec_load (some folder) d ≡ ub) ↔ ((8180 ≤ length folder) × (length folder ≤ 8181))
  unfolding ec_load
  ec_load_undefined = (
    λ undefined. elim (Bool-cases (ltb 8181 (length folder))) [
      | inl long ↦ let refused = ec_load_long (ground arith) in cc
      | inr fits ↦ elim (Bool-cases (ltb (length folder) 8180)) [
        | inl short ↦ absurd (ec_load_short (ground arith) undefined)
        | inr within ↦ ground arith
      ]
    ],
    λ (least, most). rw (
      ec_load,
      le→ltb bufsiz (length folder + 11) (omega arith),
      sprintf_path-long folder pub_filename (omega arith),
    ),
  )
