-- ===== src/V1/Refused.antt =====
-- Which files `blockchain_deserialize` of blockchain/v0.1/ refuses.
use holbertonschool_blockcha.Prelude.{
  ℕ, ◌+◌, ◌<◌, ◌≤◌, ◌≡◌, ◌↔◌, ◌⊎◌, inl, inr, refl, not, Bool, none, some, List, ◌++◌, sym, length,
  take, drop, get_or, ret, arith, ltb, ◌==◌, Bool-cases,
}
use holbertonschool_blockcha.Prelude.Host.{Host, get_endianness, value_of}
use holbertonschool_blockcha.Prelude.Bytes.{mem_eq, mem_eq_refl, mem_eq→eq_all}
use holbertonschool_blockcha.Llist.{Llist}
use holbertonschool_blockcha.Chain.Serialize.{hblk_magic}
use holbertonschool_blockcha.Chain.Reader.{take-drop, Run-cases}
use holbertonschool_blockcha.V1.Reader.{Reader, ◌>>=◌, read, bind-read, bind-ret}
use holbertonschool_blockcha.V1.Deserialize.{
  read_header, read_value, blocks, blockchain_deserialize,
}

-- The file starts with the magic bytes and the version, and holds a byte order and a number of
-- blocks.
pub record IsHeader (version file : List ℕ) : Type 0 where
  pub rest : List ℕ
  pub split : file ≡ hblk_magic ++ (version ++ rest)
  pub counted : 5 ≤ length rest

-- A read takes its bytes, or the file is shorter.
data ReadCase (n : ℕ) (file : List ℕ) : Type 0 where
  short : length file < n → read n file ≡ ret none → ReadCase n file
  taken :
      (bs rest : List ℕ)
      → file ≡ bs ++ rest
      → length bs ≡ n
      → length file ≡ n + length rest
      → ReadCase n file

read_cases : (n : ℕ) (file : List ℕ) → ReadCase n file
unfolding read
read_cases n file = elim (Bool-cases (ltb (length file) n)) [
  | inl less ↦ short (ground arith) (rw (read, less))
  | inr enough ↦
      let (e, k, t) = take-drop n file (ground arith) in
      taken (take n file) (drop n file) (sym e) k t
]

bind-short :
    {A B : Type 0} (m : Reader A) (f : A → Reader B) (file : List ℕ)
    → m file ≡ ret none
    → (m >>= f) file ≡ ret none
bind-short m f file h = rw (◌>>=◌, h)

module _ ⦃host : Host⦄ (version : List ℕ) (three : length version ≡ 3) where
  -- A file that is not refused in its header starts with one.
  IsHeader-outcome : (file : List ℕ) → (read_header version file ≡ ret none) ⊎ IsHeader version file
  unfolding read_header read_value hblk_magic
  IsHeader-outcome file = elim (read_cases 4 file) [
    | short less e ↦ inl (bind-short (read 4) _ file e)
    | taken magic f1 e1 four l1 ↦ elim (Bool-cases (mem_eq 4 magic hblk_magic)) [
      | inl same_magic ↦ elim (read_cases 3 f1) [
        | short less e ↦ inl (rw e1 (simp (bind-read four, same_magic, bind-short (read 3) _ f1 e)))
        | taken saved f2 e2 k l2 ↦ elim (Bool-cases (mem_eq 3 saved version)) [
          | inl same_version ↦ elim (read_cases 1 f2) [
            | short less e ↦ inl (
                rw (e1, e2)
                  (simp (
                    bind-read four,
                    same_magic,
                    bind-read k,
                    same_version,
                    bind-short (read 1) _ f2 e,
                  )))
            | taken order f3 e3 one l3 ↦ elim (read_cases 4 f3) [
              | short less e ↦ inl (
                  rw (e1, e2, e3)
                    (simp (
                      bind-read four,
                      same_magic,
                      bind-read k,
                      same_version,
                      bind-read one,
                      bind-short (read_value 4) _ f3 (bind-short (read 4) _ f3 e),
                    )))
              | taken size f4 e4 size_4 l4 ↦
                  let magic_is =
                    mem_eq→eq_all 4 magic hblk_magic (omega arith) (omega arith) same_magic in
                  let version_is =
                    mem_eq→eq_all 3 saved version (omega arith) (omega arith) same_version in
                  inr (record {
                    rest = f2;
                    split = rw (e1, e2, magic_is, version_is);
                    counted = omega arith;
                  })
            ]
          ]
          | inr other ↦ inl (rw (e1, e2) (simp (bind-read four, same_magic, bind-read k, other)))
        ]
      ]
      | inr other ↦ inl (rw e1 (simp (bind-read four, other)))
    ]
  ]

  header_read :
      (file : List ℕ)
      → IsHeader version file
      → (r : (ℕ × Bool) × List ℕ) × (read_header version file ≡ ret (some r))
  unfolding read_header read_value hblk_magic
  header_read file h = elim (read_cases 1 h.rest) [
    | short less e ↦ absurd (omega (arith, h.counted))
    | taken order f3 e3 one l3 ↦ elim (read_cases 4 f3) [
      | short less e ↦ absurd (omega (arith, h.counted))
      | taken size f4 e4 size_4 l4 ↦ (
        ((value_of size, not (get_or order 0 0 == get_endianness)), f4),
        rw (h.split, e3, e4)
            (simp (
              bind-read {n = 4} {bs = hblk_magic} refl,
              mem_eq_refl 4 hblk_magic,
              bind-read three,
              mem_eq_refl 3 version,
              bind-read one,
              bind-ret (read_value 4) _ (size ++ f4) (bind-read size_4 _ f4),
            )),
      )
    ]
  ]

  -- With any version of three bytes, the loading of versions 0.1 and 0.2 refuses exactly the files
  -- that do not start with the magic bytes, that version, a byte order and a number of blocks.
  pub blockchain_deserialize-refuses :
      ⦃ll : Llist⦄ (file : List ℕ)
      → (blockchain_deserialize version (some file) ≡ ret none) ↔ (¬ IsHeader version file)
  unfolding blockchain_deserialize
  blockchain_deserialize-refuses file = (
    λ refused h.
        let (((size, e), rest), read) = header_read file h in
        elim (Run-cases (blocks size e rest)) [
          | inl undefined ↦ cc (rw (blockchain_deserialize, read, undefined) at refused)
          | inr (list, done) ↦ cc (rw (blockchain_deserialize, read, done) at refused)
        ],
    λ not_header. elim (IsHeader-outcome file) [
      | inl failed ↦ rw (blockchain_deserialize, failed)
      | inr h ↦ absurd (not_header h)
    ],
  )
