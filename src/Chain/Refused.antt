-- ===== src/Chain/Refused.antt =====
-- Which files `blockchain_deserialize` of blockchain/v0.3/ refuses.
use holbertonschool_blockcha.Prelude.{
  ℕ, ◌<◌, ◌≤◌, ◌≡◌, ◌≢◌, ◌↔◌, inl, inr, refl, sym, ◌∙◌, true, false, Option, none, some, List, [],
  length, take, drop, ret, ub, arith, Bool-cases,
}
use holbertonschool_blockcha.Prelude.Bytes.{mem_eq, mem_eq_refl, mem_eq→eq_all}
use holbertonschool_blockcha.Prelude.Host.{Host}
use holbertonschool_blockcha.Llist.{Llist}
use holbertonschool_blockcha.Block.Types.{Blockchain}
use holbertonschool_blockcha.Chain.Serialize.{BlockHeader, hblk_magic, hblk_version}
use holbertonschool_blockcha.Chain.Reader.{
  fread, fread_loop, take-drop, Run-cases, bind-ret, bind-ub, short, enough, fread_cases,
}
use holbertonschool_blockcha.Chain.Deserialize.{
  check_header, fread_value, read_header, read_block, read_unspent, read_blockchain,
  blockchain_deserialize,
}

-- The file starts with the magic bytes and the version.
abbrev pub IsSigned : List ℕ → Type 0
IsSigned file = (take 4 file ≡ hblk_magic) × (take 3 (drop 4 file) ≡ hblk_version)

module _ ⦃host : Host⦄ where
  data HeaderCase (file : List ℕ) : Type 0 where
    cut : length file < 16 → read_header file ≡ ub → HeaderCase file
    whole :
        16 ≤ length file
        → (header : BlockHeader) (rest : List ℕ) → read_header file ≡ ret (header, rest)
        → header.magic ≡ take 4 file
        → header.version ≡ take 3 (drop 4 file)
        → HeaderCase file

  header_cases : (file : List ℕ) → HeaderCase file
  unfolding read_header fread_value
  header_cases file = elim (fread_cases 4 file) [
    | short l e ↦ cut (omega arith) (bind-ub (fread 4) _ file e)
    | enough e1 l1 ↦
        let f1 = drop 4 file in
        elim (fread_cases 3 f1) [
          | short l e ↦
              cut (omega arith) (simp (bind-ret (fread 4) _ file e1, bind-ub (fread 3) _ f1 e))
          | enough e2 l2 ↦
              let f2 = drop 3 f1 in
              elim (fread_cases 1 f2) [
                | short l e ↦ cut (omega arith) (
                    simp (
                      bind-ret (fread 4) _ file e1,
                      bind-ret (fread 3) _ f1 e2,
                      bind-ub (fread 1) _ f2 e,
                    ))
                | enough e3 l3 ↦
                    let f3 = drop 1 f2 in
                    elim (fread_cases 4 f3) [
                      | short l e ↦ cut (omega arith) (
                          simp (
                            bind-ret (fread 4) _ file e1,
                            bind-ret (fread 3) _ f1 e2,
                            bind-ret (fread 1) _ f2 e3,
                            bind-ub (fread_value 4) _ f3 (bind-ub (fread 4) _ f3 e),
                          ))
                      | enough e4 l4 ↦
                          let f4 = drop 4 f3 in
                          elim (fread_cases 4 f4) [
                            | short l e ↦ cut (omega arith) (
                                simp (
                                  bind-ret (fread 4) _ file e1,
                                  bind-ret (fread 3) _ f1 e2,
                                  bind-ret (fread 1) _ f2 e3,
                                  bind-ret (fread_value 4) _ f3 (bind-ret (fread 4) _ f3 e4),
                                  bind-ub (fread_value 4) _ f4 (bind-ub (fread 4) _ f4 e),
                                ))
                            | enough e5 l5 ↦
                                whole (omega arith) _ _
                                  (bind-ret (fread 4) _ file e1
                                    ∙ bind-ret (fread 3) _ f1 e2
                                    ∙ bind-ret (fread 1) _ f2 e3
                                    ∙ bind-ret (fread_value 4) _ f3 (bind-ret (fread 4) _ f3 e4)
                                    ∙ bind-ret (fread_value 4) _ f4 (bind-ret (fread 4) _ f4 e5))
                                  refl refl
                          ]
                    ]
              ]
        ]
  ]

  check_header-IsSigned :
      (file : List ℕ) (header : BlockHeader)
      → 16 ≤ length file
      → header.magic ≡ take 4 file
      → header.version ≡ take 3 (drop 4 file)
      → (check_header header ≡ true) ↔ IsSigned file
  unfolding check_header hblk_magic hblk_version
  check_header-IsSigned file header long m v =
      let (_, four, more) = take-drop 4 file (omega arith) in
      let (_, three, _) = take-drop 3 (drop 4 file) (omega arith) in
      (
        λ ok. elim (Bool-cases (mem_eq 4 header.magic hblk_magic)) [
          | inr other ↦ cc (rw (check_header, other) at ok)
          | inl magic ↦ elim (Bool-cases (mem_eq 3 header.version hblk_version)) [
            | inr other ↦ cc (rw (check_header, magic, other) at ok)
            | inl version ↦ (
              sym m
                  ∙ mem_eq→eq_all 4 header.magic hblk_magic (rw m (omega arith)) (omega arith)
                      magic,
              sym v
                  ∙ mem_eq→eq_all 3 header.version hblk_version (rw v (omega arith)) (omega arith)
                      version,
            )
          ]
        ],
        λ (magic, version). rw (
          check_header,
          m,
          magic,
          v,
          version,
          mem_eq_refl 4 hblk_magic,
          mem_eq_refl 3 hblk_version,
        ),
      )

module _ ⦃host : Host⦄ ⦃ll : Llist⦄ where
  deserialize_undefined :
      (file : List ℕ) → read_blockchain file ≡ ub → blockchain_deserialize (some file) ≡ ub
  unfolding blockchain_deserialize
  deserialize_undefined file e = rw (blockchain_deserialize, e)

  deserialize_returns :
      (file rest : List ℕ) (c : Option Blockchain)
      → read_blockchain file ≡ ret (c, rest)
      → blockchain_deserialize (some file) ≡ ret c
  unfolding blockchain_deserialize
  deserialize_returns file rest c e = rw (blockchain_deserialize, e)

  unsigned_refused :
      (file rest : List ℕ) (header : BlockHeader)
      → read_header file ≡ ret (header, rest)
      → check_header header ≡ false
      → blockchain_deserialize (some file) ≡ ret none
  unfolding read_blockchain
  unsigned_refused file rest header e other =
      deserialize_returns file rest none (bind-ret read_header _ file e ∙ rw other refl)

  signed_accepted :
      (file rest : List ℕ) (header : BlockHeader)
      → read_header file ≡ ret (header, rest)
      → check_header header ≡ true
      → blockchain_deserialize (some file) ≢ ret none
  unfolding read_blockchain
  signed_accepted file rest header e ok refused =
      elim (Run-cases (fread_loop read_block ll.add_rear header.blocks [] rest)) [
        | inl u ↦
            let undefined = deserialize_undefined file (
              bind-ret read_header _ file e
              ∙ rw ok (bind-ub (fread_loop read_block ll.add_rear header.blocks []) _ rest u)) in
            cc
        | inr ((chain, r1), e1) ↦
            elim (Run-cases (fread_loop read_unspent ll.add_rear header.unspent [] r1)) [
              | inl u ↦
                  let undefined = deserialize_undefined file (
                    bind-ret read_header _ file e
                    ∙ rw ok (
                        bind-ret (fread_loop read_block ll.add_rear header.blocks []) _ rest e1
                        ∙ bind-ub (fread_loop read_unspent ll.add_rear header.unspent []) _ r1
                            u)) in
                  cc
              | inr ((unspent, r2), e2) ↦
                  let loaded =
                    deserialize_returns file r2 (some (record { chain = chain; unspent = unspent }))
                      (bind-ret read_header _ file e
                        ∙ rw ok (
                            bind-ret (fread_loop read_block ll.add_rear header.blocks []) _ rest e1
                            ∙ bind-ret (fread_loop read_unspent ll.add_rear header.unspent []) _ r1
                                e2)) in
                  cc
            ]
      ]

  -- The loading of version 0.3 refuses exactly the files of at least 16 bytes that do not start
  -- with the magic bytes and the version.
  pub deserialize-refuses :
      (file : List ℕ)
      → (blockchain_deserialize (some file) ≡ ret none) ↔ ((16 ≤ length file) × (¬ IsSigned file))
  unfolding read_blockchain
  deserialize-refuses file = elim (header_cases file) [
    | cut short_file e ↦
        let undefined = deserialize_undefined file (bind-ub read_header _ file e) in
        (λ refused. cc, λ (long, other). absurd (omega arith))
    | whole long header rest e m v ↦
        let (signed, checked) = check_header-IsSigned file header long m v in
        (
          λ refused. (long, λ is. signed_accepted file rest header e (checked is) refused),
          λ (_, other). elim (Bool-cases (check_header header)) [
            | inl ok ↦ absurd (other (signed ok))
            | inr bad ↦ unsigned_refused file rest header e bad
          ],
        )
  ]
