-- ===== src/Transaction/Sign/Signed.antt =====
-- Signing the inputs that were chosen, by their owner.
use mathlib.Core.Path.{subst}
use holbertonschool_blockcha.Prelude.{
  ℕ, suc, ◌≡◌, ◌≢◌, refl, sym, ap, ◌∙◌, ne→==_false, Bool, true, false, some, List, [], ◌∷◌, length,
  find?, Bool-cases, inl, inr, ret, arith,
}
use holbertonschool_blockcha.Prelude.Bytes.{mem_eq, mem_eq_refl, mem_eq→eq_all}
use holbertonschool_blockcha.Llist.{Llist, run_each}
use holbertonschool_blockcha.Llist.Walk.{nodes_at_lem}
use holbertonschool_blockcha.Crypto.{Openssl, Sign, ec_to_pub, ec_from_pub, ec_sign, ec_verify}
use holbertonschool_blockcha.Transaction.Types.{TxIn, UnspentTxOut}
use holbertonschool_blockcha.Transaction.Outputs.{tx_in_create}
use holbertonschool_blockcha.Transaction.Listed.{Elem, find?-Elem}
use holbertonschool_blockcha.Transaction.Hash.Total.{references}
use holbertonschool_blockcha.Transaction.Select.Chosen.{Picked, nothing, pick}
use holbertonschool_blockcha.Transaction.Valid.{in_out_match}
use holbertonschool_blockcha.Transaction.Valid.Meaning.{SpendAll, done, spend}
use holbertonschool_blockcha.Transaction.Sign.{
  refers_to, sign_as_owner, tx_in_sign, sign_transaction_inputs,
}

Elem-nonempty : {A : Type 0} {x : A} (l : List A) → Elem x l → length l ≢ 0
Elem-nonempty [] m h = elim m [ ]
Elem-nonempty (y ∷ l) m h = absurd (omega arith)

module _ ⦃ssl : Openssl⦄ where
  -- A key whose signatures its public key verifies, and a list in which no two outputs have one hash.
  pub record IsPayer (key : ssl.EcKey) (pubkey : List ℕ) (us : List UnspentTxOut) : Type 0 where
    pub known : ec_to_pub (some key) ≡ some pubkey
    pub size : length pubkey ≡ 65
    pub sizes : (u : UnspentTxOut) → Elem u us → length u.out.pubkey ≡ 65
    pub signs :
        (msg : List ℕ) (old : Sign)
        → (s : Sign) × (ec_sign (some key) msg old ≡ (true, s))
          × (ec_verify (ec_from_pub pubkey) msg s ≡ ret true)
    pub distinct :
        (u v : UnspentTxOut)
        → Elem u us
        → Elem v us
        → mem_eq 32 u.out.hash v.out.hash ≡ true
        → u ≡ v

abbrev with_sign : UnspentTxOut → Sign → TxIn
with_sign u s = record (tx_in_create u) { sig = s }

matches_own : (u : UnspentTxOut) (s : Sign) → in_out_match (with_sign u s) u ≡ true
unfolding in_out_match tx_in_create
matches_own u s =
    rw (mem_eq_refl 32 u.out.hash, mem_eq_refl 32 u.tx_id, mem_eq_refl 32 u.block_hash)

matches-hash :
    (u v : UnspentTxOut) (s : Sign)
    → in_out_match (with_sign u s) v ≡ true
    → mem_eq 32 u.out.hash v.out.hash ≡ true
unfolding in_out_match tx_in_create
matches-hash u v s h = elim (Bool-cases (mem_eq 32 u.out.hash v.out.hash)) [
  | inl same ↦ same
  | inr other ↦ cc (rw other at h)
]

module _ ⦃ll : Llist⦄ ⦃ssl : Openssl⦄ (key : ssl.EcKey) (pubkey : List ℕ) (us : List UnspentTxOut)
    (p : IsPayer key pubkey us) where
  owner :
      (u : UnspentTxOut) → Elem u us → mem_eq 65 u.out.pubkey pubkey ≡ true → u.out.pubkey ≡ pubkey
  owner u m own =
      mem_eq→eq_all 65 u.out.pubkey pubkey (omega (arith, p.sizes u m)) (omega (arith, p.size)) own

  refers_found : (u : UnspentTxOut) → Elem u us → find? (refers_to (tx_in_create u)) us ≡ some u
  unfolding refers_to tx_in_create
  refers_found u m =
      let (v, found, at, good) =
        find?-Elem (refers_to (tx_in_create u)) u us m (mem_eq_refl 32 u.out.hash) in
      found ∙ ap some (sym (p.distinct u v m at good))

  match_found :
      (u : UnspentTxOut) (s : Sign) → Elem u us → find? (in_out_match (with_sign u s)) us ≡ some u
  match_found u s m =
      let (v, found, at, good) =
        find?-Elem (in_out_match (with_sign u s)) u us m (matches_own u s) in
      found ∙ ap some (sym (p.distinct u v m at (matches-hash u v s good)))

  owner_signs :
      (id : List ℕ) (u : UnspentTxOut) (s : Sign)
      → u.out.pubkey ≡ pubkey
      → ec_sign (some key) id (tx_in_create u).sig ≡ (true, s)
      → sign_as_owner (tx_in_create u) id (some key) u ≡ (true, with_sign u s)
  unfolding sign_as_owner
  owner_signs id u s own signed = simp (sign_as_owner, p.known, own, mem_eq_refl 65 pubkey, signed)

  tx_in_sign-owner :
      (id : List ℕ) (u : UnspentTxOut) (s : Sign)
      → Elem u us
      → u.out.pubkey ≡ pubkey
      → ec_sign (some key) id (tx_in_create u).sig ≡ (true, s)
      → tx_in_sign (tx_in_create u) id (some key) (some us) ≡ ret (true, with_sign u s)
  unfolding tx_in_sign
  tx_in_sign-owner id u s m own signed = simp (
    tx_in_sign,
    ll.size_eq,
    ne→==_false (length us) 0 (Elem-nonempty us m),
    nodes_at_lem,
    refers_found u m,
    owner_signs id u s own signed,
  )

  sign_step :
      (id : List ℕ) (u : UnspentTxOut) (s : Sign) (met : Bool)
      → Elem u us
      → u.out.pubkey ≡ pubkey
      → ec_sign (some key) id (tx_in_create u).sig ≡ (true, s)
      → sign_transaction_inputs id (some key) (some us) (tx_in_create u) met
        ≡ (0, with_sign u s, met)
  unfolding sign_transaction_inputs
  sign_step id u s met m own signed =
      rw (sign_transaction_inputs, tx_in_sign-owner id u s m own signed)

  -- The owner's key signs each chosen input, and each then spends the output that it was made from.
  pub sign_all :
      (id : List ℕ) {is : List TxIn} {total : ℕ}
      → Picked us pubkey is total
      → (is' : List TxIn) × (run_each (sign_transaction_inputs id (some key) (some us)) is false
          ≡ (0, is', false))
        × SpendAll us id is' total
        × (references is' ≡ references is)
        × (length is' ≡ length is)
  unfolding run_each references tx_in_create
  sign_all id (nothing e) = ([], refl, done e, refl, refl)
  sign_all id (pick {is = is} u more m own rest e) =
      let pub_eq = owner u m own in
      let (s, signed, verified) = p.signs id (tx_in_create u).sig in
      let (is', run, spent, refs, same) = sign_all id rest in
      (
        with_sign u s ∷ is',
        rw (run_each, sign_step id u s false m pub_eq signed, run),
        spend u more
            (record {
              found = match_found u s m;
              signed = subst (λ k. ec_verify (ec_from_pub k) id s ≡ ret true) (sym pub_eq) verified;
            })
            spent e,
        rw refs,
        ap suc same,
      )
