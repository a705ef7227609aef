-- ===== src/Examples/Paying.antt =====
-- A payment from two unspent outputs, made and validated.
use holbertonschool_blockcha.Prelude.{
  ℕ, ◌-◌, ◌%◌, ◌≤◌, ◌≡◌, refl, sym, ap, ◌∙◌, true, none, some, List, [], ◌∷◌, ◌++◌, length,
  replicate, false, ltb, le→ltb, length-append, take-append_length, ret, arith,
}
use holbertonschool_blockcha.Prelude.Bytes.{mem_eq, mem_eq_refl, le_bytes, of_le_bytes}
use holbertonschool_blockcha.Crypto.{Sign, ec_to_pub, ec_from_pub, ec_sign, ec_verify}
use holbertonschool_blockcha.Transaction.Types.{UnspentTxOut, Transaction}
use holbertonschool_blockcha.Transaction.Outputs.{tx_in_create}
use holbertonschool_blockcha.Transaction.Listed.{Elem, here, there}
use holbertonschool_blockcha.Transaction.Select.{used_in_pool, select_unspent_in, select_loop}
use holbertonschool_blockcha.Transaction.Sign.Signed.{IsPayer}
use holbertonschool_blockcha.Transaction.Create.{transaction_create}
use holbertonschool_blockcha.Transaction.Create.Accepted.{transaction_create-IsValid}
use holbertonschool_blockcha.Transaction.Valid.{transaction_is_valid}
use holbertonschool_blockcha.Examples.Platform.{
  plain_lists, little_host, toy_ssl, toy_sign, toy_sign_max,
}
use holbertonschool_blockcha.Examples.Payments.{owned, elsewhere, owner_pub, digests}

abbrev purse : List UnspentTxOut
purse = owned ∷ elsewhere ∷ []

purse-sizes : (u : UnspentTxOut) → Elem u purse → length u.out.pubkey ≡ 65
purse-sizes u (here e) = ap (λ x. length x.out.pubkey) e
purse-sizes u (there (here e)) = ap (λ x. length x.out.pubkey) e
purse-sizes u (there (there m)) = elim m [ ]

purse-distinct :
    (u v : UnspentTxOut)
    → Elem u purse
    → Elem v purse
    → mem_eq 32 u.out.hash v.out.hash ≡ true
    → u ≡ v
unfolding mem_eq
purse-distinct u v (here e) (here e') h = e ∙ sym e'
purse-distinct u v (here e) (there (here e')) h = cc (rw (e, e') at h)
purse-distinct u v (there (here e)) (here e') h = cc (rw (e, e') at h)
purse-distinct u v (there (here e)) (there (here e')) h = e ∙ sym e'
purse-distinct u v (there (there m)) m' h = elim m [ ]
purse-distinct u v (here e) (there (there m)) h = elim m [ ]
purse-distinct u v (there (here e)) (there (there m)) h = elim m [ ]

abbrev signature : List ℕ → Sign
signature msg = record {
  sig = toy_sign 5 msg ++ replicate (72 - length (toy_sign 5 msg)) 0;
  len = length (toy_sign 5 msg) % 256;
}

signature-verified :
    (msg : List ℕ) → ec_verify (ec_from_pub owner_pub) msg (signature msg) ≡ ret true
unfolding ec_verify ec_from_pub of_le_bytes
signature-verified msg =
    let m = toy_sign 5 msg in
    let short : length m ≤ 72 = toy_sign_max 5 msg m refl in
    let whole : length m % 256 ≡ length m = omega (arith, short) in
    let inside : ltb (length (m ++ replicate (72 - length m) 0)) (length m) ≡ false =
      le→ltb _ (length m) (omega (arith, length-append m (replicate (72 - length m) 0))) in
    rw (whole, inside, take-append_length (length m) m (replicate (72 - length m) 0) refl)
      (ap ret (mem_eq_refl 16 m))

owner_signs :
    (msg : List ℕ) (old : Sign)
    → (s : Sign) × (ec_sign (some 5) msg old ≡ (true, s))
      × (ec_verify (ec_from_pub owner_pub) msg s ≡ ret true)
unfolding ec_sign
owner_signs msg old = (signature msg, refl, signature-verified msg)

purse-IsPayer : IsPayer 5 owner_pub purse
unfolding ec_to_pub le_bytes
purse-IsPayer = record {
  known = refl;
  size = refl;
  sizes = purse-sizes;
  signs = owner_signs;
  distinct = purse-distinct;
}

purse_enough : 35 ≤ (select_loop owner_pub none 35 purse ([], 0)).1
unfolding select_loop select_unspent_in used_in_pool mem_eq tx_in_create
purse_enough = omega arith

receiver_known : ec_to_pub (some 8) ≡ some (4 ∷ le_bytes 64 8)
unfolding ec_to_pub le_bytes
receiver_known = refl

transaction_create-IsValid_example :
    (t : Transaction) × (transaction_create (some 5) (some 8) 35 (some purse) none ≡ ret (some t))
    × (transaction_is_valid (some t) (some purse) ≡ ret true)
transaction_create-IsValid_example =
    transaction_create-IsValid digests 5 8 owner_pub (4 ∷ le_bytes 64 8) 35 purse none purse-IsPayer
      receiver_known (omega arith) purse_enough
