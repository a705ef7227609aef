-- ===== src/Shape/Parts.antt =====
-- The sizes of what crypto/ and the constructors of blockchain/v0.3/transaction/ return.
use holbertonschool_blockcha.Prelude.{
  ℕ, ◌≤◌, ◌-◌, ◌≡◌, ◌==◌, ◌||◌, not, refl, false, Option, none, some, List, [], ◌∷◌, ◌++◌, All,
  length, length-append, length-replicate, replicate, get_or, Option-cases, inl, inr, arith,
}
use holbertonschool_blockcha.Prelude.Bytes.{IsU32}
use holbertonschool_blockcha.Prelude.Host.{Host, bytes_of}
use holbertonschool_blockcha.Prelude.Maybe.{Always-bind, Always-some, Always-if}
use holbertonschool_blockcha.Crypto.{Openssl, Sign, sha256, ec_to_pub, ec_sign}
use holbertonschool_blockcha.Crypto.Digest.{sha256-IsArray}
use holbertonschool_blockcha.Transaction.Types.{TxOut, UnspentTxOut}
use holbertonschool_blockcha.Shape.{HasInShape}
use holbertonschool_blockcha.Transaction.Outputs.{
  tx_out_create, unspent_tx_out_create, tx_in_create,
}
use holbertonschool_blockcha.Chain.WellFormed.{IsTxOut, IsUnspent}

pub All-append :
    {A : Type 0} (P : A → Type 0) (xs ys : List A) → All P xs → All P ys → All P (xs ++ ys)
All-append P [] ys hx hy = hy
All-append P (x ∷ xs) ys (h, hx) hy = (h, All-append P xs ys hx hy)

pub tx_in_create-HasInShape : (u : UnspentTxOut) → IsUnspent u → HasInShape (tx_in_create u)
unfolding tx_in_create
tx_in_create-HasInShape u h = record {
  arrays = record {
    block_hash = h.block_hash;
    tx_id = h.tx_id;
    tx_out_hash = h.out.hash;
    sig = refl;
  };
  sig_len = omega arith;
}

pub unspent_tx_out_create-IsUnspent :
    (block_hash tx_id : List ℕ) (out : TxOut)
    → length block_hash ≡ 32
    → length tx_id ≡ 32
    → IsTxOut out
    → IsUnspent (unspent_tx_out_create block_hash tx_id out)
unfolding unspent_tx_out_create
unspent_tx_out_create-IsUnspent block_hash tx_id out h k o = record {
  block_hash = h;
  tx_id = k;
  out = o;
}

module _ ⦃ssl : Openssl⦄ where
  pub length-ec_to_pub :
      (key : Option ssl.EcKey) {p : List ℕ} → ec_to_pub key ≡ some p → length p ≡ 65
  unfolding ec_to_pub
  length-ec_to_pub key h =
      Always-some (λ p. length p ≡ 65)
        (Always-bind (λ p. length p ≡ 65) key _
          (λ k _.
            Always-bind (λ p. length p ≡ 65) (ssl.key_group k) _
              (λ group _.
                Always-bind (λ p. length p ≡ 65) (ssl.key_public k) _
                  (λ point _.
                    let octets = ssl.point_to_oct group point in
                    Always-if (λ p. length p ≡ 65)
                      (not (length octets == 65) || get_or octets 0 0 == 0) none (some octets)
                      (λ _. tt) (λ good. size_known (length octets) (get_or octets 0 0) good)))))
        h
    where
      size_known : (n b : ℕ) → (not (n == 65) || b == 0) ≡ false → n ≡ 65
      size_known n b h = ground arith

  -- A signature fills its 72 bytes.
  pub length-ec_sign :
      (key : Option ssl.EcKey) (msg : List ℕ) (s : Sign)
      → length s.sig ≡ 72
      → length (ec_sign key msg s).1.sig ≡ 72
  unfolding ec_sign
  length-ec_sign none msg s h = h
  length-ec_sign (some key) msg s h = elim (Option-cases (ssl.ecdsa_sign key msg)) [
    | inl e ↦ rw (ec_sign, e)
    | inr (sig, e) ↦
        rw (ec_sign, e)
          (omega (
            arith,
            length-append sig (replicate (72 - length sig) 0),
            length-replicate {A = ℕ} (72 - length sig) 0,
            ssl.ecdsa_sign_max key msg sig e,
          ))
  ]

  -- The length of a signature is that of what OpenSSL wrote.
  pub ec_sign-len :
      (key : Option ssl.EcKey) (msg : List ℕ) (s : Sign)
      → s.len ≤ 72
      → (ec_sign key msg s).1.len ≤ 72
  unfolding ec_sign
  ec_sign-len none msg s h = h
  ec_sign-len (some key) msg s h = elim (Option-cases (ssl.ecdsa_sign key msg)) [
    | inl e ↦ rw (ec_sign, e) (omega arith)
    | inr (sig, e) ↦ rw (ec_sign, e) (omega (arith, ssl.ecdsa_sign_max key msg sig e))
  ]

module _ ⦃host : Host⦄ ⦃ssl : Openssl⦄ where
  pub tx_out_create-IsTxOut :
      (amount : ℕ) (pubkey : List ℕ) {out : TxOut}
      → IsU32 amount
      → length pubkey ≡ 65
      → tx_out_create amount pubkey ≡ some out
      → IsTxOut out
  unfolding tx_out_create
  tx_out_create-IsTxOut amount pubkey h k e =
      Always-some IsTxOut
        (Always-if IsTxOut (amount == 0) none _ (λ _. tt)
          (λ _.
            Always-bind IsTxOut (sha256 (bytes_of 4 amount ++ pubkey)) _
              (λ hash e'. record { amount = h; pubkey = k; hash = (sha256-IsArray _ e').1 })))
        e
