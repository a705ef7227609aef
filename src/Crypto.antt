-- ===== src/Crypto.antt =====
-- crypto/: thin functions over OpenSSL. OpenSSL is a parameter, with what its manual says of it.
pub mod Digest
pub mod Files
use holbertonschool_blockcha.Prelude.{
  Run, ret, ub, ltb, ℕ, ◌-◌, ◌≤◌, ◌%◌, ◌≡◌, ◌==◌, if◌then◌else◌, ◌||◌, not, Bool, true, false,
  Option, none, some, List, ◌++◌, length, take, replicate, get_or,
}
use holbertonschool_blockcha.Prelude.Bytes.{IsArray}
use holbertonschool_blockcha.Prelude.Maybe.{◌>>=◌}

abbrev pub sha256_digest_length : ℕ
sha256_digest_length = 32

abbrev pub ec_pub_len : ℕ
ec_pub_len = 65

abbrev pub sig_max_len : ℕ
sig_max_len = 72

-- `none` is NULL, or an answer other than the one that stands for success.
pub record Openssl : Type 1 where
  pub EcKey : Type 0
  pub Group : Type 0
  pub Point : Type 0
  pub Sha256Ctx : Type 0
  pub sha256_init : Option Sha256Ctx
  pub sha256_update : Sha256Ctx → List ℕ → Option Sha256Ctx
  pub sha256_final : Sha256Ctx → Option (List ℕ)
  pub group_new : Option Group
  pub key_new : Option EcKey
  pub key_new_by_curve : Option EcKey
  pub key_set_group : EcKey → Group → Option EcKey
  -- the first argument is the randomness that the call draws
  pub key_generate : ℕ → EcKey → Option EcKey
  pub key_check : EcKey → Bool
  pub key_group : EcKey → Option Group
  pub key_public : EcKey → Option Point
  pub key_set_public : EcKey → Point → Option EcKey
  pub point_new : Group → Option Point
  -- the octets that `EC_POINT_point2oct` wrote, none on failure
  pub point_to_oct : Group → Point → List ℕ
  pub point_of_oct : Group → Point → List ℕ → Option Point
  pub ecdsa_sign : EcKey → List ℕ → Option (List ℕ)
  pub ecdsa_verify : EcKey → List ℕ → List ℕ → Bool
  -- whether `PEM_write_ECPrivateKey` and `PEM_write_EC_PUBKEY` succeed, and what they wrote
  pub pem_write_private : EcKey → Bool × List ℕ
  pub pem_write_public : EcKey → Bool × List ℕ
  -- the first argument is the key that the pointer points to before
  pub pem_read_public : Option EcKey → List ℕ → Option EcKey
  pub pem_read_private : Option EcKey → List ℕ → Option EcKey
  pub sha256_final_array : (c : Sha256Ctx) (d : List ℕ) → sha256_final c ≡ some d → IsArray 32 d
  pub point_to_oct_max : (g : Group) (p : Point) → length (point_to_oct g p) ≤ 65
  -- what was written is read again; the private key is the whole pair
  pub pem_read_public_written :
      (k : EcKey) (t : List ℕ)
      → pem_write_public k ≡ (true, t)
      → (k' : EcKey) × (pem_read_public none t ≡ some k')
  pub pem_read_private_written :
      (k : EcKey) (o : Option EcKey) (t : List ℕ)
      → pem_write_private k ≡ (true, t)
      → pem_read_private o t ≡ some k
  pub ecdsa_sign_max : (k : EcKey) (m s : List ℕ) → ecdsa_sign k m ≡ some s → length s ≤ 72

-- struct sign_s
pub record Sign : Type 0 where
  pub sig : List ℕ
  pub len : ℕ

module _ ⦃ssl : Openssl⦄ where
  unfoldable pub sha256 : List ℕ → Option (List ℕ)
  sha256 s = do
    context ← ssl.sha256_init
    updated ← ssl.sha256_update context s
    ssl.sha256_final updated

  -- `entropy` is what `EC_KEY_generate_key` draws.
  unfoldable pub ec_create : ℕ → Option ssl.EcKey
  ec_create entropy = do
    key ← ssl.key_new
    group ← ssl.group_new
    on_curve ← ssl.key_set_group key group
    generated ← ssl.key_generate entropy on_curve
    if ssl.key_check generated then some generated else none

  unfoldable pub ec_to_pub : Option ssl.EcKey → Option (List ℕ)
  ec_to_pub key = do
    key' ← key
    group ← ssl.key_group key'
    point ← ssl.key_public key'
    let octets = ssl.point_to_oct group point
    if not (length octets == ec_pub_len) || get_or octets 0 0 == 0 then none else some octets

  unfoldable pub ec_from_pub : List ℕ → Option ssl.EcKey
  ec_from_pub pubkey = do
    key ← ssl.key_new_by_curve
    group ← ssl.key_group key
    point ← ssl.point_new group
    assigned ← ssl.point_of_oct group point pubkey
    ssl.key_set_public key assigned

  -- What is left in `sig`, and whether the result is not NULL. The buffer is cleared first.
  unfoldable pub ec_sign : Option ssl.EcKey → List ℕ → Sign → Bool × Sign
  ec_sign none msg sig = (false, sig)
  ec_sign (some key) msg sig = elim (ssl.ecdsa_sign key msg) [
    | none ↦ (false, record { sig = replicate sig_max_len 0; len = sig.len })
    | some s ↦
        (true, record { sig = s ++ replicate (sig_max_len - length s) 0; len = length s % 256 })
  ]

  -- A length beyond the array, which a loaded file can have, reads past its end.
  unfoldable pub ec_verify : Option ssl.EcKey → List ℕ → Sign → Run Bool
  ec_verify none msg sig = ret false
  ec_verify (some key) msg sig =
      if not (ssl.key_check key)
      then ret false
      else if ltb (length sig.sig) sig.len
      then ub
      else ret (ssl.ecdsa_verify key msg (take sig.len sig.sig))
