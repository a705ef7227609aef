-- ===== src/Crypto/Digest.antt =====
-- The size of what crypto/sha256.c writes.
use holbertonschool_blockcha.Prelude.{ℕ, ◌≡◌, some, List, Option-cases, inl, inr}
use holbertonschool_blockcha.Prelude.Bytes.{IsArray}
use holbertonschool_blockcha.Crypto.{Openssl, sha256}

module _ ⦃ssl : Openssl⦄ where
  pub sha256-IsArray : (s : List ℕ) {d : List ℕ} → sha256 s ≡ some d → IsArray 32 d
  unfolding sha256
  sha256-IsArray s {d} h = elim (Option-cases ssl.sha256_init) [
    | inl none_at ↦ cc (rw none_at at h)
    | inr (c, e) ↦ elim (Option-cases (ssl.sha256_update c s)) [
      | inl none_at ↦ cc (rw (e, none_at) at h)
      | inr (c', e') ↦ ssl.sha256_final_array c' d (rw (e, e') at h)
    ]
  ]
