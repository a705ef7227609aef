-- ===== src/Block/Difficulty/Matches.antt =====
-- `hash_matches_difficulty` against the value of the hash, read as one big-endian number.
use native.Mathlib.Nat.{pow-suc, one-le-pow, div-lt_iff_lt-mul}
use holbertonschool_blockcha.Prelude.{
  ℕ, zero, suc, ◌+◌, ◌-◌, ◌*◌, ◌/◌, ◌%◌, ◌^◌, ◌≤◌, ◌<◌, ◌≡◌, ltb, lt→ltb, le→ltb, ◌==◌,
  if◌then◌else◌, Bool, false, List, [], ◌∷◌, drop, length, All, Run, ret, ub, ◌>>=◌, arith, not,
  Bool-cases, inl, inr, ◌∙◌, ==_iff, suc-eq_zero, drop_cases,
}
use holbertonschool_blockcha.Prelude.Bytes.{IsByte, IsArray}
use holbertonschool_blockcha.Prelude.Powers.{pow-add, pow256, pow2_mono}
use holbertonschool_blockcha.Block.Difficulty.{full_bytes_zero, bits_zero, hash_matches_difficulty}

-- The number whose bytes these are, highest first.
unfoldable pub be_value : List ℕ → ℕ
be_value [] = 0
be_value (b ∷ bs) = b * 256 ^ length bs + be_value bs

-- The test from the first byte on, as a recursion on the bytes.
matches : ℕ → ℕ → List ℕ → Run Bool
unfolding bits_zero
matches zero r hash = bits_zero 0 r hash
matches (suc n) r [] = ub
matches (suc n) r (b ∷ bs) = let rest = matches n r bs in if not (b == 0) then ret false else rest

be_value-lt : (bs : List ℕ) → All IsByte bs → be_value bs < 256 ^ length bs
unfolding be_value
be_value-lt [] h = omega arith
be_value-lt (b ∷ bs) (hb, hs) = rw pow-suc (grind (arith, be_value-lt bs hs))

-- A byte below `k`, in front of a tail below `p`.
head_lo : (b v k p : ℕ) → v < p → b < k → b * p + v < p * k
head_lo b v k p h lo = grind arith

head_hi : (b v k p : ℕ) → k ≤ b → p * k ≤ b * p + v
head_hi b v k p hi = grind arith

head_test : (b v k p : ℕ) → v < p → ltb (b * p + v) (p * k) ≡ ltb b k
head_test b v k p h = ground (arith, head_lo b v k p, head_hi b v k p)

div_test : (b k : ℕ) → 0 < k → ((b / k) == 0) ≡ ltb b k
div_test b k h = ground (arith, div-lt_iff_lt-mul {k = k} {x = b} {y = 1} h)

past_first :
    (b e : ℕ) (bs : List ℕ) → 1 ≤ b → e ≤ 8 * length bs → 2 ^ e ≤ b * 256 ^ length bs + be_value bs
past_first b e bs hb he = omega (
  arith,
  pow2_mono e (8 * length bs) he,
  pow256 (length bs),
  head_hi b (be_value bs) 1 (256 ^ length bs) hb,
)

-- What the test decides, with `e` bits left over: the value is below 2 ^ e.
matches_lem :
    (n r e : ℕ) (bs : List ℕ)
    → All IsByte bs
    → r < 8
    → e + 8 * n + r ≡ 8 * length bs
    → matches n r bs ≡ ret (ltb (be_value bs) (2 ^ e))
unfolding matches be_value bits_zero
matches_lem zero zero e bs hs hr h =
    let whole : e ≡ 8 * length bs = omega arith in
    rw (whole, pow256, lt→ltb _ _ (be_value-lt bs hs))
matches_lem zero (suc r) e [] hs hr h = absurd (omega arith)
matches_lem zero (suc r) e (b ∷ bs) (hb, hs) hr h =
    let split : e ≡ 8 * length bs + (8 - suc r) = omega arith in
    rw (
      split,
      pow-add,
      pow256,
      head_test b (be_value bs) (2 ^ (8 - suc r)) (256 ^ length bs) (be_value-lt bs hs),
      div_test b (2 ^ (8 - suc r)) (one-le-pow (8 - suc r) 2 (omega arith)),
      suc-eq_zero,
    )
matches_lem (suc n) r e [] hs hr h = absurd (omega arith)
matches_lem (suc n) r e (b ∷ bs) (hb, hs) hr h = elim (Bool-cases (b == 0)) [
  | inl null ↦
      let b0 : b ≡ 0 = (==_iff b 0).0 null in
      let front : b * 256 ^ length bs + be_value bs ≡ be_value bs = rw b0 (omega arith) in
      rw (null, front) (matches_lem n r e bs hs hr (omega arith))
  | inr some_bit ↦ rw (some_bit, le→ltb _ (2 ^ e) (past_first b e bs (ground arith) (omega arith)))
]

bits_zero-drop : (i r : ℕ) (hash : List ℕ) → bits_zero i r hash ≡ bits_zero 0 r (drop i hash)
unfolding bits_zero
bits_zero-drop i r hash = elim (drop_cases i hash) [
  | inl (at, nothing, _) ↦ rw (at, nothing)
  | inr (b, at, split) ↦ rw (at, split)
]

-- The loop by index is the recursion on what is left of the array.
full_bytes-matches :
    (n i j r : ℕ) (hash : List ℕ)
    → i + n ≡ j
    → (full_bytes_zero n i hash >>= λ zeros. if not zeros then ret false else bits_zero j r hash)
      ≡ matches n r (drop i hash)
unfolding full_bytes_zero matches
full_bytes-matches zero i j r hash h =
    let same : j ≡ i = omega arith in rw same (bits_zero-drop i r hash)
full_bytes-matches (suc n) i j r hash h = elim (drop_cases i hash) [
  | inl (at, nothing, _) ↦ rw (full_bytes_zero, at, nothing)
  | inr (b, at, split) ↦ elim (Bool-cases (b == 0)) [
    | inl null ↦
        rw (full_bytes_zero, at, split, null) (full_bytes-matches n (suc i) j r hash (omega arith))
    | inr some_bit ↦ rw (full_bytes_zero, at, split, some_bit)
  ]
]

-- Up to 256 bits of difficulty, a hash matches exactly if it is below 2 ^ (256 - difficulty) as a
-- big-endian number, and nothing outside the array is read.
pub hash_matches_difficulty-value :
    (hash : List ℕ) (difficulty : ℕ)
    → IsArray 32 hash
    → difficulty ≤ 256
    → hash_matches_difficulty hash difficulty ≡ ret (ltb (be_value hash) (2 ^ (256 - difficulty)))
unfolding hash_matches_difficulty
hash_matches_difficulty-value hash difficulty (bytes, len) h =
    full_bytes-matches (difficulty / 8) 0 (difficulty / 8) (difficulty % 8) hash (omega arith)
    ∙ (matches_lem (difficulty / 8) (difficulty % 8) (256 - difficulty) hash bytes (omega arith)
        (omega arith))
