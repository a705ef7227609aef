-- ===== src/Prelude/Text/Legible.antt =====
-- Printed numbers can be read back.
use Prim.Native.Nat.{ℕ, zero, suc, ◌+◌, ◌-◌, ◌*◌, ◌/◌, ◌%◌, ◌^◌, ◌≤◌, ◌<◌}
use mathlib.Core.Path.{◌≡◌, refl, sym, ap, ◌∙◌}
use mathlib.Core.Logic.{inl, inr}
use mathlib.Core.List.{List, [], ◌∷◌, ◌++◌}
use native.Mathlib.Omega.{arith}
use holbertonschool_blockcha.Prelude.Tests.{ltb, Bool-cases, ltb→lt}
use holbertonschool_blockcha.Prelude.Lists.{All}
use holbertonschool_blockcha.Prelude.Text.{digits, decimal}

-- The number that the digits stand for, behind those that were read before.
abbrev read_digits : ℕ → List ℕ → ℕ
read_digits n [] = n
read_digits n (c ∷ s) = read_digits (n * 10 + (c - b'0')) s

abbrev IsDigit : ℕ → Type 0
IsDigit c = (48 ≤ c) × (c ≤ 57)

read-append : (n c : ℕ) (s : List ℕ) → read_digits n (s ++ c ∷ []) ≡ read_digits n s * 10 + (c - 48)
read-append n c [] = refl
read-append n c (d ∷ s) = read-append (n * 10 + (d - 48)) c s

snoc-IsDigit : (c : ℕ) (s : List ℕ) → All IsDigit s → IsDigit c → All IsDigit (s ++ c ∷ [])
snoc-IsDigit c [] h hc = (hc, tt)
snoc-IsDigit c (d ∷ s) (hd, hs) hc = (hd, snoc-IsDigit c s hs hc)

digits-IsDigit : (most n : ℕ) → All IsDigit (digits most n)
unfolding digits
digits-IsDigit zero n = tt
digits-IsDigit (suc most) n = elim (Bool-cases (ltb n 10)) [
  | inl small ↦ rw (digits, small) ((omega arith, omega (arith, ltb→lt n 10 small)), tt)
  | inr large ↦
      rw (digits, large)
        (snoc-IsDigit (48 + n % 10) _ (digits-IsDigit most (n / 10)) (omega arith, omega arith))
]

read_digits-digits : (most n : ℕ) → n < 10 ^ most → read_digits 0 (digits most n) ≡ n
unfolding digits
read_digits-digits zero n h = omega arith
read_digits-digits (suc most) n h = elim (Bool-cases (ltb n 10)) [
  | inl small ↦ rw (digits, small) (omega arith)
  | inr large ↦
      rw
        (
          digits,
          large,
          read-append 0 (48 + n % 10) (digits most (n / 10)),
          read_digits-digits most (n / 10) (grind arith),
        )
        (omega arith)
]

-- Two texts agree up to the first character that is not a digit.
digits_end :
    (e : ℕ) (xs ys r r' : List ℕ)
    → ¬ IsDigit e
    → All IsDigit xs
    → All IsDigit ys
    → xs ++ e ∷ r ≡ ys ++ e ∷ r'
    → (xs ≡ ys) × (r ≡ r')
digits_end e [] [] r r' h hx hy same = (refl, cc same)
digits_end e [] (y ∷ ys) r r' h hx ((h1, h2), hy) same =
    let head : e ≡ y = cc same in absurd (h (omega (arith, head), omega (arith, head)))
digits_end e (x ∷ xs) [] r r' h ((h1, h2), hx) hy same =
    let head : x ≡ e = cc same in absurd (h (omega (arith, head), omega (arith, head)))
digits_end e (x ∷ xs) (y ∷ ys) r r' h (_, hx) (_, hy) same =
    let head : x ≡ y = cc same in
    let (more, rest) = digits_end e xs ys r r' h hx hy (cc same) in (cc (head, more), rest)

-- A number of at most 64 bits is known from its digits.
pub decimal_end :
    (e n m : ℕ) (r r' : List ℕ)
    → ¬ IsDigit e
    → n < 2 ^ 64
    → m < 2 ^ 64
    → decimal n ++ e ∷ r ≡ decimal m ++ e ∷ r'
    → (n ≡ m) × (r ≡ r')
unfolding decimal
decimal_end e n m r r' h hn hm same =
    let (text, rest) =
      digits_end e (digits 20 n) (digits 20 m) r r' h (digits-IsDigit 20 n) (digits-IsDigit 20 m)
        same in
    (
      sym (read_digits-digits 20 n (omega arith))
          ∙ ap (read_digits 0) text
          ∙ read_digits-digits 20 m (omega arith),
      rest,
    )
