-- ===== src/Cli/Tools/Hex.antt =====
-- An address that the client prints is one that it reads.
use holbertonschool_blockcha.Prelude.{
  ℕ, Bool, inl, inr, zero, suc, ◌+◌, ◌*◌, ◌/◌, ◌%◌, ◌<◌, ◌≤◌, ◌⊎◌, ◌≡◌, refl, leb, le→ltb, true,
  false, ◌&&◌, some, List, [], ◌∷◌, ◌++◌, sym, ap, ◌∙◌, length, arith,
}
use holbertonschool_blockcha.Prelude.Bytes.{IsArray}
use holbertonschool_blockcha.Cli.Tools.{
  check_string, digit_value, scan_pub, string_to_pub, hex_char, bytes_to_hex,
}

&&-false : (b : Bool) → (b && false) ≡ false
&&-false true = refl
&&-false false = refl

hex_cases : (n : ℕ) → ((hex_char n ≡ 48 + n) × (n < 10)) ⊎ ((hex_char n ≡ 87 + n) × (10 ≤ n))
unfolding hex_char
hex_cases n = ground arith

-- A character that `check_string` leaves as it is.
keep_digit :
    (c : ℕ) (s : List ℕ)
    → 48 ≤ c
    → c ≤ 57
    → check_string s ≡ some s
    → check_string (c ∷ s) ≡ some (c ∷ s)
unfolding check_string
keep_digit c s h1 h2 e =
    let low : leb 48 c ≡ true = ground arith in
    let high : leb c 57 ≡ true = ground arith in rw (check_string, e, low, high)

keep_letter :
    (c : ℕ) (s : List ℕ)
    → 97 ≤ c
    → c ≤ 102
    → check_string s ≡ some s
    → check_string (c ∷ s) ≡ some (c ∷ s)
unfolding check_string
keep_letter c s h1 h2 e =
    let past : leb c 57 ≡ false = ground arith in
    let low : leb 97 c ≡ true = ground arith in
    let high : leb c 102 ≡ true = ground arith in simp (check_string, e, past, low, high, &&-false)

keeps :
    (n : ℕ)
    → n < 16
    → (s : List ℕ) → check_string s ≡ some s
    → check_string (hex_char n ∷ s) ≡ some (hex_char n ∷ s)
keeps n h s e = elim (hex_cases n) [
  | inl (is, small) ↦ rw is (keep_digit (48 + n) s (omega arith) (omega arith) e)
  | inr (is, large) ↦ rw is (keep_letter (87 + n) s (omega arith) (omega arith) e)
]

value : (n : ℕ) → n < 16 → digit_value (hex_char n) ≡ n
unfolding digit_value hex_char
value n h = ground arith

check_hex : (bs : List ℕ) → check_string (bytes_to_hex bs) ≡ some (bytes_to_hex bs)
unfolding check_string bytes_to_hex
check_hex [] = refl
check_hex (b ∷ bs) =
    keeps (b / 16 % 16) (omega arith) _ (keeps (b % 16) (omega arith) _ (check_hex bs))

length-hex : (bs : List ℕ) → length (bytes_to_hex bs) ≡ length bs * 2
unfolding bytes_to_hex
length-hex [] = refl
length-hex (b ∷ bs) = omega (arith, length-hex bs)

scan_hex : (n : ℕ) (bs : List ℕ) → IsArray n bs → scan_pub n (bytes_to_hex bs) ≡ bs
unfolding scan_pub bytes_to_hex
scan_hex zero [] h = refl
scan_hex zero (b ∷ bs) (hs, h) = absurd (omega arith)
scan_hex (suc n) [] h = refl
scan_hex (suc n) (b ∷ bs) ((hb, hs), h) =
    let whole : b / 16 % 16 * 16 + b % 16 ≡ b = omega (arith, hb) in
    rw (
      value (b / 16 % 16) (omega arith),
      value (b % 16) (omega arith),
      whole,
      scan_hex n bs (hs, omega arith),
    )

-- A public key of 65 bytes is read back from its hex string.
pub string_to_pub-bytes_to_hex :
    (pubkey : List ℕ) → IsArray 65 pubkey → string_to_pub (some (bytes_to_hex pubkey)) ≡ some pubkey
unfolding string_to_pub
string_to_pub-bytes_to_hex pubkey h = rw (
  le→ltb (length (bytes_to_hex pubkey)) 130 (omega (arith, length-hex pubkey, h.1)),
  check_hex pubkey,
  scan_hex 65 pubkey h,
)

-- Arrays of the same length that begin a text in hex are known from it.
pub hex_end :
    (n : ℕ) (xs ys r r' : List ℕ)
    → IsArray n xs
    → IsArray n ys
    → bytes_to_hex xs ++ r ≡ bytes_to_hex ys ++ r'
    → (xs ≡ ys) × (r ≡ r')
unfolding bytes_to_hex
hex_end zero [] [] r r' hx hy same = (refl, same)
hex_end zero [] (y ∷ ys) r r' hx (_, hy) same = absurd (omega arith)
hex_end zero (x ∷ xs) ys r r' (_, hx) hy same = absurd (omega arith)
hex_end (suc n) [] ys r r' (_, hx) hy same = absurd (omega arith)
hex_end (suc n) (x ∷ xs) [] r r' hx (_, hy) same = absurd (omega arith)
hex_end (suc n) (x ∷ xs) (y ∷ ys) r r' ((x1, xr), hx) ((y1, yr), hy) same =
    let high : hex_char (x / 16 % 16) ≡ hex_char (y / 16 % 16) = cc same in
    let low : hex_char (x % 16) ≡ hex_char (y % 16) = cc same in
    let high' =
      sym (value (x / 16 % 16) (omega arith))
      ∙ ap digit_value high
      ∙ value (y / 16 % 16) (omega arith) in
    let low' =
      sym (value (x % 16) (omega arith)) ∙ ap digit_value low ∙ value (y % 16) (omega arith) in
    let (more, rest) = hex_end n xs ys r r' (xr, omega arith) (yr, omega arith) (cc same) in
    let head : x ≡ y = omega (arith, high', low', x1, y1) in (cc (head, more), rest)
