-- ===== src/Prelude/Text.antt =====
-- What `printf` of the C library writes, as the bytes that are written.
pub mod Legible
use Prim.Native.Char.{code}
use Prim.Native.String.{String}
use Prim.Native.Nat.{ℕ, zero, suc, ◌+◌, ◌/◌, ◌%◌}
use mathlib.Core.Path.{◌≡◌, refl}
use mathlib.Core.List.{List, [], ◌∷◌, ◌++◌}
use holbertonschool_blockcha.Prelude.Tests.{ltb, ◌==◌, if◌then◌else◌}
use holbertonschool_blockcha.Prelude.Runs.{Run, ret, ub, ◌>>=◌}

-- The bytes of a text in ASCII.
abbrev pub codes : String → List ℕ
codes String.[] = []
codes (String.◌∷◌ c s) = code c ∷ codes s

-- The digits of a number, at most as many as the first argument.
unfoldable pub digits : ℕ → ℕ → List ℕ
digits zero n = []
digits (suc most) n =
    let front = digits most (n / 10) in
    if ltb n 10 then (b'0' + n) ∷ [] else (front ++ (b'0' + n % 10) ∷ [])

-- `%u` and `%lu`: a number of 64 bits has at most 20 digits.
unfoldable pub decimal : ℕ → List ℕ
decimal n = digits 20 n

-- What is printed in one go: characters, or a number in decimal.
pub data Piece : Type 0 where
  chars : List ℕ → Piece
  unsigned : ℕ → Piece

abbrev pub say : String → Piece
say s = chars (codes s)

unfoldable pub printed : List Piece → List ℕ
printed [] = []
printed (chars cs ∷ pieces) = cs ++ printed pieces
printed (unsigned n ∷ pieces) = decimal n ++ printed pieces

-- `%s` of an array: the characters in front of the first NUL. Without one it is read past its end.
unfoldable pub c_string : List ℕ → Run (List ℕ)
c_string [] = ub
c_string (c ∷ s) = if c == 0 then ret [] else (c_string s >>= λ more. ret (c ∷ more))

-- One digit of `%02x`.
abbrev hex_digit : ℕ → ℕ
hex_digit n = if ltb n 10 then b'0' + n else 87 + n

-- `_print_hex_buffer`, with the length in front.
unfoldable pub print_hex_buffer : ℕ → List ℕ → Run (List ℕ)
print_hex_buffer zero buf = ret []
print_hex_buffer (suc len) [] = ub
print_hex_buffer (suc len) (b ∷ buf) =
    print_hex_buffer len buf >>= λ more. ret (hex_digit (b / 16) ∷ hex_digit (b % 16) ∷ more)

-- What was printed so far with more behind it.
unfoldable pub put : Run (List ℕ) → Run (List Piece) → Run (List ℕ)
put out pieces = out >>= λ before. pieces >>= λ more. ret (before ++ printed more)

numbers :
    printed (say "a: " ∷ unsigned 0 ∷ say ",\n" ∷ unsigned 4294967295 ∷ [])
    ≡ codes "a: 0,\n4294967295"
unfolding printed decimal digits
numbers = refl
