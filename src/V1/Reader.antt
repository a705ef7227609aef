-- ===== src/V1/Reader.antt =====
-- Reading from a file with `read`, whose answer is compared with the number of bytes asked for.
use holbertonschool_blockcha.Prelude.{
  ℕ, ◌≡◌, Option, none, some, List, ◌++◌, length, ltb, take, drop, if◌then◌else◌, Run, ret, ub,
  arith, le→ltb, take-append_length, drop-append_length, length-append, ◌+◌,
}

-- What is left of the file goes in and out; `none` is the jump to the clean-up.
abbrev pub Reader : Type 0 → Type 0
Reader A = List ℕ → Run (Option (A × List ℕ))

infixl 5 ◌>>=◌
abbrev pub ◌>>=◌ : {A B : Type 0} → Reader A → (A → Reader B) → Reader B
◌>>=◌ m f file = elim (m file) [ ub ↦ ub | ret none ↦ ret none | ret (some (a, file')) ↦ f a file' ]

abbrev pub pure : {A : Type 0} → A → Reader A
pure a file = ret (some (a, file))

abbrev pub failed : {A : Type 0} → Reader A
failed file = ret none

unfoldable pub read : ℕ → Reader (List ℕ)
read n file = if ltb (length file) n then ret none else ret (some (take n file, drop n file))

-- A read into an array of `max` bytes: the bytes past it are written outside the array.
unfoldable pub read_into : ℕ → ℕ → Reader (List ℕ)
read_into max n file =
    if ltb max n then (if ltb max (length file) then ub else ret none) else read n file

-- The next step of a block runs on what the first step left.
pub bind-ret :
    {A B : Type 0} (m : Reader A) (f : A → Reader B) (file : List ℕ) {a : A} {rest : List ℕ}
    → m file ≡ ret (some (a, rest))
    → (m >>= f) file ≡ f a rest
bind-ret m f file h = rw (◌>>=◌, h)

-- A read takes exactly the bytes that were written, and leaves what follows.
pub read-append :
    {n : ℕ} {bs : List ℕ}
    → length bs ≡ n
    → (rest : List ℕ) → read n (bs ++ rest) ≡ ret (some (bs, rest))
unfolding read
read-append {n} {bs} h rest = rw (
  length-append bs rest,
  le→ltb (length bs + length rest) n (omega arith),
  take-append_length n bs rest h,
  drop-append_length n bs rest h,
)

pub bind-read :
    {B : Type 0} {n : ℕ} {bs : List ℕ}
    → length bs ≡ n
    → (f : List ℕ → Reader B) (rest : List ℕ) → (read n >>= f) (bs ++ rest) ≡ f bs rest
bind-read {n} {bs} h f rest = bind-ret (read n) f (bs ++ rest) (read-append h rest)
