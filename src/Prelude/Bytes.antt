-- ===== src/Prelude/Bytes.antt =====
-- Bytes in memory: `memcmp` and the representation of unsigned integers on the host.
use Prim.Native.Nat.{ℕ, zero, suc, ◌+◌, ◌*◌, ◌/◌, ◌%◌, ◌^◌, ◌≤◌, ◌<◌}
use mathlib.Core.Path.{◌≡◌, refl, sym, ap, ◌∙◌}
use mathlib.Core.Bool.{Bool, true, false, ◌&&◌}
use mathlib.Core.List.{List, [], ◌∷◌, ◌++◌}
use native.Mathlib.Omega.{arith}
use holbertonschool_blockcha.Prelude.Tests.{◌==◌}
use holbertonschool_blockcha.Prelude.Lists.{length, take, All, take_all}

abbrev pub IsByte : ℕ → Type 0
IsByte b = b < 256

abbrev pub IsU32 : ℕ → Type 0
IsU32 n = n < 2 ^ 32

abbrev pub IsU64 : ℕ → Type 0
IsU64 n = n < 2 ^ 64

-- An array of `n` bytes.
abbrev pub IsArray : ℕ → List ℕ → Type 0
IsArray n xs = All IsByte xs × (length xs ≡ n)

-- `memcmp(a, b, n) == 0`.
unfoldable pub mem_eq : ℕ → List ℕ → List ℕ → Bool
mem_eq zero xs ys = true
mem_eq (suc n) [] [] = true
mem_eq (suc n) [] (y ∷ ys) = false
mem_eq (suc n) (x ∷ xs) [] = false
mem_eq (suc n) (x ∷ xs) (y ∷ ys) = x == y && mem_eq n xs ys

-- `strcmp(a, b) == 0`
unfoldable pub same_string : List ℕ → List ℕ → Bool
same_string [] [] = true
same_string [] (y ∷ ys) = false
same_string (x ∷ xs) [] = false
same_string (x ∷ xs) (y ∷ ys) = x == y && same_string xs ys

pub same_string_refl : (xs : List ℕ) → same_string xs xs ≡ true
unfolding same_string
same_string_refl [] = refl
same_string_refl (x ∷ xs) = ground (arith, same_string_refl xs)

-- A common beginning does not tell strings apart.
pub same_string-append : (s xs ys : List ℕ) → same_string (s ++ xs) (s ++ ys) ≡ same_string xs ys
unfolding same_string
same_string-append [] xs ys = refl
same_string-append (c ∷ s) xs ys = ground (arith, same_string-append s xs ys)

pub mem_eq→eq : (n : ℕ) (xs ys : List ℕ) → mem_eq n xs ys ≡ true → take n xs ≡ take n ys
unfolding mem_eq
mem_eq→eq zero xs ys h = refl
mem_eq→eq (suc n) [] [] h = refl
mem_eq→eq (suc n) [] (y ∷ ys) h = cc
mem_eq→eq (suc n) (x ∷ xs) [] h = cc
mem_eq→eq (suc n) (x ∷ xs) (y ∷ ys) h = ground (arith, mem_eq→eq n xs ys)

pub mem_eq_refl : (n : ℕ) (xs : List ℕ) → mem_eq n xs xs ≡ true
unfolding mem_eq
mem_eq_refl zero xs = refl
mem_eq_refl (suc n) [] = refl
mem_eq_refl (suc n) (x ∷ xs) = ground (arith, mem_eq_refl n xs)

-- On whole arrays the comparison is equality.
pub mem_eq→eq_all :
    (n : ℕ) (xs ys : List ℕ) → length xs ≤ n → length ys ≤ n → mem_eq n xs ys ≡ true → xs ≡ ys
mem_eq→eq_all n xs ys hx hy h = sym (take_all n xs hx) ∙ mem_eq→eq n xs ys h ∙ take_all n ys hy

-- Arrays that agree are compared alike.
mem_eq_cong : (n : ℕ) (xs ys zs : List ℕ) → take n xs ≡ take n ys → mem_eq n xs zs ≡ mem_eq n ys zs
unfolding mem_eq
mem_eq_cong zero xs ys zs h = refl
mem_eq_cong (suc n) [] [] zs h = refl
mem_eq_cong (suc n) [] (y ∷ ys) zs h = cc
mem_eq_cong (suc n) (x ∷ xs) [] zs h = cc
mem_eq_cong (suc n) (x ∷ xs) (y ∷ ys) [] h = refl
mem_eq_cong (suc n) (x ∷ xs) (y ∷ ys) (z ∷ zs) h =
    let head : x ≡ y = cc h in
    let tail : take n xs ≡ take n ys = cc h in rw (head, mem_eq_cong n xs ys zs tail)

pub mem_eq_same :
    (n : ℕ) (xs ys zs : List ℕ) → mem_eq n xs ys ≡ true → mem_eq n xs zs ≡ mem_eq n ys zs
mem_eq_same n xs ys zs h = mem_eq_cong n xs ys zs (mem_eq→eq n xs ys h)

pub mem_eq-append : (n : ℕ) (xs ys : List ℕ) → length xs ≡ n → mem_eq n (xs ++ ys) xs ≡ true
unfolding mem_eq
mem_eq-append zero xs ys h = refl
mem_eq-append (suc n) [] ys h = absurd (omega arith)
mem_eq-append (suc n) (x ∷ xs) ys h = ground (arith, mem_eq-append n xs ys (omega arith))

-- The `w` bytes of `n`, lowest first.
unfoldable pub le_bytes : ℕ → ℕ → List ℕ
le_bytes zero n = []
le_bytes (suc w) n = (n % 256) ∷ le_bytes w (n / 256)

unfoldable pub of_le_bytes : List ℕ → ℕ
of_le_bytes [] = 0
of_le_bytes (b ∷ bs) = b + 256 * of_le_bytes bs

pub length-le_bytes : (w n : ℕ) → length (le_bytes w n) ≡ w
unfolding le_bytes
length-le_bytes zero n = refl
length-le_bytes (suc w) n = ap suc (length-le_bytes w (n / 256))

pub le_bytes-IsByte : (w n : ℕ) → All IsByte (le_bytes w n)
unfolding le_bytes
le_bytes-IsByte zero n = tt
le_bytes-IsByte (suc w) n = (omega arith, le_bytes-IsByte w (n / 256))

pub of_le_bytes-le_bytes : (w n : ℕ) → n < 256 ^ w → of_le_bytes (le_bytes w n) ≡ n
unfolding le_bytes of_le_bytes
of_le_bytes-le_bytes zero n h = omega arith
of_le_bytes-le_bytes (suc w) n h = omega (arith, of_le_bytes-le_bytes w (n / 256) (grind arith))
