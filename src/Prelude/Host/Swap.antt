-- ===== src/Prelude/Host/Swap.antt =====
-- `_swap_endian` of blockchain/v0.3/provided/_endianness.c, which exchanges bytes by `^=`.
use Prim.Native.Nat.{ℕ, zero, suc, ◌+◌, ◌-◌, ◌*◌, ◌/◌, ◌%◌, ◌^◌, ◌<◌}
use mathlib.Core.Path.{◌≡◌, refl, ap, sym, subst, ◌∙◌}
use mathlib.Core.Option.{none, some}
use mathlib.Core.List.{List, [], ◌∷◌, ◌++◌, append_assoc, append-nil, reverse, reverse-append}
use native.Mathlib.Omega.{arith}
use holbertonschool_blockcha.Prelude.Lists.{length, length-append, All, All-append, get_elem?}
use holbertonschool_blockcha.Prelude.Runs.{Run, ret, ub, ◌>>=◌}
use holbertonschool_blockcha.Prelude.Bytes.{IsByte, IsArray}

-- `^` on the lowest bits, as many as the first argument says.
xor : ℕ → ℕ → ℕ → ℕ
xor zero a b = 0
xor (suc bits) a b = (a + b) % 2 + 2 * xor bits (a / 2) (b / 2)

byte_at : ℕ → List ℕ → Run ℕ
byte_at i n = elim (get_elem? n i) [ none ↦ ub | some x ↦ ret x ]

put_byte : ℕ → ℕ → List ℕ → List ℕ
put_byte i x [] = []
put_byte zero x (y ∷ n) = x ∷ n
put_byte (suc i) x (y ∷ n) = y ∷ put_byte i x n

-- `n[i] ^= n[j]`
xor_into : ℕ → ℕ → List ℕ → Run (List ℕ)
unfolding byte_at put_byte xor
xor_into i j n = byte_at i n >>= λ x. byte_at j n >>= λ y. ret (put_byte i (xor 8 x y) n)

swap_round : ℕ → ℕ → List ℕ → Run (List ℕ)
unfolding xor_into
swap_round i j n = xor_into i j n >>= λ a. xor_into j i a >>= λ b. xor_into i j b

-- The rounds from `i` on.
swap_loop : ℕ → ℕ → ℕ → List ℕ → Run (List ℕ)
unfolding swap_round
swap_loop zero i size n = ret n
swap_loop (suc rounds) i size n =
    swap_round i (size - (i + 1)) n >>= λ next. swap_loop rounds (suc i) size next

unfoldable pub swap_endian : List ℕ → ℕ → Run (List ℕ)
unfolding swap_loop
swap_endian p size = swap_loop (size / 2) 0 size p

xor-back : (bits x y : ℕ) → x < 2 ^ bits → xor bits y (xor bits x y) ≡ x
unfolding xor
xor-back zero x y h = omega arith
xor-back (suc bits) x y h =
    let below = xor-back bits (x / 2) (y / 2) (grind arith) in
    let half : ((x + y) % 2 + 2 * xor bits (x / 2) (y / 2)) / 2 ≡ xor bits (x / 2) (y / 2) =
      omega arith in
    rw half (omega (arith, below))

xor-forth : (bits x y : ℕ) → y < 2 ^ bits → xor bits (xor bits x y) x ≡ y
unfolding xor
xor-forth zero x y h = omega arith
xor-forth (suc bits) x y h =
    let below = xor-forth bits (x / 2) (y / 2) (grind arith) in
    let half : ((x + y) % 2 + 2 * xor bits (x / 2) (y / 2)) / 2 ≡ xor bits (x / 2) (y / 2) =
      omega arith in
    rw half (omega (arith, below))

byte_at-append : (f : List ℕ) (x : ℕ) (r : List ℕ) → byte_at (length f) (f ++ x ∷ r) ≡ ret x
unfolding byte_at
byte_at-append [] x r = refl
byte_at-append (c ∷ f) x r = byte_at-append f x r

put_byte-append :
    (f : List ℕ) (x y : ℕ) (r : List ℕ) → put_byte (length f) y (f ++ x ∷ r) ≡ f ++ y ∷ r
unfolding put_byte
put_byte-append [] x y r = refl
put_byte-append (c ∷ f) x y r = ap (λ t. c ∷ t) (put_byte-append f x y r)

-- A byte behind `f`, another byte and `m`.
module _ (f m b : List ℕ) (j : ℕ) (place : j ≡ length f + suc (length m)) where
  far : (x : ℕ) → length (f ++ x ∷ m) ≡ j
  far x = omega (arith, length-append f (x ∷ m))

  byte_at-far : (x y : ℕ) → byte_at j (f ++ x ∷ (m ++ y ∷ b)) ≡ ret y
  byte_at-far x y =
      ap (λ t. byte_at t (f ++ x ∷ (m ++ y ∷ b))) (sym (far x))
      ∙ ap (byte_at (length (f ++ x ∷ m))) (sym (append_assoc f (x ∷ m) (y ∷ b)))
      ∙ byte_at-append (f ++ x ∷ m) y b

  put_byte-far : (x y z : ℕ) → put_byte j z (f ++ x ∷ (m ++ y ∷ b)) ≡ f ++ x ∷ (m ++ z ∷ b)
  put_byte-far x y z =
      ap (λ t. put_byte t z (f ++ x ∷ (m ++ y ∷ b))) (sym (far x))
      ∙ ap (put_byte (length (f ++ x ∷ m)) z) (sym (append_assoc f (x ∷ m) (y ∷ b)))
      ∙ put_byte-append (f ++ x ∷ m) y z b
      ∙ append_assoc f (x ∷ m) (z ∷ b)

  first-into :
      (x y : ℕ)
      → xor_into (length f) j (f ++ x ∷ (m ++ y ∷ b)) ≡ ret (f ++ xor 8 x y ∷ (m ++ y ∷ b))
  unfolding xor_into
  first-into x y = rw (
    byte_at-append f x (m ++ y ∷ b),
    byte_at-far x y,
    put_byte-append f x (xor 8 x y) (m ++ y ∷ b),
  )

  second-into :
      (x y : ℕ)
      → xor_into j (length f) (f ++ x ∷ (m ++ y ∷ b)) ≡ ret (f ++ x ∷ (m ++ xor 8 y x ∷ b))
  unfolding xor_into
  second-into x y =
      rw (byte_at-far x y, byte_at-append f x (m ++ y ∷ b), put_byte-far x y (xor 8 y x))

  -- One round exchanges the two bytes.
  swap_round_lem :
      (x y : ℕ)
      → IsByte x
      → IsByte y
      → swap_round (length f) j (f ++ x ∷ (m ++ y ∷ b)) ≡ ret (f ++ y ∷ (m ++ x ∷ b))
  unfolding swap_round
  swap_round_lem x y hx hy = rw (
    first-into x y,
    second-into (xor 8 x y) y,
    xor-back 8 x y hx,
    first-into (xor 8 x y) x,
    xor-forth 8 x y hy,
  )

-- The last byte apart.
last_apart : (x : ℕ) (l : List ℕ) → (m : List ℕ) × (y : ℕ) × (x ∷ l ≡ m ++ y ∷ [])
last_apart x [] = ([], x, refl)
last_apart x (z ∷ l) = let (m, y, e) = last_apart z l in (x ∷ m, y, ap (λ t. x ∷ t) e)

reverse-ends :
    (x y : ℕ) (m b : List ℕ) → reverse (x ∷ (m ++ y ∷ [])) ++ b ≡ y ∷ (reverse m ++ x ∷ b)
reverse-ends x y m b =
    rw
      (
        reverse-append (x ∷ []) (m ++ y ∷ []),
        reverse-append m (y ∷ []),
        append_assoc (reverse m) (x ∷ []) b,
      )
      refl

-- One round, and the rounds behind it.
round-reverses :
    (rounds size : ℕ) (f m b : List ℕ) (x y : ℕ)
    → IsByte x
    → IsByte y
    → size - (length f + 1) ≡ length f + suc (length m)
    → swap_loop rounds (suc (length f)) size (f ++ y ∷ (m ++ x ∷ b))
      ≡ ret (f ++ y ∷ (reverse m ++ x ∷ b))
    → swap_loop (suc rounds) (length f) size (f ++ x ∷ ((m ++ y ∷ []) ++ b))
      ≡ ret (f ++ (reverse (x ∷ (m ++ y ∷ [])) ++ b))
unfolding swap_loop
round-reverses rounds size f m b x y hx hy place next =
    rw
      (
        append_assoc m (y ∷ []) b,
        swap_round_lem f m b (size - (length f + 1)) place x y hx hy,
        reverse-ends x y m b,
      )
      next

-- The rounds that are left turn around what lies between the bytes that were exchanged.
swap_loop-reverses :
    (rounds size : ℕ) (f l b : List ℕ)
    → All IsByte l
    → length l / 2 ≡ rounds
    → length b ≡ length f
    → size ≡ length f + length l + length b
    → swap_loop rounds (length f) size (f ++ (l ++ b)) ≡ ret (f ++ (reverse l ++ b))
unfolding swap_loop
swap_loop-reverses zero size f [] b h n e total = refl
swap_loop-reverses zero size f (x ∷ []) b h n e total = refl
swap_loop-reverses zero size f (x ∷ z ∷ l) b h n e total = absurd (omega arith)
swap_loop-reverses (suc rounds) size f [] b h n e total = absurd (omega arith)
swap_loop-reverses (suc rounds) size f (x ∷ []) b h n e total = absurd (omega arith)
swap_loop-reverses (suc rounds) size f (x ∷ z ∷ l) b (hx, h) n e total =
    let (m, y, apart) = last_apart z l in
    let bytes = subst (All IsByte) apart h in
    let (hm, (hy, _)) = All-append IsByte m (y ∷ []) bytes in
    let long : suc (length l) ≡ length m + 1 = ap length apart ∙ length-append m (y ∷ []) in
    let place : size - (length f + 1) ≡ length f + suc (length m) = omega arith in
    let longer : length (f ++ y ∷ []) ≡ suc (length f) = omega (arith, length-append f (y ∷ [])) in
    let next =
      swap_loop-reverses rounds size (f ++ y ∷ []) m (x ∷ b) hm (omega arith)
        (omega (arith, longer)) (omega (arith, longer)) in
    let step = round-reverses rounds size f m b x y hx hy place (
      rw
        (longer, append_assoc f (y ∷ []) (m ++ x ∷ b), append_assoc f (y ∷ []) (reverse m ++ x ∷ b))
        at next) in
    subst
      (λ t.
        swap_loop (suc rounds) (length f) size (f ++ x ∷ (t ++ b))
        ≡ ret (f ++ (reverse (x ∷ t) ++ b)))
      (sym apart) step

-- Swapping turns an array of bytes around, and reads and writes nothing outside it.
swap_endian-reverse :
    (size : ℕ) (p : List ℕ) → IsArray size p → swap_endian p size ≡ ret (reverse p)
unfolding swap_endian
swap_endian-reverse size p (h, n) =
    let whole = swap_loop-reverses (size / 2) size [] p [] h (omega arith) refl (omega arith) in
    rw (append-nil p, append-nil (reverse p)) at whole
