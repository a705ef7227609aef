-- ===== src/Chain/Reader.antt =====
-- Reading from a stream with `fread`. The results of `fread` are not looked at in the source, so a
-- short read leaves memory unset, which is undefined behaviour once it is used.
use holbertonschool_blockcha.Prelude.{
  ℕ, zero, suc, ◌+◌, ◌<◌, ◌≤◌, ◌≡◌, ◌⊎◌, inl, inr, refl, ap, Bool-cases, List, [], ◌∷◌, ◌++◌,
  length, ltb, take, drop, if◌then◌else◌, Run, ret, ub, arith, le→ltb, take-append_length,
  drop-append_length, length-append,
}

-- What is left of the file goes in and out.
abbrev pub Reader : Type 0 → Type 0
Reader A = List ℕ → Run (A × List ℕ)

infixl 5 ◌>>=◌
abbrev pub ◌>>=◌ : {A B : Type 0} → Reader A → (A → Reader B) → Reader B
◌>>=◌ m f file = elim (m file) [ ub ↦ ub | ret (a, file') ↦ f a file' ]

abbrev pub pure : {A : Type 0} → A → Reader A
pure a file = ret (a, file)

abbrev pub undefined : {A : Type 0} → Reader A
undefined file = ub

unfoldable pub fread : ℕ → Reader (List ℕ)
fread n file = if ltb (length file) n then ub else ret (take n file, drop n file)

-- A loop of `n` rounds that adds what it reads to the rear of a list.
unfoldable pub fread_loop :
    {A : Type 0} → Reader A → (List A → A → List A) → ℕ → List A → Reader (List A)
fread_loop read add zero list file = ret (list, file)
fread_loop read add (suc n) list file = elim (read file) [
  | ub ↦ ub
  | ret (x, file') ↦ fread_loop read add n (add list x) file'
]

-- A read takes exactly the bytes that were written, and leaves what follows.
pub fread-append :
    {n : ℕ} {bs : List ℕ} → length bs ≡ n → (rest : List ℕ) → fread n (bs ++ rest) ≡ ret (bs, rest)
unfolding fread
fread-append {n} {bs} h rest = rw (
  length-append bs rest,
  le→ltb (length bs + length rest) n (omega arith),
  take-append_length n bs rest h,
  drop-append_length n bs rest h,
)

-- The next step of a block runs on what the first step left.
pub bind-ret :
    {A B : Type 0} (m : Reader A) (f : A → Reader B) (file : List ℕ) {a : A} {rest : List ℕ}
    → m file ≡ ret (a, rest)
    → (m >>= f) file ≡ f a rest
bind-ret m f file h = rw (◌>>=◌, h)

pub bind-ub :
    {A B : Type 0} (m : Reader A) (f : A → Reader B) (file : List ℕ)
    → m file ≡ ub
    → (m >>= f) file ≡ ub
bind-ub m f file h = rw (◌>>=◌, h)

pub bind-fread :
    {B : Type 0} {n : ℕ} {bs : List ℕ}
    → length bs ≡ n
    → (f : List ℕ → Reader B) (rest : List ℕ) → (fread n >>= f) (bs ++ rest) ≡ f bs rest
bind-fread {n} {bs} h f rest = bind-ret (fread n) f (bs ++ rest) (fread-append h rest)

-- The two parts of a list that is long enough.
pub take-drop :
    (n : ℕ) (l : List ℕ)
    → n ≤ length l
    → (take n l ++ drop n l ≡ l) × (length (take n l) ≡ n) × (length l ≡ n + length (drop n l))
take-drop zero l h = (refl, refl, omega arith)
take-drop (suc n) [] h = absurd (omega arith)
take-drop (suc n) (x ∷ l) h =
    let (e, k, t) = take-drop n l (omega arith) in (ap (λ t. x ∷ t) e, ap suc k, omega arith)

pub Run-cases : {A : Type 0} (m : Run A) → (m ≡ ub) ⊎ ((a : A) × (m ≡ ret a))
Run-cases ub = inl refl
Run-cases (ret a) = inr (a, refl)

-- What `fread` does by the length of the file.
pub data FreadCase (n : ℕ) (file : List ℕ) : Type 0 where
  short : length file < n → fread n file ≡ ub → FreadCase n file
  enough :
      fread n file ≡ ret (take n file, drop n file)
      → length file ≡ n + length (drop n file)
      → FreadCase n file

pub fread_cases : (n : ℕ) (file : List ℕ) → FreadCase n file
unfolding fread
fread_cases n file = elim (Bool-cases (ltb (length file) n)) [
  | inl less ↦ short (ground arith) (rw (fread, less))
  | inr larger ↦ let (e, k, t) = take-drop n file (ground arith) in enough (rw (fread, larger)) t
]
