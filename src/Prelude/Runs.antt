-- ===== src/Prelude/Runs.antt =====
-- Runs of C code. `ub` stands for undefined behaviour: a read outside an object, through a null
-- pointer, or of memory that was never written.
use Prim.Native.Nat.{ℕ}
use mathlib.Core.Path.{◌≡◌, refl, subst}
use mathlib.Core.Bool.{Bool, true, false}
use mathlib.Core.Option.{Option, none, some}
use holbertonschool_blockcha.Prelude.Tests.{if◌then◌else◌}

pub data Run {ℓ} (A : Type ℓ) : Type ℓ where
  ret : A → Run A
  ub : Run A

infixl 5 ◌>>=◌
abbrev pub ◌>>=◌ {ℓ κ} : {A : Type ℓ} {B : Type κ} → Run A → (A → Run B) → Run B
ret a >>= f = f a
ub >>= f = ub

-- The first part of a block that returned has returned.
pub >>=-eq-ret {ℓ κ} :
    {A : Type ℓ} {B : Type κ} (m : Run A) (f : A → Run B) {b : B}
    → (m >>= f) ≡ ret b
    → (a : A) × (m ≡ ret a) × (f a ≡ ret b)
>>=-eq-ret (ret a) f h = (a, refl, h)
>>=-eq-ret ub f h = cc

-- A test whose failure returns 1 was passed by a run that returned 0.
pub passed : (c : Bool) (m : Run ℕ) → (if c then ret 1 else m) ≡ ret 0 → (c ≡ false) × (m ≡ ret 0)
passed true m h = cc
passed false m h = (refl, h)

-- The property of the result, if there is one.
abbrev pub Ensures {ℓ} : {A : Type ℓ} → (A → Type 0) → Run A → Type 0
Ensures P (ret a) = P a
Ensures P ub = Unit

module _ {ℓ κ} {A : Type ℓ} {B : Type κ} (P : A → Type 0) where
  pub Ensures-bind :
      (m : Run B) (f : B → Run A) → ((x : B) → m ≡ ret x → Ensures P (f x)) → Ensures P (m >>= f)
  Ensures-bind (ret x) f h = h x refl
  Ensures-bind ub f h = tt

  pub Ensures-option :
      (o : Option B) (r : Run A) (f : B → Run A)
      → Ensures P r
      → ((x : B) → o ≡ some x → Ensures P (f x))
      → Ensures P (elim o [ none ↦ r | some x ↦ f x ])
  Ensures-option none r f h k = h
  Ensures-option (some x) r f h k = k x refl

module _ {ℓ} {A : Type ℓ} (P : A → Type 0) where
  pub Ensures-if :
      (c : Bool) (r r' : Run A)
      → (c ≡ true → Ensures P r)
      → (c ≡ false → Ensures P r')
      → Ensures P (if c then r else r')
  Ensures-if true r r' h k = h refl
  Ensures-if false r r' h k = k refl

  pub Ensures-ret : {m : Run A} {a : A} → Ensures P m → m ≡ ret a → P a
  Ensures-ret p h = subst (λ m. Ensures P m) h p

pub Ensures-each {ℓ} :
    {A : Type ℓ} (P : A → Type 0) (m : Run A) → ((a : A) → m ≡ ret a → P a) → Ensures P m
Ensures-each P (ret a) h = h a refl
Ensures-each P ub h = tt

pub Ensures-map {ℓ} :
    {A : Type ℓ} (P Q : A → Type 0) (m : Run A) → ((a : A) → P a → Q a) → Ensures P m → Ensures Q m
Ensures-map P Q (ret a) f h = f a h
Ensures-map P Q ub f h = tt
