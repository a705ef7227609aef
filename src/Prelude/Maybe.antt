-- ===== src/Prelude/Maybe.antt =====
-- Chains of calls that may return NULL.
use mathlib.Core.Path.{◌≡◌, refl, subst}
use mathlib.Core.Bool.{Bool, true, false}
use mathlib.Core.Option.{Option, none, some}
use holbertonschool_blockcha.Prelude.Tests.{if◌then◌else◌}

infixl 5 ◌>>=◌
abbrev pub ◌>>=◌ {ℓ κ} : {A : Type ℓ} {B : Type κ} → Option A → (A → Option B) → Option B
some a >>= f = f a
none >>= f = none

-- The property of the result, if there is one.
abbrev pub Always {ℓ} : {A : Type ℓ} → (A → Type 0) → Option A → Type 0
Always P none = Unit
Always P (some a) = P a

module _ {ℓ κ} {A : Type ℓ} {B : Type κ} (P : A → Type 0) where
  pub Always-bind :
      (m : Option B) (f : B → Option A)
      → ((x : B) → m ≡ some x → Always P (f x))
      → Always P (m >>= f)
  Always-bind none f h = tt
  Always-bind (some x) f h = h x refl

pub Always-some {ℓ} :
    {A : Type ℓ} (P : A → Type 0) {m : Option A} {a : A} → Always P m → m ≡ some a → P a
Always-some P p h = subst (λ m. Always P m) h p

pub Always-if {ℓ} :
    {A : Type ℓ} (P : A → Type 0) (c : Bool) (m n : Option A)
    → (c ≡ true → Always P m)
    → (c ≡ false → Always P n)
    → Always P (if c then m else n)
Always-if P true m n h k = h refl
Always-if P false m n h k = k refl

pub Always-map {ℓ} :
    {A : Type ℓ} (P Q : A → Type 0) (m : Option A) → ((a : A) → P a → Q a) → Always P m → Always Q m
Always-map P Q none f h = tt
Always-map P Q (some a) f h = f a h
