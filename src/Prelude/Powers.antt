-- ===== src/Prelude/Powers.antt =====
-- Powers of the native numbers.
use native.Mathlib.Nat.{pow-zero, pow-suc, pow-le-pow_right, add-suc, add-zero}
use Prim.Native.Nat.{ℕ, zero, suc, ◌+◌, ◌*◌, ◌^◌, ◌≤◌}
use mathlib.Core.Path.{◌≡◌, refl, ap, sym, ◌∙◌}
use native.Mathlib.Omega.{arith}

pub pow-add : (k a b : ℕ) → k ^ (a + b) ≡ k ^ a * k ^ b
pow-add k a zero = rw (add-zero, pow-zero) (omega arith)
pow-add k a (suc b) = rw (add-suc, pow-suc, pow-suc, pow-add k a b) (omega arith)

pub pow256 : (n : ℕ) → 2 ^ (8 * n) ≡ 256 ^ n
pow256 zero = refl
pow256 (suc n) =
    let e : 8 * suc n ≡ 8 * n + 8 = omega arith in
    rw e (pow-add 2 (8 * n) 8 ∙ ap (λ t. t * 256) (pow256 n) ∙ sym (pow-suc 256 n))

pub pow2_mono : (a b : ℕ) → a ≤ b → 2 ^ a ≤ 2 ^ b
pow2_mono a b h = pow-le-pow_right (omega arith) h
