-- ===== src/Prelude/Mask.antt =====
-- A mask of ones as a remainder, and indices modulo a capacity.
use Prim.Native.Nat.{
  ℕ, zero, suc, ◌+◌, ◌-◌, ◌*◌, ◌/◌, ◌%◌, ◌^◌, ◌≤◌, ◌<◌, min, digits, bit_and, bit_and-bitwise,
}
use mathlib.Core.Path.{◌≡◌, refl, ap, ◌∙◌}
use mathlib.Core.Logic.{◌≢◌, ◌⊎◌, inl, inr}
use native.Mathlib.Omega.{arith}
use native.Mathlib.Nat.{
  div-add-mod', mul-add-mod_self_right, mod-eq_of_lt, mod-lt, mod-add-mod, mod-eq-sub-mod, le_refl,
  mul_assoc,
}

below_double : (q r b m : ℕ) → r < m → b < 2 → (q * (m * 2) + (r * 2 + b)) % (m * 2) ≡ r * 2 + b
below_double q r b m h k = mul-add-mod_self_right q (m * 2) (r * 2 + b) ∙ mod-eq_of_lt (omega arith)

mod_double : (a m : ℕ) → 0 < m → a % (m * 2) ≡ a / 2 % m * 2 + a % 2
mod_double a m p =
    let q = a / 2 / m in
    let r = a / 2 % m in
    let h = div-add-mod' (a / 2) m in
    let k : a ≡ q * (m * 2) + (r * 2 + a % 2) = omega (arith, h, mul_assoc q m 2) in
    ap (λ x. x % (m * 2)) k ∙ below_double q r (a % 2) m (mod-lt (a / 2) p) (omega arith)

pub two_pow_pos : (k : ℕ) → 0 < 2 ^ k
two_pow_pos zero = omega arith
two_pow_pos (suc k) = omega (arith, two_pow_pos k)

digits-zero : (n a : ℕ) → digits (λ y. 0) min n a 0 ≡ 0
digits-zero zero a = refl
digits-zero (suc n) zero = refl
digits-zero (suc n) (suc a) = omega (arith, digits-zero n (suc a / 2))

digits-mask : (n k a : ℕ) → a ≤ n → digits (λ y. 0) min n a (2 ^ k - 1) ≡ a % 2 ^ k
digits-mask zero k zero h = omega arith
digits-mask zero k (suc a) h = absurd (omega arith)
digits-mask (suc n) k zero h = omega arith
digits-mask (suc n) zero (suc a) h = omega (arith, digits-zero n (suc a / 2))
digits-mask (suc n) (suc k) (suc a) h =
    let e : 2 ^ suc k ≡ 2 ^ k * 2 = omega arith in
    let half : (2 ^ suc k - 1) / 2 ≡ 2 ^ k - 1 = omega (arith, two_pow_pos k) in
    let low : (2 ^ suc k - 1) % 2 ≡ 1 = omega (arith, two_pow_pos k) in
    rw
      (
        half,
        low,
        digits-mask n k (suc a / 2) (omega arith),
        e,
        mod_double (suc a) (2 ^ k) (two_pow_pos k),
      )
      (omega arith)

-- A mask of `k` ones is the remainder by `2 ^ k`.
pub bit_and-mask : (k a : ℕ) → bit_and a (2 ^ k - 1) ≡ a % 2 ^ k
bit_and-mask k a = simp bit_and-bitwise (digits-mask a k a (le_refl a))

pub lt_or_ge : (a b : ℕ) → (a < b) ⊎ (b ≤ a)
lt_or_ge a b = ground arith

remainder_apart : (r d m : ℕ) → r < m → 0 < d → d < m → (r + d) % m ≢ r
remainder_apart r d m h p q f = elim (lt_or_ge (r + d) m) [
  | inl lt ↦ let g = mod-eq_of_lt lt in omega arith
  | inr ge ↦
      let below : r + d - m < m = omega arith in
      let g = mod-eq-sub-mod ge in let k = mod-eq_of_lt below in omega arith
]

-- Indices fewer than `m` apart do not meet modulo `m`.
pub mod_apart : (a d m : ℕ) → 0 < d → d < m → (a + d) % m ≢ a % m
mod_apart a d m p q e =
    remainder_apart (a % m) d m (mod-lt a (omega arith)) p q (mod-add-mod a m d ∙ e)
