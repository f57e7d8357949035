-- ===== src/Prelude/Bits.antt =====
-- `seq & mask` for a mask of ones is the remainder by the power of two.
use Prim.Native.Nat.{
  ℕ, zero, suc, ◌+◌, ◌-◌, ◌*◌, ◌/◌, ◌%◌, ◌^◌, ◌≤◌, ◌<◌, min, bit_and, digits, bit_and-bitwise,
}
use mathlib.Core.Path.{◌≡◌, refl, ap, ◌∙◌}
use native.Mathlib.Omega.{arith}
use native.Mathlib.Nat.{pow-suc, mod-lt, mod-eq_of_lt, div-add-mod, add-mul-mod_self_left}

pub pow_pos : (k : ℕ) → 0 < 2 ^ k
pow_pos zero = omega arith
pow_pos (suc k) = omega (arith, pow-suc 2 k, pow_pos k)

-- The digits that are left when those of a mask of `k` ones are done with `n` rounds to go
abbrev masked : ℕ → ℕ → ℕ → ℕ
masked n a mask = digits (λ _. zero) min n a mask

split_mod : (a p : ℕ) → 0 < p → a % (p * 2) ≡ (a / 2) % p * 2 + a % 2
split_mod a p h =
    let low : ℕ = (a / 2) % p * 2 + a % 2 in
    let whole : a ≡ low + p * 2 * (a / 2 / p) = omega (arith, div-add-mod (a / 2) p) in
    ap (λ x. x % (p * 2)) whole
    ∙ add-mul-mod_self_left low (p * 2) (a / 2 / p)
    ∙ mod-eq_of_lt (omega (arith, mod-lt (a / 2) h))

masked-zero : (n a : ℕ) → masked n a 0 ≡ 0
masked-zero zero a = refl
masked-zero (suc n) zero = refl
masked-zero (suc n) (suc a) = omega (arith, masked-zero n (suc a / 2))

zero_mod : (k : ℕ) → 0 ≡ 0 % 2 ^ k
zero_mod k = omega (arith, pow_pos k)

masked-mod : (k n a : ℕ) → a ≤ n → masked n a (2 ^ k - 1) ≡ a % 2 ^ k
masked-mod zero n a enough = omega (arith, masked-zero n a)
masked-mod (suc k) zero zero enough = zero_mod (suc k)
masked-mod (suc k) zero (suc a) enough = absurd (omega arith)
masked-mod (suc k) (suc n) zero enough = zero_mod (suc k)
masked-mod (suc k) (suc n) (suc a) enough = omega (
  arith,
  masked-mod k n (suc a / 2) (omega arith),
  ap (masked n (suc a / 2)) (shifted k),
  split_mod (suc a) (2 ^ k) (pow_pos k),
  ap (λ m. suc a % m) (pow-suc 2 k),
  pow-suc 2 k,
  pow_pos k,
)
  where
    shifted : (j : ℕ) → (2 ^ suc j - 1) / 2 ≡ 2 ^ j - 1
    shifted j = omega (arith, pow-suc 2 j, pow_pos j)

pub bit_and_mask : (k a : ℕ) → bit_and a (2 ^ k - 1) ≡ a % 2 ^ k
bit_and_mask k a = bit_and-bitwise a (2 ^ k - 1) ∙ masked-mod k a a (omega arith)
