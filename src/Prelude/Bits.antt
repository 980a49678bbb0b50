-- ===== src/Prelude/Bits.antt =====
-- `&` with a mask, as arithmetic. `x & (2^k - 1)` is a remainder; `x & ~7`, on 32 bits, rounds down.
use Prim.Native.Nat.{
  ℕ, zero, suc, ◌+◌, ◌-◌, ◌*◌, ◌/◌, ◌%◌, ◌^◌, ◌≤◌, ◌<◌, min, bit_and, digits, bit_and-bitwise,
}
use mathlib.Core.Path.{◌≡◌, refl, ap, ◌∙◌}
use native.Mathlib.Nat.{
  pow-suc, one-le-pow, mod-lt, mod-eq_of_lt, div-add-mod, mul-add-mod_self_left,
}
use native.Mathlib.Omega.{arith}

-- The digit recursion that `bit_and` stands for, on fuel.
abbrev and_on : ℕ → ℕ → ℕ → ℕ
and_on n a b = digits (λ b. zero) min n a b

fuel_irrelevant : (m n a b : ℕ) → a ≤ m → a ≤ n → and_on m a b ≡ and_on n a b
fuel_irrelevant zero zero a b h k = refl
fuel_irrelevant zero (suc n) zero b h k = refl
fuel_irrelevant zero (suc n) (suc a) b h k = absurd (omega arith)
fuel_irrelevant (suc m) zero zero b h k = refl
fuel_irrelevant (suc m) zero (suc a) b h k = absurd (omega arith)
fuel_irrelevant (suc m) (suc n) zero b h k = refl
fuel_irrelevant (suc m) (suc n) (suc a) b h k =
    omega (arith, fuel_irrelevant m n (suc a / 2) (b / 2) (omega arith) (omega arith))

pub bit_and-halve : (a b : ℕ) → bit_and a b ≡ 2 * bit_and (a / 2) (b / 2) + min (a % 2) (b % 2)
bit_and-halve zero b = omega (arith, bit_and-bitwise 0 b, bit_and-bitwise 0 (b / 2))
bit_and-halve (suc a) b =
    let half = suc a / 2 in
    omega (
      arith,
      bit_and-bitwise (suc a) b,
      bit_and-bitwise half (b / 2),
      fuel_irrelevant a half half (b / 2) (omega arith) (omega arith),
    )

and_zero_below : (n a : ℕ) → a < n → bit_and a 0 ≡ 0
and_zero_below zero a h = absurd (omega arith)
and_zero_below (suc n) zero h = refl
and_zero_below (suc n) (suc a) h =
    omega (arith, bit_and-halve (suc a) 0, and_zero_below n (suc a / 2) (omega arith))

mod-double : (p a : ℕ) → 0 < p → a % (2 * p) ≡ 2 * (a / 2 % p) + a % 2
mod-double p a h =
    ap (λ (t : ℕ). t % (2 * p)) parts
    ∙ mul-add-mod_self_left (2 * p) (a / 2 / p) low
    ∙ mod-eq_of_lt (omega (arith, mod-lt (a / 2) h))
  where
    low : ℕ
    low = 2 * (a / 2 % p) + a % 2

    parts : a ≡ 2 * p * (a / 2 / p) + low
    parts = omega (arith, div-add-mod (a / 2) p)

-- Masking with `k` ones is the remainder by `2 ^ k`.
pub bit_and-ones : (k a : ℕ) → bit_and a (2 ^ k - 1) ≡ a % 2 ^ k
bit_and-ones zero a = omega (arith, and_zero_below (suc a) a (omega arith))
bit_and-ones (suc k) a =
    let pos : 0 < 2 ^ k = one-le-pow k 2 (omega arith) in
    let double : 2 ^ suc k ≡ 2 * 2 ^ k = omega (arith, pow-suc 2 k) in
    let half : (2 * 2 ^ k - 1) / 2 ≡ 2 ^ k - 1 = omega arith in
    rw (double, bit_and-halve, half, bit_and-ones k (a / 2), mod-double (2 ^ k) a pos) (omega arith)

-- `x & ~7` on 32 bits.
pub bit_and-not_seven : (a : ℕ) → a < 2 ^ 32 → bit_and a 0xffff_fff8 ≡ a / 8 * 8
bit_and-not_seven a h = omega (
  arith,
  bit_and-halve a 0xffff_fff8,
  bit_and-halve (a / 2) 0x7fff_fffc,
  bit_and-halve (a / 2 / 2) 0x3fff_fffe,
  bit_and-ones 29 (a / 2 / 2 / 2),
)
