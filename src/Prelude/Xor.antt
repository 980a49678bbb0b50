-- ===== src/Prelude/Xor.antt =====
-- `^` on numbers, digit by digit.
use Prim.Native.Nat.{
  ℕ, zero, suc, ◌+◌, ◌*◌, ◌/◌, ◌%◌, ◌^◌, ◌≤◌, ◌<◌, bit_xor, digits, differ, bit_xor-bitwise,
}
use mathlib.Core.Path.{◌≡◌, refl, sym, ap, ◌∙◌}
use native.Mathlib.Nat.{pow-suc, one-le-pow}
use native.Mathlib.Omega.{arith}

abbrev xor_on : ℕ → ℕ → ℕ → ℕ
xor_on n a b = digits (λ d. d) differ n a b

enough_digits : (b a k n : ℕ) → a ≤ n → a ≤ k → xor_on n a b ≡ xor_on k a b
enough_digits b zero zero zero p q = refl
enough_digits b zero zero (suc n) p q = refl
enough_digits b zero (suc k) zero p q = refl
enough_digits b zero (suc k) (suc n) p q = refl
enough_digits b (suc a) zero n p q = absurd (omega arith)
enough_digits b (suc a) (suc k) zero p q = absurd (omega arith)
enough_digits b (suc a) (suc k) (suc n) p q =
    omega (arith, enough_digits (b / 2) (suc a / 2) k n (omega arith) (omega arith))

differ_lem : (x y : ℕ) → x < 2 → y < 2 → differ x y ≡ (x + y) % 2
differ_lem zero y p q = omega arith
differ_lem (suc zero) zero p q = refl
differ_lem (suc zero) (suc zero) p q = refl
differ_lem (suc zero) (suc (suc y)) p q = absurd (omega arith)
differ_lem (suc (suc x)) y p q = absurd (omega arith)

pub xor-halve : (a b : ℕ) → bit_xor a b ≡ 2 * bit_xor (a / 2) (b / 2) + (a + b) % 2
xor-halve zero b = omega (arith, bit_xor-bitwise 0 b, bit_xor-bitwise 0 (b / 2))
xor-halve (suc a) b =
    let half = suc a / 2 in
    omega (
      arith,
      bit_xor-bitwise (suc a) b,
      bit_xor-bitwise half (b / 2),
      enough_digits (b / 2) half half a (omega arith) (omega arith),
      differ_lem (suc a % 2) (b % 2) (omega arith) (omega arith),
    )

pub xor-half : (a b : ℕ) → bit_xor a b / 2 ≡ bit_xor (a / 2) (b / 2)
xor-half a b = omega (arith, xor-halve a b)

pub xor-parity : (a b : ℕ) → bit_xor a b % 2 ≡ (a + b) % 2
xor-parity a b = omega (arith, xor-halve a b)

pub xor-lt : (n a b : ℕ) → a < 2 ^ n → b < 2 ^ n → bit_xor a b < 2 ^ n
xor-lt zero zero zero p q = omega arith
xor-lt zero zero (suc b) p q = absurd (omega arith)
xor-lt zero (suc a) b p q = absurd (omega arith)
xor-lt (suc n) a b p q =
    let double = pow-suc 2 n in
    omega (
      arith,
      double,
      xor-halve a b,
      xor-lt n (a / 2) (b / 2) (omega (arith, double)) (omega (arith, double)),
    )

-- Two sums of the same four numbers.
pub xor-swap :
    (n a b c d : ℕ)
    → a < 2 ^ n
    → b < 2 ^ n
    → c < 2 ^ n
    → d < 2 ^ n
    → bit_xor (bit_xor a b) (bit_xor c d) ≡ bit_xor (bit_xor a c) (bit_xor b d)
xor-swap zero zero zero zero zero p q r s = refl
xor-swap zero (suc a) b c d p q r s = absurd (omega arith)
xor-swap zero zero (suc b) c d p q r s = absurd (omega arith)
xor-swap zero zero zero (suc c) d p q r s = absurd (omega arith)
xor-swap zero zero zero zero (suc d) p q r s = absurd (omega arith)
xor-swap (suc n) a b c d p q r s =
    let e = pow-suc 2 n in
    let ih =
      xor-swap n (a / 2) (b / 2) (c / 2) (d / 2) (omega (arith, e)) (omega (arith, e))
        (omega (arith, e)) (omega (arith, e)) in
    rw
      (
        xor-halve (bit_xor a b) (bit_xor c d),
        xor-halve (bit_xor a c) (bit_xor b d),
        xor-half a b,
        xor-half c d,
        xor-half a c,
        xor-half b d,
        ih,
      )
      (omega (arith, xor-parity a b, xor-parity c d, xor-parity a c, xor-parity b d))

pub xor-zero : (n a : ℕ) → a < 2 ^ n → bit_xor a 0 ≡ a
xor-zero zero zero h = refl
xor-zero zero (suc a) h = absurd (omega arith)
xor-zero (suc n) a h = omega (arith, xor-halve a 0, xor-zero n (a / 2) (omega (arith, pow-suc 2 n)))

pub zero-xor : (a : ℕ) → bit_xor 0 a ≡ a
zero-xor a = bit_xor-bitwise 0 a

pub xor-right_comm :
    (n a b c : ℕ)
    → a < 2 ^ n
    → b < 2 ^ n
    → c < 2 ^ n
    → bit_xor (bit_xor a b) c ≡ bit_xor (bit_xor a c) b
xor-right_comm n a b c p q r =
    ap (bit_xor (bit_xor a b)) (sym (xor-zero n c r))
    ∙ xor-swap n a b c 0 p q r (one-le-pow n 2 (omega arith))
    ∙ ap (bit_xor (bit_xor a c)) (xor-zero n b q)

pub xor-cancel : (n a b c : ℕ) → a < 2 ^ n → b < 2 ^ n → bit_xor a c ≡ bit_xor b c → a ≡ b
xor-cancel zero a b c p q e = omega arith
xor-cancel (suc n) a b c p q e =
    let double = pow-suc 2 n in
    let halves : bit_xor (a / 2) (c / 2) ≡ bit_xor (b / 2) (c / 2) =
      omega (arith, e, xor-half a c, xor-half b c) in
    let upper : a / 2 ≡ b / 2 =
      xor-cancel n (a / 2) (b / 2) (c / 2) (omega (arith, double)) (omega (arith, double)) halves in
    omega (arith, upper, e, xor-parity a c, xor-parity b c)
