-- ===== src/Crc/Shift.antt =====
-- The register of a CRC32 as bits leave it: sums, start values and the digits that take part.
use native.Mathlib.Omega.{arith}
use native.Mathlib.Nat.{pow-suc}
use native.Mathlib.Decide.{ℕ_discrete}
use bpak.Prelude.{
  ℕ, zero, suc, ◌+◌, ◌*◌, ◌/◌, ◌%◌, ◌^◌, ◌≤◌, ◌<◌, bit_xor, ◌≡◌, refl, sym, ap, ◌∙◌, ◌==◌,
  if◌then◌else◌, ◌⊎◌, inl, inr, xor-half, xor-parity, xor-lt, xor-swap, zero-xor, xor-right_comm,
  xor-cancel,
}

-- The polynomial x^32 + x^26 + ... + 1, its highest terms first.
abbrev pub polynomial : ℕ
polynomial = 0xedb8_8320

abbrev pub feedback : ℕ → ℕ
feedback x = if x % 2 == 0 then 0 else polynomial

-- One bit leaves the register.
unfoldable pub shift_out : ℕ → ℕ
shift_out x = bit_xor (x / 2) (feedback x)

unfoldable pub shift_out_bits : ℕ → ℕ → ℕ
shift_out_bits zero x = x
shift_out_bits (suc n) x = shift_out_bits n (shift_out x)

feedback-lt : (x : ℕ) → feedback x < 2 ^ 32
feedback-lt x = ground arith

feedback-xor : (a b : ℕ) → feedback (bit_xor a b) ≡ bit_xor (feedback a) (feedback b)
feedback-xor a b =
    let parity = xor-parity a b in
    elim (mod_two a) [
      | inl p ↦ elim (mod_two b) [
        | inl q ↦ let r : bit_xor a b % 2 ≡ 0 = omega (arith, parity) in rw (p, q, r) refl
        | inr q ↦ let r : bit_xor a b % 2 ≡ 1 = omega (arith, parity) in rw (p, q, r) refl
      ]
      | inr p ↦ elim (mod_two b) [
        | inl q ↦ let r : bit_xor a b % 2 ≡ 1 = omega (arith, parity) in rw (p, q, r) refl
        | inr q ↦ let r : bit_xor a b % 2 ≡ 0 = omega (arith, parity) in rw (p, q, r) refl
      ]
    ]
  where
    mod_two : (x : ℕ) → (x % 2 ≡ 0) ⊎ (x % 2 ≡ 1)
    mod_two x = elim (ℕ_discrete (x % 2) 0) [ yes e ↦ inl e | no n ↦ inr (omega arith) ]

pub shift_out-lt : (x : ℕ) → x < 2 ^ 32 → shift_out x < 2 ^ 32
unfolding shift_out
shift_out-lt x h = xor-lt 32 (x / 2) (feedback x) (omega arith) (feedback-lt x)

pub shift_out-xor :
    (a b : ℕ)
    → a < 2 ^ 32
    → b < 2 ^ 32
    → shift_out (bit_xor a b) ≡ bit_xor (shift_out a) (shift_out b)
unfolding shift_out
shift_out-xor a b p q =
    rw (xor-half a b, feedback-xor a b)
      (xor-swap 32 (a / 2) (b / 2) (feedback a) (feedback b) (omega arith) (omega arith)
        (feedback-lt a) (feedback-lt b))

pub shift_out_bits-xor :
    (n a b : ℕ)
    → a < 2 ^ 32
    → b < 2 ^ 32
    → shift_out_bits n (bit_xor a b) ≡ bit_xor (shift_out_bits n a) (shift_out_bits n b)
unfolding shift_out_bits
shift_out_bits-xor zero a b p q = refl
shift_out_bits-xor (suc n) a b p q =
    ap (shift_out_bits n) (shift_out-xor a b p q)
    ∙ shift_out_bits-xor n (shift_out a) (shift_out b) (shift_out-lt a p) (shift_out-lt b q)

pub shift_out_bits-lt : (n x : ℕ) → x < 2 ^ 32 → shift_out_bits n x < 2 ^ 32
unfolding shift_out_bits
shift_out_bits-lt zero x h = h
shift_out_bits-lt (suc n) x h = shift_out_bits-lt n (shift_out x) (shift_out-lt x h)

-- The lowest `n` digits, and those above them.
unfoldable pub low : ℕ → ℕ → ℕ
low zero x = 0
low (suc n) x = 2 * low n (x / 2) + x % 2

unfoldable pub high : ℕ → ℕ → ℕ
high zero x = x
high (suc n) x = high n (x / 2)

high-le : (n x : ℕ) → high n x ≤ x
unfolding high
high-le zero x = omega arith
high-le (suc n) x = omega (arith, high-le n (x / 2))

low-le : (n x : ℕ) → low n x ≤ x
unfolding low
low-le zero x = omega arith
low-le (suc n) x = omega (arith, low-le n (x / 2))

pub high-xor : (n a b : ℕ) → high n (bit_xor a b) ≡ bit_xor (high n a) (high n b)
unfolding high
high-xor zero a b = refl
high-xor (suc n) a b = ap (high n) (xor-half a b) ∙ high-xor n (a / 2) (b / 2)

-- Only the lowest `n` digits take part in `n` steps.
pub shift_out_bits-low :
    (n x : ℕ) → x < 2 ^ 32 → shift_out_bits n x ≡ bit_xor (shift_out_bits n (low n x)) (high n x)
unfolding shift_out shift_out_bits low high
shift_out_bits-low zero x h = sym (zero-xor x)
shift_out_bits-low (suc n) x h =
    let y = 2 * low n (x / 2) + x % 2 in
    let half : y / 2 ≡ low n (x / 2) = omega arith in
    let same : feedback y ≡ feedback x = ap (λ t. if t == 0 then 0 else polynomial) (omega arith) in
    let lower = low-le n (x / 2) in
    let upper = high-le n (x / 2) in
    let fed = feedback-lt x in
    let ih = shift_out_bits-low n (x / 2) (omega arith) in
    let spread = shift_out_bits-xor n (x / 2) (feedback x) (omega arith) fed in
    let spread' = shift_out_bits-xor n (low n (x / 2)) (feedback x) (omega arith) fed in
    let sum_lt = shift_out_bits-lt n (low n (x / 2)) (omega arith) in
    let fed_lt = shift_out_bits-lt n (feedback x) fed in
    rw (spread, ih, half, same, spread')
      (xor-right_comm 32 (shift_out_bits n (low n (x / 2))) (high n (x / 2))
        (shift_out_bits n (feedback x)) sum_lt (omega arith) fed_lt)

pub low-eight : (x : ℕ) → low 8 x ≡ x % 256
unfolding low
low-eight x = omega arith

pub high-eight : (x : ℕ) → high 8 x ≡ x / 2 ^ 8
unfolding high
high-eight x = omega arith

high-small : (n x : ℕ) → x < 2 ^ n → high n x ≡ 0
unfolding high
high-small zero x h = omega arith
high-small (suc n) x h = high-small n (x / 2) (omega (arith, pow-suc 2 n))

-- The bit that left shows at the top of the register.
top_bit : (x : ℕ) → x < 2 ^ 32 → high 31 (shift_out x) ≡ x % 2
unfolding shift_out high
top_bit x h =
    high-xor 31 (x / 2) (feedback x)
    ∙ ap (λ t. bit_xor t (high 31 (feedback x))) (high-small 31 (x / 2) (omega arith))
    ∙ zero-xor (high 31 (feedback x))
    ∙ top
  where
    top : high 31 (feedback x) ≡ x % 2
    top = elim (ℕ_discrete (x % 2) 0) [
      | yes e ↦ rw e refl
      | no n ↦ let odd : x % 2 ≡ 1 = omega arith in rw odd refl
    ]

shift_out_injective : (a b : ℕ) → a < 2 ^ 32 → b < 2 ^ 32 → shift_out a ≡ shift_out b → a ≡ b
unfolding shift_out
shift_out_injective a b p q e =
    let parity : a % 2 ≡ b % 2 = sym (top_bit a p) ∙ ap (high 31) e ∙ top_bit b q in
    let fed : feedback a ≡ feedback b = ap (λ t. if t == 0 then 0 else polynomial) parity in
    let half =
      xor-cancel 32 (a / 2) (b / 2) (feedback a) (omega arith) (omega arith)
        (e ∙ ap (bit_xor (b / 2)) (sym fed)) in
    omega (arith, parity, half)

pub shift_out_bits_injective :
    (n a b : ℕ) → a < 2 ^ 32 → b < 2 ^ 32 → shift_out_bits n a ≡ shift_out_bits n b → a ≡ b
unfolding shift_out_bits
shift_out_bits_injective zero a b p q e = e
shift_out_bits_injective (suc n) a b p q e =
    shift_out_injective a b p q (
      shift_out_bits_injective n (shift_out a) (shift_out b) (shift_out-lt a p) (shift_out-lt b q)
        e)
