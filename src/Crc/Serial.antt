-- ===== src/Crc/Serial.antt =====
-- The table driven CRC32 against the bit by bit one, and its dependence on the start value.
use native.Mathlib.Omega.{arith}
use bpak.Prelude.{
  ℕ, ◌/◌, ◌^◌, ◌<◌, bit_and, bit_and-ones, bit_xor, ◌≡◌, refl, true, sym, ap₂, ◌∙◌, List, [], ◌∷◌,
  All, ◌==◌, ==_iff, get_or, xor-lt, xor-zero, xor-cancel, try_from, try_from-get,
}
use bpak.Crc.{crc32_table, crc32}
use bpak.Crc.Shift.{
  low, high, shift_out, shift_out_bits, shift_out_bits-lt, high-xor, shift_out_bits-low, low-eight,
  high-eight, shift_out_bits_injective,
}

-- The reference: each byte is added to the register, and eight bits leave it.
unfoldable pub serial_crc : ℕ → List ℕ → ℕ
serial_crc crc [] = crc
serial_crc crc (p ∷ ps) = serial_crc (shift_out_bits 8 (bit_xor crc p)) ps

table_holds : try_from (λ b. get_or crc32_table b 0 == shift_out_bits 8 b) 0 256 ≡ true
unfolding try_from shift_out_bits shift_out
table_holds = refl

-- The table holds what eight steps make of each byte.
table_lem : (b : ℕ) → b < 256 → get_or crc32_table b 0 ≡ shift_out_bits 8 b
table_lem b h = (==_iff _ _).0 (try_from-get _ 0 256 table_holds b (omega arith) h)

byte_lem :
    (crc p : ℕ)
    → crc < 2 ^ 32
    → p < 256
    → bit_xor (get_or crc32_table (bit_and (bit_xor crc p) 0xff) 0) (crc / 2 ^ 8)
      ≡ shift_out_bits 8 (bit_xor crc p)
byte_lem crc p h k =
    let x = bit_xor crc p in
    let x_lt = xor-lt 32 crc p h (omega arith) in
    let index : bit_and x 0xff ≡ low 8 x = bit_and-ones 8 x ∙ sym (low-eight x) in
    let byte : low 8 x < 256 = omega (arith, low-eight x) in
    let none_left : high 8 p ≡ 0 = high-eight p ∙ omega arith in
    let upper : high 8 x ≡ crc / 2 ^ 8 =
      high-xor 8 crc p
      ∙ ap₂ bit_xor (high-eight crc) none_left
      ∙ xor-zero 32 (crc / 2 ^ 8) (omega arith) in
    rw (shift_out_bits-low 8 x x_lt, upper, index, table_lem (low 8 x) byte) refl

-- A byte string, as numbers.
abbrev pub IsByte : ℕ → Type 0
IsByte b = b < 256

-- The table driven CRC of bytes is the bit by bit one, from every 32 bit start value.
pub crc32_lem :
    (crc : ℕ) (buf : List ℕ) → crc < 2 ^ 32 → All IsByte buf → crc32 crc buf ≡ serial_crc crc buf
unfolding crc32 serial_crc
crc32_lem crc [] h bytes = refl
crc32_lem crc (p ∷ ps) h (b, bytes) =
    let x_lt = xor-lt 32 crc p h (omega arith) in
    rw (byte_lem crc p h b) (
      crc32_lem (shift_out_bits 8 (bit_xor crc p)) ps (shift_out_bits-lt 8 (bit_xor crc p) x_lt)
        bytes)

-- No two start values give one CRC of the same bytes.
pub serial_crc_injective :
    (a b : ℕ) (buf : List ℕ)
    → a < 2 ^ 32
    → b < 2 ^ 32
    → All IsByte buf
    → serial_crc a buf ≡ serial_crc b buf
    → a ≡ b
unfolding serial_crc
serial_crc_injective a b [] p q bytes e = e
serial_crc_injective a b (c ∷ cs) p q (byte, bytes) e =
    let p' = xor-lt 32 a c p (omega arith) in
    let q' = xor-lt 32 b c q (omega arith) in
    let next =
      serial_crc_injective (shift_out_bits 8 (bit_xor a c)) (shift_out_bits 8 (bit_xor b c)) cs
        (shift_out_bits-lt 8 (bit_xor a c) p') (shift_out_bits-lt 8 (bit_xor b c) q') bytes e in
    xor-cancel 32 a b c p q (shift_out_bits_injective 8 (bit_xor a c) (bit_xor b c) p' q' next)
