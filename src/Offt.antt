-- ===== src/Offt.antt =====
-- The signed numbers of a patch's control records: `offtout` of lib/bsdiff.c writes an `int64_t` as eight
-- bytes of magnitude with a sign bit, and `offtin` of lib/bspatch.c reads it.
use native.Mathlib.Omega.{arith}
use Prim.Native.Nat.{bit_or}
use bpak.Prelude.{
  ℕ, zero, suc, ◌+◌, ◌-◌, ◌*◌, ◌/◌, ◌%◌, ◌^◌, ◌<◌, ◌≡◌, refl, ap, true, List, [], ◌∷◌, ◌==◌,
  if◌then◌else◌, bit_and, bit_and-ones, get_or, ==_iff, try_from, try_from-get,
}
use bpak.Int.{ℤ, pos, negsuc, pos_part, neg_part}

-- `-y` of a number that is not negative.
abbrev pub negate : ℕ → ℤ
negate zero = pos 0
negate (suc n) = negsuc n

-- The seven bytes below the last, lowest first, of a `y` that is not negative: `buf[i] = y % 256;
-- y -= buf[i]; y = y / 256;`. The last byte takes what is left.
out_bytes : ℕ → ℕ → List ℕ
out_bytes zero y = (y % 256) ∷ []
out_bytes (suc n) y = let b = y % 256 in b ∷ out_bytes n ((y - b) / 256)

set_sign : List ℕ → List ℕ
set_sign [] = []
set_sign (b ∷ []) = bit_or b 0x80 ∷ []
set_sign (b ∷ c ∷ bs) = b ∷ set_sign (c ∷ bs)

unfoldable pub offtout : ℤ → List ℕ
unfolding out_bytes set_sign
offtout (pos y) = out_bytes 7 y
offtout (negsuc n) = set_sign (out_bytes 7 (n + 1))

-- The bytes of `buf` from `buf[7]` down.
unfoldable pub offtin : List ℕ → ℤ
offtin buf =
    let y = bit_and (get_or buf 7 0) 0x7f in
    let y = y * 256 + get_or buf 6 0 in
    let y = y * 256 + get_or buf 5 0 in
    let y = y * 256 + get_or buf 4 0 in
    let y = y * 256 + get_or buf 3 0 in
    let y = y * 256 + get_or buf 2 0 in
    let y = y * 256 + get_or buf 1 0 in
    let y = y * 256 + get_or buf 0 0 in
    if bit_and (get_or buf 7 0) 0x80 == 0 then pos y else negate y

-- The sign bit of a byte.
plain_table : try_from (λ b. bit_and b 0x80 == 0) 0 128 ≡ true
unfolding try_from
plain_table = refl

signed_table : try_from (λ b. bit_or b 0x80 == b + 128) 0 128 ≡ true
unfolding try_from
signed_table = refl

sign_table : try_from (λ b. bit_and (b + 128) 0x80 == 128) 0 128 ≡ true
unfolding try_from
sign_table = refl

plain_byte : (b : ℕ) → b < 128 → bit_and b 0x80 ≡ 0
plain_byte b h = (==_iff _ 0).0 (try_from-get _ 0 128 plain_table b (omega arith) h)

signed_byte : (b : ℕ) → b < 128 → (bit_or b 0x80 ≡ b + 128) × (bit_and (b + 128) 0x80 ≡ 128)
signed_byte b h = (
  (==_iff _ _).0 (try_from-get _ 0 128 signed_table b (omega arith) h),
  (==_iff _ 128).0 (try_from-get _ 0 128 sign_table b (omega arith) h),
)

-- The digits of `y` to the base 256; the subtraction changes no quotient.
digits : ℕ → ℕ → List ℕ
digits zero y = (y % 256) ∷ []
digits (suc n) y = (y % 256) ∷ digits n (y / 256)

out_bytes-digits : (n y : ℕ) → out_bytes n y ≡ digits n y
unfolding out_bytes digits
out_bytes-digits zero y = refl
out_bytes-digits (suc n) y =
    let same : (y - y % 256) / 256 ≡ y / 256 = omega arith in
    rw same (ap (λ t. (y % 256) ∷ t) (out_bytes-digits n (y / 256)))

-- The eight digits of `y` to the base 256, with the highest given.
digits_of : ℕ → ℕ → List ℕ
digits_of y top =
    (y % 256)
    ∷ (y / 256 % 256)
    ∷ (y / 256 / 256 % 256)
    ∷ (y / 256 / 256 / 256 % 256)
    ∷ (y / 256 / 256 / 256 / 256 % 256)
    ∷ (y / 256 / 256 / 256 / 256 / 256 % 256)
    ∷ (y / 256 / 256 / 256 / 256 / 256 / 256 % 256)
    ∷ top
    ∷ []

top_byte : ℕ → ℕ
top_byte y = y / 256 / 256 / 256 / 256 / 256 / 256 / 256 % 256

offtout-pos : (y : ℕ) → offtout (pos y) ≡ digits_of y (top_byte y)
unfolding digits_of top_byte digits offtout
offtout-pos y = rw (out_bytes-digits 7 y, digits) refl

offtout-negsuc : (k : ℕ) → offtout (negsuc k) ≡ digits_of (k + 1) (bit_or (top_byte (k + 1)) 0x80)
unfolding digits_of top_byte digits offtout
offtout-negsuc k = ap set_sign (out_bytes-digits 7 (k + 1))

magnitude : ℕ → ℕ → ℕ
magnitude y top =
    ((((((top * 256 + y / 256 / 256 / 256 / 256 / 256 / 256 % 256) * 256
                        + y / 256 / 256 / 256 / 256 / 256 % 256)
                      * 256
                    + y / 256 / 256 / 256 / 256 % 256)
                  * 256
                + y / 256 / 256 / 256 % 256)
              * 256
            + y / 256 / 256 % 256)
          * 256
        + y / 256 % 256)
      * 256
    + y % 256

magnitude_lem : (y : ℕ) → y < 2 ^ 63 → magnitude y (top_byte y) ≡ y
unfolding magnitude top_byte
magnitude_lem y h = omega arith

top_byte-lt : (y : ℕ) → y < 2 ^ 63 → top_byte y < 128
unfolding top_byte
top_byte-lt y h = omega arith

offtin-digits :
    (y top : ℕ)
    → offtin (digits_of y top) ≡ (
        if bit_and top 0x80 == 0
        then pos (magnitude y (top % 128))
        else negate (magnitude y (top % 128)))
unfolding offtin digits_of magnitude
offtin-digits y top = rw (bit_and-ones 7 top) refl

-- `offtin` reads back every number that `offtout` writes, if its magnitude is below 2^63.
pub offtin-offtout : (x : ℤ) → pos_part x < 2 ^ 63 → neg_part x < 2 ^ 63 → offtin (offtout x) ≡ x
offtin-offtout (pos y) p n =
    let low = top_byte-lt y p in
    let top : top_byte y % 128 ≡ top_byte y = omega arith in
    rw (offtout-pos y, offtin-digits, plain_byte (top_byte y) low, top) (ap pos (magnitude_lem y p))
offtin-offtout (negsuc k) p n =
    let y = k + 1 in
    let fits : y < 2 ^ 63 = omega arith in
    let low = top_byte-lt y fits in
    let sign = signed_byte (top_byte y) low in
    let top : (top_byte y + 128) % 128 ≡ top_byte y = omega arith in
    rw (offtout-negsuc k, offtin-digits, sign.0, sign.1, top, magnitude_lem y fits) (ground arith)
