-- ===== src/Hex.antt =====
-- lib/utils.c, `bpak_bin2hex`: bytes as text.
use bpak.Prelude.{
  ℕ, suc, ◌+◌, ◌-◌, ◌*◌, ◌/◌, ◌≤◌, ◌≡◌, min, Bool, true, false, Bool-cases, inl, inr, List, [], ◌∷◌,
  ltb, leb, bit_and, if◌then◌else◌, length, arith, ◌^◌, ◌∙◌, ap,
}

-- The letter of a number below 16.
unfoldable pub hex_digit : ℕ → ℕ
hex_digit b = if ltb 9 b then 97 + (b - 10) else 48 + b

-- The loop from `n` on: whether it returns BPAK_OK, and the bytes written from `buf[n]` on.
unfoldable pub hex_loop : List ℕ → ℕ → ℕ → Bool × List ℕ
unfolding hex_digit
hex_loop [] n buf_sz = (true, 0 ∷ [])
hex_loop (b ∷ bs) n buf_sz =
    let high = hex_digit (bit_and (b / 2 ^ 4) 0x0f) in
    let low = hex_digit (bit_and b 0x0f) in
    let rest = hex_loop bs (n + 2) buf_sz in
    if ltb buf_sz (n + 1)
    then (false, high ∷ [])
    else if ltb buf_sz (n + 2)
    then (false, high ∷ low ∷ [])
    else (rest.0, high ∷ low ∷ rest.1)

unfoldable pub bin2hex : List ℕ → ℕ → Bool × List ℕ
unfolding hex_loop
bin2hex bytes buf_sz = hex_loop bytes 0 buf_sz

hex_loop-counts :
    (bytes : List ℕ) (n buf_sz : ℕ)
    → n ≤ buf_sz
    → ((hex_loop bytes n buf_sz).0 ≡ leb (n + 2 * length bytes) buf_sz)
      × (n + length (hex_loop bytes n buf_sz).1 ≡ min (n + 2 * length bytes) buf_sz + 1)
unfolding hex_loop
hex_loop-counts [] n buf_sz h = (ground arith, omega arith)
hex_loop-counts (b ∷ bs) n buf_sz h = elim (Bool-cases (ltb buf_sz (n + 1))) [
  | inl full ↦ rw (full, hex_loop) (ground arith, ground arith)
  | inr room ↦ elim (Bool-cases (ltb buf_sz (n + 2))) [
    | inl full ↦ rw (room, full, hex_loop) (ground arith, ground arith)
    | inr more ↦
        let le : n + 2 ≤ buf_sz = ground arith in
        let (same, counted) = hex_loop-counts bs (n + 2) buf_sz le in
        let sum : n + 2 + 2 * length bs ≡ n + 2 * suc (length bs) = omega arith in
        rw (room, more, hex_loop) (same ∙ ap (λ k. leb k buf_sz) sum, omega (arith, counted))
  ]
]

-- `bpak_bin2hex` succeeds exactly if the buffer has room for two digits of each byte, and writes a byte more,
-- the final zero; otherwise it writes one byte behind the end of the buffer and then returns an error. So the
-- number of bytes that it writes is one more than the smaller of the digits and the room.
pub bin2hex_lem :
    (bytes : List ℕ) (buf_sz : ℕ)
    → ((bin2hex bytes buf_sz).0 ≡ leb (2 * length bytes) buf_sz)
      × (length (bin2hex bytes buf_sz).1 ≡ min (2 * length bytes) buf_sz + 1)
unfolding bin2hex
bin2hex_lem bytes buf_sz =
    let (same, counted) = hex_loop-counts bytes 0 buf_sz (omega arith) in
    let sum : 0 + 2 * length bytes ≡ 2 * length bytes = omega arith in
    (same ∙ ap (λ k. leb k buf_sz) sum, omega (arith, counted))
