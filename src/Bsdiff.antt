-- ===== src/Bsdiff.antt =====
-- lib/bsdiff.c: making a patch. Here the context and the search for a piece of the new data in the origin,
-- with the suffix array that `sais` has made as a list. Positions are numbers, the offset and the scores
-- integers.
pub mod Compress
pub mod Segment
pub mod Search
pub mod Scan
pub mod Progress
pub mod Pieces
pub mod Rebuild
pub mod RoundTrip
use bpak.Prelude.{
  ℕ, zero, suc, ◌+◌, ◌-◌, ◌/◌, ◌%◌, ◌^◌, Option, none, some, List, [], ◌∷◌, Bool, true, false, ltb,
  ◌==◌, if◌then◌else◌, length, get_or, drop,
}
use bpak.Int.{ℤ, pos, negsuc, ltb_ℤ}
use bpak.Patch.Stream.{Compression}

-- `struct bpak_bsdiff_context` without the callback; `compressor` is what `compressor_priv` points to.
pub record Diff (C : Type 0) : Type 0 where
  pub origin_data : List ℕ
  pub new_data : List ℕ
  pub suffix_array : List ℕ
  pub scan : ℕ
  pub len : ℕ
  pub pos : ℕ
  pub last_scan : ℕ
  pub last_pos : ℕ
  pub last_offset : ℤ
  pub output_offset : ℤ
  pub output_pos : ℕ
  pub compression : Compression
  pub compressor : C

-- The loop of `matchlen`, which counts in an `int64_t`.
unfoldable pub common_length : List ℕ → List ℕ → ℕ
common_length [] to = 0
common_length (x ∷ from) [] = 0
common_length (x ∷ from) (y ∷ to) =
    let more = suc (common_length from to) in if x == y then more else 0

-- A count as an `int32_t`: the low 32 bits, of which the highest is the sign.
unfoldable pub int32 : ℕ → ℤ
int32 n = let m = n % 2 ^ 32 in if ltb m (2 ^ 31) then pos m else negsuc (2 ^ 32 - 1 - m)

-- `matchlen` returns its count as an `int32_t`.
unfoldable pub matchlen : List ℕ → List ℕ → ℤ
unfolding common_length int32
matchlen from to = int32 (common_length from to)

-- `memcmp(from, to, n) < 0` with the shorter length.
unfoldable pub is_below : List ℕ → List ℕ → Bool
is_below [] to = false
is_below (x ∷ from) [] = false
is_below (x ∷ from) (y ∷ to) = let rest = is_below from to in if x == y then rest else ltb x y

-- The length and the position of a match. `search` is called with `from_end` behind the end of the suffix
-- array; `behind` is the number that stands in memory there.
unfoldable pub suffix : List ℕ → ℕ → ℕ → ℕ
suffix sa behind i = get_or sa i behind

unfoldable pub nearer : List ℕ → List ℕ → ℕ → ℕ → ℤ × ℕ
unfolding matchlen
nearer from to begin_pos end_pos =
    let x = matchlen (drop begin_pos from) to in
    let y = matchlen (drop end_pos from) to in if ltb_ℤ y x then (x, begin_pos) else (y, end_pos)

-- `search`; the range has fuel for each of its numbers, and is halved.
unfoldable pub search_loop : ℕ → List ℕ → ℕ → List ℕ → List ℕ → ℕ → ℕ → Option (ℤ × ℕ)
unfolding nearer suffix is_below
search_loop zero sa behind from to from_begin from_end = none
search_loop (suc fuel) sa behind from to from_begin from_end =
    let x = from_begin + (from_end - from_begin) / 2 in
    elim (ltb (from_end - from_begin) 2) [
      | true ↦ some (nearer from to (suffix sa behind from_begin) (suffix sa behind from_end))
      | false ↦ elim (is_below (drop (suffix sa behind x) from) to) [
        | true ↦ search_loop fuel sa behind from to x from_end
        | false ↦ search_loop fuel sa behind from to from_begin x
      ]
    ]

unfoldable pub search_match : List ℕ → ℕ → List ℕ → List ℕ → Option (ℤ × ℕ)
unfolding search_loop
search_match sa behind from to = search_loop (length from + 1) sa behind from to 0 (length from)
