-- ===== src/Part/Extent.antt =====
-- `bpak_part_offset`, `bpak_pkg_installed_size` and `bpak_pkg_size` as sums over the table.
use native.Mathlib.Omega.{arith}
use bpak.Prelude.{
  ℕ, zero, suc, ◌+◌, ◌%◌, ◌^◌, ◌<◌, ◌≡◌, ◌≢◌, inl, inr, List, [], ◌∷◌, ◌==◌, if◌then◌else◌, some,
  length, get_elem?, bit_and, Bool-cases,
}
use bpak.Header.{PartHeader, Header, header_size, part_size, flag_transport}
use bpak.Part.{offset_loop, part_offset, size_loop, pkg_size}
use bpak.Part.Table.{IsFilled}
use bpak.Part.Delete.{AllFree-at, Absent-at}

-- The bytes that the first `n` parts take in the file.
unfoldable pub sum_sizes : ℕ → List PartHeader → ℕ
sum_sizes zero ps = 0
sum_sizes (suc n) [] = 0
sum_sizes (suc n) (p ∷ ps) = part_size p + sum_sizes n ps

offset_loop-sum :
    (i offset : ℕ) (ps : List PartHeader) {p : PartHeader}
    → IsFilled ps
    → get_elem? ps i ≡ some p
    → p.id ≢ 0
    → offset < 2 ^ 64
    → offset_loop offset ps p.id ≡ (offset + sum_sizes i ps) % 2 ^ 64
unfolding offset_loop sum_sizes
offset_loop-sum i offset [] f e live h = cc
offset_loop-sum i offset (q ∷ ps) (inl (z, f)) e live h =
    absurd (live (AllFree-at (q ∷ ps) i (z, f) e))
offset_loop-sum zero offset (q ∷ ps) {p} (inr (l, a, f)) e live h = ground arith
offset_loop-sum (suc i) offset (q ∷ ps) {p} (inr (l, a, f)) e live h =
    let ih =
      offset_loop-sum i ((offset + part_size q) % 2 ^ 64) ps {p = p} f e live (omega arith) in
    ground (arith, ih, Absent-at ps q.id i {p = p} a e)

-- On a filled part table, the offset of the used part in slot `i` is the header's size plus the stored
-- sizes, with padding, of the parts in front of it, modulo 2^64.
pub part_offset_lem :
    (h : Header) (i : ℕ) {p : PartHeader}
    → IsFilled h.parts
    → get_elem? h.parts i ≡ some p
    → p.id ≢ 0
    → part_offset h p ≡ (header_size + sum_sizes i h.parts) % 2 ^ 64
unfolding part_offset
part_offset_lem h i {p} f e live =
    offset_loop-sum i header_size h.parts {p = p} f e live (omega arith)

-- The bytes behind the data of the parts that are not encoded for transport.
unfoldable pub sum_padding : List PartHeader → ℕ
sum_padding [] = 0
sum_padding (p ∷ ps) =
    (if bit_and p.flags flag_transport == 0 then p.pad_bytes else 0) + sum_padding ps

size_loop-padding :
    (acc : ℕ) (ps : List PartHeader)
    → (size_loop acc ps + sum_padding ps) % 2 ^ 64 ≡ (acc + sum_sizes (length ps) ps) % 2 ^ 64
unfolding size_loop sum_padding sum_sizes part_size
size_loop-padding acc [] = omega arith
size_loop-padding acc (p ∷ ps) = elim (Bool-cases (bit_and p.flags flag_transport == 0)) [
  | inl plain ↦
      let ih = size_loop-padding ((acc + p.size) % 2 ^ 64) ps in rw plain (omega (arith, ih))
  | inr encoded ↦
      let ih = size_loop-padding ((acc + p.transport_size) % 2 ^ 64) ps in
      rw encoded (omega (arith, ih))
]

-- Modulo 2^64, `bpak_pkg_size` falls short of the header and all stored parts by the padding of the parts
-- that are not encoded for transport.
pub pkg_size-padding :
    (h : Header)
    → (pkg_size h + sum_padding h.parts) % 2 ^ 64
      ≡ (header_size + sum_sizes (length h.parts) h.parts) % 2 ^ 64
unfolding pkg_size
pkg_size-padding h = omega (arith, size_loop-padding 0 h.parts)
