-- ===== src/Meta/Layout.antt =====
-- What a metadata table looks like that `bpak_add_meta` has filled: the entries stand at the front, each
-- at the first aligned offset behind the one before, inside the byte array, under different keys.
use native.Mathlib.Omega.{arith}
use bpak.Prelude.{
  ℕ, zero, suc, ◌+◌, ◌*◌, ◌/◌, ◌%◌, ◌^◌, ◌≤◌, ◌<◌, ◌≡◌, ◌≢◌, ◌⊎◌, inl, inr, List, [], ◌∷◌, ◌==◌,
  if◌then◌else◌, bit_and-not_seven, some, get_elem?,
}
use bpak.Header.{MetaHeader, Header, metadata_bytes}
use bpak.Meta.{align_size}

abbrev pub round8 : ℕ → ℕ
round8 x = (x + 7) / 8 * 8

pub align_size_lem : (x : ℕ) → x ≤ metadata_bytes → align_size (x % 2 ^ 16) ≡ round8 x
unfolding align_size
align_size_lem x h = omega (arith, bit_and-not_seven (x % 2 ^ 16 + 7) (omega arith))

pub align_size-round8 : (x : ℕ) → x ≤ metadata_bytes → align_size x ≡ round8 x
unfolding align_size
align_size-round8 x h = omega (arith, bit_and-not_seven (x + 7) (omega arith))

abbrev pub AllFree : List MetaHeader → Type 0
AllFree [] = Unit
AllFree (m ∷ ms) = (m.id ≡ 0) × AllFree ms

-- The slots from one on, whose entry has to start at `off`.
abbrev pub Packed : ℕ → List MetaHeader → Type 0
Packed off [] = Unit
Packed off (m ∷ ms) =
    ((m.id ≡ 0) × AllFree ms)
    ⊎ ((m.id ≢ 0)
        × (m.offset ≡ off)
        × (off + m.size ≤ metadata_bytes)
        × Packed (round8 (off + m.size)) ms)

-- No entry has this key.
abbrev pub Absent : ℕ → ℕ → List MetaHeader → Type 0
Absent id ref [] = Unit
Absent id ref (m ∷ ms) = ((m.id ≢ id) ⊎ (m.part_id_ref ≢ ref)) × Absent id ref ms

abbrev pub Unique : List MetaHeader → Type 0
Unique [] = Unit
Unique (m ∷ ms) = ((m.id ≡ 0) ⊎ Absent m.id m.part_id_ref ms) × Unique ms

-- How many entries stand at the front.
unfoldable pub count_used : List MetaHeader → ℕ
count_used [] = 0
count_used (m ∷ ms) = if m.id == 0 then 0 else suc (count_used ms)

-- Where the next entry goes.
unfoldable pub next_offset : ℕ → List MetaHeader → ℕ
next_offset off [] = off
next_offset off (m ∷ ms) = if m.id == 0 then off else next_offset (round8 (off + m.size)) ms

pub record IsValid (h : Header) : Type 0 where
  pub packed : Packed 0 h.meta
  pub unique : Unique h.meta

pub AllFree-Packed : (off : ℕ) (ms : List MetaHeader) → AllFree ms → Packed off ms
AllFree-Packed off [] f = tt
AllFree-Packed off (m ∷ ms) (e, f) = inl (e, f)

pub AllFree-get :
    (ms : List MetaHeader) (j : ℕ) {b : MetaHeader}
    → AllFree ms
    → get_elem? ms j ≡ some b
    → b.id ≡ 0
AllFree-get [] j f e = cc
AllFree-get (m ∷ ms) zero {b} (z, f) e = ground arith
AllFree-get (m ∷ ms) (suc j) (z, f) e = AllFree-get ms j f e

pub Packed-bounds :
    (off : ℕ) (ms : List MetaHeader) (j : ℕ) {b : MetaHeader}
    → Packed off ms
    → get_elem? ms j ≡ some b
    → b.id ≢ 0
    → (off ≤ b.offset) × (b.offset + b.size ≤ metadata_bytes)
Packed-bounds off [] j p e n = cc
Packed-bounds off (m ∷ ms) zero {b} (inl (free, f)) e n = absurd (ground arith)
Packed-bounds off (m ∷ ms) zero {b} (inr (l, at, fits, p)) e n = ground arith
Packed-bounds off (m ∷ ms) (suc j) (inl (free, f)) e n = absurd (n (AllFree-get ms j f e))
Packed-bounds off (m ∷ ms) (suc j) (inr (l, at, fits, p)) e n =
    omega (arith, Packed-bounds (round8 (off + m.size)) ms j p e n)

-- Two entries of a filled table do not share a byte, and the second ends inside the array.
pub Packed-disjoint :
    (off : ℕ) (ms : List MetaHeader) (i j : ℕ) {a b : MetaHeader}
    → Packed off ms
    → i < j
    → get_elem? ms i ≡ some a
    → get_elem? ms j ≡ some b
    → b.id ≢ 0
    → (a.offset + a.size ≤ b.offset) × (b.offset + b.size ≤ metadata_bytes)
Packed-disjoint off [] i j p lt ea eb n = cc
Packed-disjoint off (m ∷ ms) i zero p lt ea eb n = absurd (omega arith)
Packed-disjoint off (m ∷ ms) i (suc j) (inl (free, f)) lt ea eb n =
    absurd (n (AllFree-get ms j f eb))
Packed-disjoint off (m ∷ ms) zero (suc j) (inr (l, at, fits, p)) lt ea eb n =
    let bounds = Packed-bounds (round8 (off + m.size)) ms j p eb n in ground arith
Packed-disjoint off (m ∷ ms) (suc i) (suc j) (inr (l, at, fits, p)) lt ea eb n =
    Packed-disjoint (round8 (off + m.size)) ms i j p (omega arith) ea eb n
