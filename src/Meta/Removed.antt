-- ===== src/Meta/Removed.antt =====
-- What `bpak_del_meta` makes of the slots and of the bytes of a filled table.
pub mod Slots
pub mod Bytes
use mathlib.Core.Option
use native.Mathlib.Omega.{arith}
use bpak.Prelude.{
  ℕ, zero, suc, ◌+◌, ◌-◌, ◌*◌, ◌/◌, ◌<◌, ◌≡◌, refl, sym, ap, ◌≢◌, ◌⊎◌, inl, inr, true, ◌&&◌, List,
  [], ◌∷◌, ltb, leb, ◌==◌, if◌then◌else◌, Option, none, some, length, get_elem?, get_or, subst, ◌∙◌,
}
use bpak.Meta.Added.{get-AllFree}
use native.Mathlib.Decide.{ℕ_discrete}
use bpak.Header.{MetaHeader, metadata_bytes}
use bpak.Meta.{del_at, get_meta_int}
use bpak.Meta.Layout.{round8, align_size-round8, AllFree-get, Packed, Absent, Unique, count_used}
use bpak.Meta.Slide.{
  moved, length-moved, shifted, slide, slide-free, slide-live, slide_bytes, del_loop-slide,
  slide-Packed, slide_bytes-below, slide_bytes-entry,
}

-- The slots and the bytes after a deletion in slot `i`.
unfoldable pub remove_slots : ℕ → List MetaHeader → List MetaHeader
remove_slots i [] = []
remove_slots zero (m ∷ ms) = slide (round8 m.size) m ms
remove_slots (suc i) (m ∷ ms) = m ∷ remove_slots i ms

unfoldable pub remove_bytes : ℕ → List MetaHeader → List ℕ → List ℕ
remove_bytes i [] bytes = bytes
remove_bytes zero (m ∷ ms) bytes = slide_bytes (round8 m.size) ms bytes
remove_bytes (suc i) (m ∷ ms) bytes = remove_bytes i ms bytes

pub del_at-remove :
    (c i : ℕ) (ms : List MetaHeader) (bytes : List ℕ) {m : MetaHeader}
    → Packed (8 * c) ms
    → length bytes ≡ metadata_bytes
    → get_elem? ms i ≡ some m
    → m.id ≢ 0
    → del_at i ms bytes
      ≡ some (record {
        slots = remove_slots i ms;
        bytes = remove_bytes i ms bytes;
        past_end = leb (length ms) (count_used ms);
      })
unfolding del_at remove_slots remove_bytes count_used
del_at-remove c i [] bytes p len e live = cc
del_at-remove c i (n ∷ ms) bytes (inl (free, f)) len e live =
    absurd (live (AllFree-get (n ∷ ms) i (free, f) e))
del_at-remove c zero (n ∷ ms) bytes (inr (l, at, fits, p)) len e live =
    let adj : ℕ = round8 n.size in
    let back : round8 (8 * c + n.size) ≡ 8 * c + adj = omega arith in
    let run = del_loop-slide adj (8 * c) n ms bytes (subst (λ t. Packed t ms) back p) len in
    rw (align_size-round8 n.size (omega arith)) (run ∙ ground arith)
del_at-remove c (suc i) (n ∷ ms) bytes (inr (l, at, fits, p)) len e live =
    let next : ℕ = (8 * c + n.size + 7) / 8 in
    let back : round8 (8 * c + n.size) ≡ 8 * next = omega arith in
    let ih = del_at-remove next i ms bytes (subst (λ t. Packed t ms) back p) len e live in
    ground (arith, ih)

slide-full :
    (adj : ℕ) (m : MetaHeader) (ms : List MetaHeader)
    → m.id ≢ 0
    → count_used ms ≡ length ms
    → count_used (slide adj m ms) ≡ suc (length ms)
unfolding slide count_used
slide-full adj m [] l full = ground arith
slide-full adj m (k ∷ ms) l full = ground (arith, slide-full adj (shifted adj k) ms)

-- In a table with no free slot, removing an entry frees none.
pub remove_slots-full :
    (i : ℕ) (ms : List MetaHeader) {m : MetaHeader}
    → count_used ms ≡ length ms
    → get_elem? ms i ≡ some m
    → m.id ≢ 0
    → count_used (remove_slots i ms) ≡ length ms
unfolding remove_slots count_used
remove_slots-full i [] full e live = refl
remove_slots-full zero (k ∷ ms) {m} full e live =
    let same : k.id ≡ m.id = ground arith in
    slide-full (round8 k.size) k ms (rw same live) (ground arith)
remove_slots-full (suc i) (k ∷ ms) {m} full e live =
    ground (arith, remove_slots-full i ms {m = m} (ground arith) e live)
