-- ===== src/Meta/Removed/Slots.antt =====
-- The slots after `bpak_del_meta`: lookups by key, and the invariant of the table.
use mathlib.Core.Option
use native.Mathlib.Omega.{arith}
use bpak.Prelude.{
  ℕ, zero, suc, ◌+◌, ◌-◌, ◌*◌, ◌/◌, ◌<◌, ◌≡◌, refl, sym, ap, ◌≢◌, ◌⊎◌, inl, inr, true, ◌&&◌, List,
  [], ◌∷◌, ltb, ◌==◌, if◌then◌else◌, Option, none, some, length, get_elem?, subst,
}
use bpak.Meta.Added.{get-AllFree}
use native.Mathlib.Decide.{ℕ_discrete}
use bpak.Header.{MetaHeader}
use bpak.Meta.{get_meta_int}
use bpak.Meta.Layout.{round8, AllFree-get, Packed, Absent, Unique, count_used}
use bpak.Meta.Slide.{shifted, slide, slide-free, slide-live, slide-Packed}
use bpak.Meta.Removed.{remove_slots}

module _ (adj : ℕ) where
  slide-Absent :
      (m : MetaHeader) (ms : List MetaHeader) (id ref : ℕ)
      → count_used ms < length ms
      → id ≢ 0
      → Absent id ref ms
      → Absent id ref (slide adj m ms)
  unfolding count_used
  slide-Absent m [] id ref u n a = absurd (omega arith)
  slide-Absent m (k ∷ ms) id ref u n (a, rest) = elim (ℕ_discrete k.id 0) [
    | yes z ↦ rw (slide-free adj m k ms z) (a, (inl (λ e. n (sym e)), rest))
    | no l ↦
        rw (slide-live adj m k ms l)
          (a, slide-Absent (shifted adj k) ms id ref (ground arith) n rest)
  ]

  slide-Unique :
      (m : MetaHeader) (ms : List MetaHeader)
      → count_used ms < length ms
      → Unique ms
      → Unique (slide adj m ms)
  unfolding count_used
  slide-Unique m [] u us = absurd (omega arith)
  slide-Unique m (k ∷ ms) u (inl z, us) = rw (slide-free adj m k ms z) (inl z, (inl refl, us))
  slide-Unique m (k ∷ ms) u (inr a, us) = elim (ℕ_discrete k.id 0) [
    | yes z ↦ rw (slide-free adj m k ms z) (inl z, (inl refl, us))
    | no l ↦
        let u' : count_used ms < length ms = ground arith in
        rw (slide-live adj m k ms l) (
          inr (slide-Absent (shifted adj k) ms k.id k.part_id_ref u' l a),
          slide-Unique (shifted adj k) ms u' us,
        )
  ]

  slide-get :
      (off : ℕ) (m : MetaHeader) (ms : List MetaHeader) (id ref : ℕ)
      → Packed off ms
      → count_used ms < length ms
      → id ≢ 0
      → get_meta_int (slide adj m ms) id ref true ≡ get_meta_int ms id ref true
  unfolding count_used get_meta_int
  slide-get off m [] id ref p u n = absurd (omega arith)
  slide-get off m (k ∷ ms) id ref (inl (z, f)) u n =
      rw (slide-free adj m k ms z, get-AllFree ms id ref n f)
        (ground (arith, get-AllFree ms id ref n f))
  slide-get off m (k ∷ ms) id ref (inr (l, at, fits, p)) u n = rw (
    slide-live adj m k ms l,
    slide-get (round8 (off + k.size)) (shifted adj k) ms id ref p (ground arith) n,
  )

  slide-length : (m : MetaHeader) (ms : List MetaHeader) → length (slide adj m ms) ≡ suc (length ms)
  unfolding slide
  slide-length m [] = refl
  slide-length m (k ∷ ms) = ground (arith, slide-length (shifted adj k) ms)

Absent-get :
    (ms : List MetaHeader) (id ref : ℕ)
    → id ≢ 0
    → Absent id ref ms
    → get_meta_int ms id ref true ≡ none
unfolding get_meta_int
Absent-get [] id ref n a = refl
Absent-get (m ∷ ms) id ref n (inl a, rest) = ground (arith, Absent-get ms id ref n rest)
Absent-get (m ∷ ms) id ref n (inr a, rest) = ground (arith, Absent-get ms id ref n rest)

Absent-at :
    (ms : List MetaHeader) (id ref i : ℕ) {m : MetaHeader}
    → Absent id ref ms
    → get_elem? ms i ≡ some m
    → (m.id ≢ id) ⊎ (m.part_id_ref ≢ ref)
Absent-at [] id ref i a e = cc
Absent-at (k ∷ ms) id ref zero {m} (a, rest) e =
    let same : k ≡ m = cc in subst (λ (t : MetaHeader). (t.id ≢ id) ⊎ (t.part_id_ref ≢ ref)) same a
Absent-at (k ∷ ms) id ref (suc i) (a, rest) e = Absent-at ms id ref i rest e

-- Where an index points after slot `i` is gone.
unfoldable pub drop_index : ℕ → ℕ → ℕ
drop_index i j = if ltb i j then j - 1 else j

drop_index-suc :
    (i : ℕ) (o : Option ℕ)
    → Option.map (drop_index (suc i)) (Option.map suc o)
      ≡ Option.map suc (Option.map (drop_index i) o)
unfolding drop_index
drop_index-suc i none = refl
drop_index-suc i (some j) = ground arith

map_drop_zero : (o : Option ℕ) → Option.map (drop_index 0) (Option.map suc o) ≡ o
unfolding drop_index
map_drop_zero none = refl
map_drop_zero (some j) = ground arith

pub remove_slots-get :
    (off i : ℕ) (ms : List MetaHeader) (id ref : ℕ) {m : MetaHeader}
    → Packed off ms
    → Unique ms
    → count_used ms < length ms
    → get_elem? ms i ≡ some m
    → m.id ≢ 0
    → id ≢ 0
    → get_meta_int (remove_slots i ms) id ref true ≡ (
        if m.id == id && m.part_id_ref == ref
        then none
        else Option.map (drop_index i) (get_meta_int ms id ref true))
unfolding remove_slots count_used get_meta_int drop_index
remove_slots-get off i [] id ref p us u e live n = cc
remove_slots-get off i (k ∷ ms) id ref (inl (free, f)) us u e live n =
    absurd (live (AllFree-get (k ∷ ms) i (free, f) e))
remove_slots-get off zero (k ∷ ms) id ref (inr (l, at, fits, p)) (inl z, us) u e live n =
    absurd (l z)
remove_slots-get off zero (k ∷ ms) id ref {m} (inr (l, at, fits, p)) (inr a, us) u e live n =
    let same : k ≡ m = cc in
    rw (← same, slide-get (round8 k.size) (round8 (off + k.size)) k ms id ref p (ground arith) n)
      (ground
        (arith, Absent-get ms k.id k.part_id_ref l a, map_drop_zero (get_meta_int ms id ref true)))
remove_slots-get off (suc i) (k ∷ ms) id ref (inr (l, at, fits, p)) (inl z, us) u e live n =
    absurd (l z)
remove_slots-get off (suc i) (k ∷ ms) id ref {m} (inr (l, at, fits, p)) (inr a, us) u e live n =
    let ih =
      remove_slots-get (round8 (off + k.size)) i ms id ref {m = m} p us (ground arith) e live n in
    ground (
      arith,
      ih,
      Absent-at ms k.id k.part_id_ref i {m = m} a e,
      drop_index-suc i (get_meta_int ms id ref true),
    )

remove_slots-Absent :
    (off i : ℕ) (ms : List MetaHeader) (id ref : ℕ) {m : MetaHeader}
    → Packed off ms
    → count_used ms < length ms
    → get_elem? ms i ≡ some m
    → m.id ≢ 0
    → id ≢ 0
    → Absent id ref ms
    → Absent id ref (remove_slots i ms)
unfolding remove_slots count_used
remove_slots-Absent off i [] id ref p u e live n a = tt
remove_slots-Absent off i (k ∷ ms) id ref (inl (free, f)) u e live n a =
    absurd (live (AllFree-get (k ∷ ms) i (free, f) e))
remove_slots-Absent off zero (k ∷ ms) id ref (inr (l, at, fits, p)) u e live n (a, rest) =
    slide-Absent (round8 k.size) k ms id ref (ground arith) n rest
remove_slots-Absent off (suc i) (k ∷ ms) id ref {m} (inr (l, at, fits, p)) u e live n (a, rest) = (
  a,
  remove_slots-Absent (round8 (off + k.size)) i ms id ref {m = m} p (ground arith) e live n rest,
)

-- Removing keeps a table with a free slot filled, with unique keys, and of its length.
pub remove_slots-IsValid :
    (c i : ℕ) (ms : List MetaHeader) {m : MetaHeader}
    → Packed (8 * c) ms
    → Unique ms
    → count_used ms < length ms
    → get_elem? ms i ≡ some m
    → m.id ≢ 0
    → Packed (8 * c) (remove_slots i ms)
      × Unique (remove_slots i ms)
      × (length (remove_slots i ms) ≡ length ms)
unfolding remove_slots count_used
remove_slots-IsValid c i [] p us u e live = cc
remove_slots-IsValid c i (k ∷ ms) (inl (free, f)) us u e live =
    absurd (live (AllFree-get (k ∷ ms) i (free, f) e))
remove_slots-IsValid c i (k ∷ ms) (inr (l, at, fits, p)) (inl z, us) u e live = absurd (l z)
remove_slots-IsValid c zero (k ∷ ms) (inr (l, at, fits, p)) (inr a, us) u e live =
    let back : round8 (8 * c + k.size) ≡ 8 * c + round8 k.size = omega arith in
    let u' : count_used ms < length ms = ground arith in
    (
      slide-Packed (round8 k.size) (8 * c) ((k.size + 7) / 8) k ms (omega arith) u'
          (subst (λ t. Packed t ms) back p),
      slide-Unique (round8 k.size) k ms u' us,
      slide-length (round8 k.size) k ms,
    )
remove_slots-IsValid c (suc i) (k ∷ ms) {m} (inr (l, at, fits, p)) (inr a, us) u e live =
    let next : ℕ = (8 * c + k.size + 7) / 8 in
    let back : round8 (8 * c + k.size) ≡ 8 * next = omega arith in
    let u' : count_used ms < length ms = ground arith in
    let (packed, unique, len) =
      remove_slots-IsValid next i ms {m = m} (subst (λ t. Packed t ms) back p) us u' e live in
    (
      inr (l, at, fits, subst (λ t. Packed t (remove_slots i ms)) (sym back) packed),
      (
        inr (
            remove_slots-Absent (round8 (8 * c + k.size)) i ms k.id k.part_id_ref {m = m} p u' e
              live l a),
        unique,
      ),
      ap suc len,
    )
