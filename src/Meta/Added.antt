-- ===== src/Meta/Added.antt =====
-- The loop of `bpak_add_meta`: its result, and a successful run as a relation on the slots.

use native.Mathlib.Omega.{arith}
use bpak.Prelude.{
  ℕ, zero, suc, ◌+◌, ◌%◌, ◌^◌, ◌≤◌, ◌≡◌, refl, ◌≢◌, ◌⊎◌, inl, inr, true, ◌&&◌, List, [], ◌∷◌, ◌==◌,
  ltb, leb, if◌then◌else◌, none, some, length, Bool-cases, sym, subst, subst₂, ◌∙◌, get_elem?, set,
}
use bpak.Status.{Result, ok, err, no_space_left, exists}
use bpak.Header.{MetaHeader, metadata_bytes}
use bpak.Meta.{add_loop, get_meta_int, succ_index, align_size}
use bpak.Meta.Layout.{
  round8, align_size_lem, AllFree, Packed, Absent, Unique, count_used, next_offset, AllFree-Packed,
}

-- The result that the layout calls for.
pub outcome : ℕ → List MetaHeader → ℕ → ℕ → ℕ → Result ℕ
outcome off ms id ref size = elim (get_meta_int ms id ref true) [
  | some i ↦ err exists
  | none ↦
      if leb (length ms) (count_used ms)
      then err no_space_left
      else if ltb metadata_bytes (next_offset off ms + size)
      then err no_space_left
      else ok (count_used ms)
]

pub get-AllFree :
    (ms : List MetaHeader) (id ref : ℕ) → id ≢ 0 → AllFree ms → get_meta_int ms id ref true ≡ none
unfolding get_meta_int
get-AllFree [] id ref h f = refl
get-AllFree (m ∷ ms) id ref h (e, f) = ground (arith, get-AllFree ms id ref h f)

pub add_loop-outcome :
    (off : ℕ) (ms : List MetaHeader) (id ref size : ℕ)
    → off ≤ metadata_bytes
    → id ≢ 0
    → Packed off ms
    → (add_loop off ms id ref size).0 ≡ outcome off ms id ref size
unfolding add_loop outcome get_meta_int count_used next_offset
add_loop-outcome off [] id ref size h n p = refl
add_loop-outcome off (m ∷ ms) id ref size h n (inl (e, f)) =
    ground (arith, get-AllFree ms id ref n f)
add_loop-outcome off (m ∷ ms) id ref size h n (inr (live, at, fits, p)) =
    let ih = add_loop-outcome (round8 (off + m.size)) ms id ref size (omega arith) n p in
    ground (arith, ih, align_size_lem (off + m.size) fits)

flip_ne : {a b c d : ℕ} → (a ≢ b) ⊎ (c ≢ d) → (b ≢ a) ⊎ (d ≢ c)
flip_ne (inl h) = inl (λ e. h (sym e))
flip_ne (inr h) = inr (λ e. h (sym e))

AllFree-Absent : (ms : List MetaHeader) (id ref : ℕ) → id ≢ 0 → AllFree ms → Absent id ref ms
AllFree-Absent [] id ref n f = tt
AllFree-Absent (m ∷ ms) id ref n (e, f) = (inl (λ h. n (sym h ∙ e)), AllFree-Absent ms id ref n f)

-- A successful run of the loop, slot by slot.
module _ (id ref size : ℕ) where
  abbrev pub entry : MetaHeader → ℕ → MetaHeader
  entry m off = record m { id = id; offset = off; size = size; part_id_ref = ref }

  pub data Added : ℕ → List MetaHeader → ℕ → List MetaHeader → Type 0 where
    here :
        {off : ℕ} {m : MetaHeader} {ms : List MetaHeader}
        → m.id ≡ 0
        → off + size ≤ metadata_bytes
        → Added off (m ∷ ms) zero (entry m off ∷ ms)
    there :
        {off : ℕ} {m : MetaHeader} {ms : List MetaHeader} {i : ℕ} {ms' : List MetaHeader}
        → m.id ≢ 0
        → (m.id ≢ id) ⊎ (m.part_id_ref ≢ ref)
        → Added (align_size ((off + m.size) % 2 ^ 16)) ms i ms'
        → Added off (m ∷ ms) (suc i) (m ∷ ms')

  succ_index-ok : (r : Result ℕ) {i : ℕ} → succ_index r ≡ ok i → (j : ℕ) × (i ≡ suc j) × (r ≡ ok j)
  unfolding succ_index
  succ_index-ok (ok j) h = (j, ground arith, refl)
  succ_index-ok (err e) h = cc

  pub add_loop-Added :
      (off : ℕ) (ms : List MetaHeader) (i : ℕ)
      → (add_loop off ms id ref size).0 ≡ ok i
      → Added off ms i (add_loop off ms id ref size).1
  unfolding add_loop
  add_loop-Added off [] i h = cc
  add_loop-Added off (m ∷ ms) i h = elim (Bool-cases (m.id == 0)) [
    | inl free ↦
        let slot : (add_loop off (m ∷ ms) id ref size).1 ≡ entry m off ∷ ms = ground arith in
        let first : i ≡ 0 = ground arith in
        subst₂ (Added off (m ∷ ms)) (sym first) (sym slot) (here (ground arith) (ground arith))
    | inr live ↦ elim (Bool-cases (m.id == id && m.part_id_ref == ref)) [
      | inl same ↦ absurd (ground arith)
      | inr other ↦
          let off' = align_size ((off + m.size) % 2 ^ 16) in
          let (j, e, r) = succ_index-ok (add_loop off' ms id ref size).0 {i = i} (ground arith) in
          let slots : (add_loop off (m ∷ ms) id ref size).1 ≡ m ∷ (add_loop off' ms id ref size).1 =
            ground arith in
          subst₂ (Added off (m ∷ ms)) (sym e) (sym slots)
            (there (ground arith) (ground arith) (add_loop-Added off' ms j r))
    ]
  ]

  pub Added-Packed :
      {off : ℕ} {ms : List MetaHeader} {i : ℕ} {ms' : List MetaHeader}
      → id ≢ 0
      → Added off ms i ms'
      → Packed off ms
      → Packed off ms'
  Added-Packed n (here e fits) (inl (free, f)) = inr (n, refl, fits, AllFree-Packed _ _ f)
  Added-Packed n (here e fits) (inr (live, at, fits', p)) = absurd (live e)
  Added-Packed n (there live other a) (inl (free, f)) = absurd (live free)
  Added-Packed n (there {off = off} {m = m} {ms = ms} {ms' = ms'} live other a)
        (inr (l, at, fits, p)) =
      let e = align_size_lem (off + m.size) fits in
      inr (
        l,
        at,
        fits,
        subst (λ k. Packed k ms') e (Added-Packed n a (subst (λ k. Packed k ms) (sym e) p)),
      )

  pub Added-Absent :
      {off : ℕ} {ms : List MetaHeader} {i : ℕ} {ms' : List MetaHeader}
      → Added off ms i ms'
      → (id' ref' : ℕ) → (id ≢ id') ⊎ (ref ≢ ref')
      → Absent id' ref' ms
      → Absent id' ref' ms'
  Added-Absent (here e fits) id' ref' ne (a, rest) = (ne, rest)
  Added-Absent (there live other r) id' ref' ne (a, rest) = (a, Added-Absent r id' ref' ne rest)

  pub Added-Unique :
      {off : ℕ} {ms : List MetaHeader} {i : ℕ} {ms' : List MetaHeader}
      → id ≢ 0
      → Added off ms i ms'
      → Packed off ms
      → Unique ms
      → Unique ms'
  Added-Unique n (here {ms = ms} e fits) (inl (free, f)) (u, us) =
      (inr (AllFree-Absent ms id ref n f), us)
  Added-Unique n (here e fits) (inr (live, at, fits', p)) u = absurd (live e)
  Added-Unique n (there live other r) (inl (free, f)) u = absurd (live free)
  Added-Unique n (there live other r) (inr (l, at, fits, p)) (inl z, us) = absurd (l z)
  Added-Unique n (there {off = off} {m = m} {ms = ms} live other r) (inr (l, at, fits, p))
        (inr a, us) =
      let e = align_size_lem (off + m.size) fits in
      (
        inr (Added-Absent r m.id m.part_id_ref (flip_ne other) a),
        Added-Unique n r (subst (λ k. Packed k ms) (sym e) p) us,
      )

  -- What a lookup finds afterwards.
  pub Added-get :
      {off : ℕ} {ms : List MetaHeader} {i : ℕ} {ms' : List MetaHeader}
      → Added off ms i ms'
      → (id' ref' : ℕ) → id' ≢ 0
      → get_meta_int ms' id' ref' true
        ≡ (if id == id' && ref == ref' then some i else get_meta_int ms id' ref' true)
  unfolding get_meta_int
  Added-get (here e fits) id' ref' n = ground arith
  Added-get (there live other r) id' ref' n = ground (arith, Added-get r id' ref' n)

  -- One slot is written, with the first free aligned offset.
  pub Added-entry :
      {off : ℕ} {ms : List MetaHeader} {i : ℕ} {ms' : List MetaHeader}
      → Added off ms i ms'
      → Packed off ms
      → (m : MetaHeader) × (get_elem? ms i ≡ some m)
        × (m.id ≡ 0)
        × (ms' ≡ set ms i (entry m (next_offset off ms)))
        × (next_offset off ms + size ≤ metadata_bytes)
  unfolding next_offset
  Added-entry (here {off = off} {m = m} e fits) p = (m, refl, e, ground arith, ground arith)
  Added-entry (there live other r) (inl (free, f)) = absurd (live free)
  Added-entry (there {off = off} {m = m} {ms = ms} live other r) (inr (l, at, fits, p)) =
      let e = align_size_lem (off + m.size) fits in
      let (m', slot, free, written, room) = Added-entry r (subst (λ k. Packed k ms) (sym e) p) in
      (m', slot, free, ground arith, ground arith)
