-- ===== src/Part/Table.antt =====
-- `bpak_add_part` on a filled part table, against lookups by `bpak_get_part`.
use native.Mathlib.Omega.{arith}
use native.Mathlib.Decide.{ℕ_discrete}
use bpak.Prelude.{
  ℕ, zero, suc, ◌≡◌, refl, sym, ◌∙◌, ◌≢◌, ◌⊎◌, inl, inr, List, [], ◌∷◌, leb, ◌==◌, if◌then◌else◌,
  none, some, length, subst₂,
}
use bpak.Status.{Result, ok, err, no_space_left, exists}
use bpak.Header.{PartHeader, Header}
use bpak.Part.{get_loop, get_part, succ_index, add_loop, add_part}

abbrev pub AllFree : List PartHeader → Type 0
AllFree [] = Unit
AllFree (p ∷ ps) = (p.id ≡ 0) × AllFree ps

abbrev pub Absent : ℕ → List PartHeader → Type 0
Absent id [] = Unit
Absent id (p ∷ ps) = (p.id ≢ id) × Absent id ps

-- The entries stand at the front, under different ids.
abbrev pub IsFilled : List PartHeader → Type 0
IsFilled [] = Unit
IsFilled (p ∷ ps) = ((p.id ≡ 0) × AllFree ps) ⊎ ((p.id ≢ 0) × Absent p.id ps × IsFilled ps)

unfoldable pub count_used : List PartHeader → ℕ
count_used [] = 0
count_used (p ∷ ps) = if p.id == 0 then 0 else suc (count_used ps)

pub AllFree-Absent : (ps : List PartHeader) (id : ℕ) → id ≢ 0 → AllFree ps → Absent id ps
AllFree-Absent [] id n f = tt
AllFree-Absent (p ∷ ps) id n (e, f) = ((λ h. n (sym h ∙ e)), AllFree-Absent ps id n f)

pub Absent-get : (ps : List PartHeader) (id : ℕ) → Absent id ps → get_loop ps id ≡ none
unfolding get_loop
Absent-get [] id a = refl
Absent-get (p ∷ ps) id (n, a) = ground (arith, Absent-get ps id a)

AllFree-IsFilled : (ps : List PartHeader) → AllFree ps → IsFilled ps
AllFree-IsFilled [] f = tt
AllFree-IsFilled (p ∷ ps) f = inl f

-- The result that the table calls for.
pub outcome : List PartHeader → ℕ → Result ℕ
outcome ps id = elim (get_loop ps id) [
  | some i ↦ err exists
  | none ↦ if leb (length ps) (count_used ps) then err no_space_left else ok (count_used ps)
]

add_loop-outcome :
    (ps : List PartHeader) (id : ℕ) → id ≢ 0 → IsFilled ps → (add_loop ps id).0 ≡ outcome ps id
unfolding add_loop outcome get_loop count_used
add_loop-outcome [] id n f = refl
add_loop-outcome (p ∷ ps) id n (inl (e, f)) =
    ground (arith, Absent-get ps id (AllFree-Absent ps id n f))
add_loop-outcome (p ∷ ps) id n (inr (l, a, f)) = ground (arith, add_loop-outcome ps id n f)

succ_index-ok : (r : Result ℕ) {i : ℕ} → succ_index r ≡ ok i → (j : ℕ) × (i ≡ suc j) × (r ≡ ok j)
unfolding succ_index
succ_index-ok (ok j) h = (j, ground arith, refl)
succ_index-ok (err e) h = cc

-- A successful run of the loop, slot by slot.
module _ (id : ℕ) where
  pub data Added : List PartHeader → ℕ → List PartHeader → Type 0 where
    here :
        {p : PartHeader} {ps : List PartHeader}
        → p.id ≡ 0
        → Added (p ∷ ps) zero (record p { id = id } ∷ ps)
    there :
        {p : PartHeader} {ps : List PartHeader} {i : ℕ} {ps' : List PartHeader}
        → p.id ≢ 0
        → p.id ≢ id
        → Added ps i ps'
        → Added (p ∷ ps) (suc i) (p ∷ ps')

  pub add_loop-Added :
      (ps : List PartHeader) (i : ℕ) → (add_loop ps id).0 ≡ ok i → Added ps i (add_loop ps id).1
  unfolding add_loop
  add_loop-Added [] i h = cc
  add_loop-Added (p ∷ ps) i h = elim (ℕ_discrete p.id 0) [
    | yes free ↦
        let slots : (add_loop (p ∷ ps) id).1 ≡ record p { id = id } ∷ ps = ground arith in
        let first : i ≡ 0 = ground arith in
        subst₂ (Added (p ∷ ps)) (sym first) (sym slots) (here free)
    | no live ↦ elim (ℕ_discrete p.id id) [
      | yes same ↦ absurd (ground arith)
      | no other ↦
          let (j, e, r) = succ_index-ok (add_loop ps id).0 {i = i} (ground arith) in
          let slots : (add_loop (p ∷ ps) id).1 ≡ p ∷ (add_loop ps id).1 = ground arith in
          subst₂ (Added (p ∷ ps)) (sym e) (sym slots) (there live other (add_loop-Added ps j r))
    ]
  ]

  Added-get :
      {ps : List PartHeader} {i : ℕ} {ps' : List PartHeader}
      → Added ps i ps'
      → (id' : ℕ) → id' ≢ 0
      → get_loop ps' id' ≡ (if id == id' then some i else get_loop ps id')
  unfolding get_loop
  Added-get (here e) id' n = ground arith
  Added-get (there live other r) id' n = ground (arith, Added-get r id' n)

  Added-Absent :
      {ps : List PartHeader} {i : ℕ} {ps' : List PartHeader}
      → Added ps i ps'
      → (id' : ℕ) → id ≢ id'
      → Absent id' ps
      → Absent id' ps'
  Added-Absent (here e) id' ne (a, rest) = (ne, rest)
  Added-Absent (there live other r) id' ne (a, rest) = (a, Added-Absent r id' ne rest)

  Added-IsFilled :
      {ps : List PartHeader} {i : ℕ} {ps' : List PartHeader}
      → id ≢ 0
      → Added ps i ps'
      → IsFilled ps
      → IsFilled ps'
  Added-IsFilled n (here {ps = ps} e) (inl (z, f)) =
      inr (n, AllFree-Absent ps id n f, AllFree-IsFilled ps f)
  Added-IsFilled n (here e) (inr (l, a, f)) = absurd (l e)
  Added-IsFilled n (there live other r) (inl (z, f)) = absurd (live z)
  Added-IsFilled n (there {p = p} live other r) (inr (l, a, f)) =
      inr (l, Added-Absent r p.id (λ e. other (sym e)) a, Added-IsFilled n r f)

module _ (h : Header) (filled : IsFilled h.parts) (id : ℕ) (nonzero : id ≢ 0) where
  -- On a filled part table with unique ids, `bpak_add_part` with a nonzero id returns the first free slot if
  -- the id is new, `exists` if a part has the id, and otherwise that there is no space.
  pub add_part-outcome : (add_part h id).0 ≡ outcome h.parts id
  unfolding add_part
  add_part-outcome = add_loop-outcome h.parts id nonzero filled

  module _ (i : ℕ) (added : (add_part h id).0 ≡ ok i) where
    -- A successful `bpak_add_part` with a nonzero id keeps a part table filled with unique ids.
    pub add_part-IsFilled : IsFilled (add_part h id).1.parts
    unfolding add_part
    add_part-IsFilled = Added-IsFilled id nonzero (add_loop-Added id h.parts i added) filled

    -- On a filled part table with unique ids, after a successful `bpak_add_part` with a nonzero id the new
    -- id is found in the slot it returned, and every other nonzero id where it was before.
    pub get_part-add_part :
        (id' : ℕ)
        → id' ≢ 0
        → get_part (add_part h id).1 id' ≡ (if id == id' then ok i else get_part h id')
    unfolding add_part get_part
    get_part-add_part id' n = ground (arith, Added-get id (add_loop-Added id h.parts i added) id' n)
