-- ===== src/Part/Delete.antt =====
-- `bpak_del_part` on a filled part table, also a full one: the entries and lookups.
use mathlib.Core.Option
use native.Mathlib.Omega.{arith}
use native.Mathlib.Decide.{ℕ_discrete}
use bpak.Prelude.{
  ℕ, zero, suc, ◌-◌, ◌≡◌, refl, sym, ap, ◌≢◌, inl, inr, List, [], ◌∷◌, ltb, ◌==◌, if◌then◌else◌,
  Option, none, some, length, get_elem?,
}
use bpak.Status.{Result, ok, err, not_found}
use bpak.Header.{PartHeader, Header, no_part}
use bpak.Part.{get_loop, get_part, del_loop, del_at, del_part}
use bpak.Part.Table.{AllFree, Absent, IsFilled, count_used, AllFree-Absent, Absent-get}

del_loop-free :
    (p : PartHeader) (ps : List PartHeader) → p.id ≡ 0 → del_loop (p ∷ ps) ≡ no_part ∷ p ∷ ps
unfolding del_loop
del_loop-free p ps e = ground arith

del_loop-live :
    (p : PartHeader) (ps : List PartHeader) → p.id ≢ 0 → del_loop (p ∷ ps) ≡ p ∷ del_loop ps
unfolding del_loop
del_loop-live p ps e = ground arith

del_loop-Absent : (ps : List PartHeader) (id : ℕ) → id ≢ 0 → Absent id ps → Absent id (del_loop ps)
unfolding del_loop
del_loop-Absent [] id n a = ((λ e. n (sym e)), tt)
del_loop-Absent (p ∷ ps) id n (a, rest) = elim (ℕ_discrete p.id 0) [
  | yes z ↦ rw (del_loop-free p ps z) ((λ e. n (sym e)), (a, rest))
  | no l ↦ rw (del_loop-live p ps l) (a, del_loop-Absent ps id n rest)
]

del_loop-IsFilled : (ps : List PartHeader) → IsFilled ps → IsFilled (del_loop ps)
unfolding del_loop
del_loop-IsFilled [] f = inl (refl, tt)
del_loop-IsFilled (p ∷ ps) (inl (z, f)) = rw (del_loop-free p ps z) (inl (refl, (z, f)))
del_loop-IsFilled (p ∷ ps) (inr (l, a, f)) =
    rw (del_loop-live p ps l) (inr (l, del_loop-Absent ps p.id l a, del_loop-IsFilled ps f))

del_loop-get :
    (ps : List PartHeader) (id : ℕ)
    → id ≢ 0
    → IsFilled ps
    → get_loop (del_loop ps) id ≡ get_loop ps id
unfolding del_loop get_loop
del_loop-get [] id n f = ground arith
del_loop-get (p ∷ ps) id n (inl (z, f)) =
    ground (arith, Absent-get ps id (AllFree-Absent ps id n f))
del_loop-get (p ∷ ps) id n (inr (l, a, f)) = ground (arith, del_loop-get ps id n f)

length-del_loop : (ps : List PartHeader) → length (del_loop ps) ≡ suc (length ps)
unfolding del_loop
length-del_loop [] = refl
length-del_loop (p ∷ ps) = ground (arith, length-del_loop ps)

count_used-del_loop : (ps : List PartHeader) → count_used (del_loop ps) ≡ count_used ps
unfolding del_loop count_used
count_used-del_loop [] = refl
count_used-del_loop (p ∷ ps) = ground (arith, count_used-del_loop ps)

pub AllFree-at :
    (ps : List PartHeader) (i : ℕ) {p : PartHeader}
    → AllFree ps
    → get_elem? ps i ≡ some p
    → p.id ≡ 0
AllFree-at [] i f e = cc
AllFree-at (q ∷ ps) zero {p} (z, f) e = ground arith
AllFree-at (q ∷ ps) (suc i) (z, f) e = AllFree-at ps i f e

pub Absent-at :
    (ps : List PartHeader) (id i : ℕ) {p : PartHeader}
    → Absent id ps
    → get_elem? ps i ≡ some p
    → p.id ≢ id
Absent-at [] id i a e = cc
Absent-at (q ∷ ps) id zero {p} (a, rest) e = ground arith
Absent-at (q ∷ ps) id (suc i) (a, rest) e = Absent-at ps id i rest e

-- The index of an entry after slot `i` is gone.
unfoldable pub drop_index : ℕ → ℕ → ℕ
drop_index i j = if ltb i j then j - 1 else j

drop_index-suc :
    (i : ℕ) (o : Option ℕ)
    → Option.map (drop_index (suc i)) (Option.map suc o)
      ≡ Option.map suc (Option.map (drop_index i) o)
unfolding drop_index
drop_index-suc i none = refl
drop_index-suc i (some j) = ground arith

drop_index-zero : (o : Option ℕ) → Option.map (drop_index 0) (Option.map suc o) ≡ o
unfolding drop_index
drop_index-zero none = refl
drop_index-zero (some j) = ground arith

del_at-Absent :
    (i : ℕ) (ps : List PartHeader) (id : ℕ) → id ≢ 0 → Absent id ps → Absent id (del_at i ps)
unfolding del_at
del_at-Absent i [] id n a = tt
del_at-Absent zero (p ∷ ps) id n (a, rest) = del_loop-Absent ps id n rest
del_at-Absent (suc i) (p ∷ ps) id n (a, rest) = (a, del_at-Absent i ps id n rest)

del_at-IsFilled :
    (i : ℕ) (ps : List PartHeader) {p : PartHeader}
    → IsFilled ps
    → get_elem? ps i ≡ some p
    → p.id ≢ 0
    → IsFilled (del_at i ps) × (suc (count_used (del_at i ps)) ≡ count_used ps)
unfolding del_at count_used
del_at-IsFilled i [] f e live = cc
del_at-IsFilled i (q ∷ ps) (inl (z, f)) e live = absurd (live (AllFree-at (q ∷ ps) i (z, f) e))
del_at-IsFilled zero (q ∷ ps) (inr (l, a, f)) e live =
    (del_loop-IsFilled ps f, ground (arith, count_used-del_loop ps))
del_at-IsFilled (suc i) (q ∷ ps) {p} (inr (l, a, f)) e live =
    let ih = del_at-IsFilled i ps {p = p} f e live in
    (inr (l, del_at-Absent i ps q.id l a, ih.0), ground (arith, ih.1))

del_at-get :
    (i : ℕ) (ps : List PartHeader) (id : ℕ) {p : PartHeader}
    → IsFilled ps
    → get_elem? ps i ≡ some p
    → p.id ≢ 0
    → id ≢ 0
    → get_loop (del_at i ps) id
      ≡ (if p.id == id then none else Option.map (drop_index i) (get_loop ps id))
unfolding del_at get_loop drop_index
del_at-get i [] id f e live n = cc
del_at-get i (q ∷ ps) id (inl (z, f)) e live n = absurd (live (AllFree-at (q ∷ ps) i (z, f) e))
del_at-get zero (q ∷ ps) id {p} (inr (l, a, f)) e live n =
    let same : q.id ≡ p.id = ground arith in
    rw (← same, del_loop-get ps id n f)
      (ground (arith, Absent-get ps q.id a, drop_index-zero (get_loop ps id)))
del_at-get (suc i) (q ∷ ps) id {p} (inr (l, a, f)) e live n = ground (
  arith,
  del_at-get i ps id {p = p} f e live n,
  Absent-at ps q.id i {p = p} a e,
  drop_index-suc i (get_loop ps id),
)

length-del_at : (i : ℕ) (ps : List PartHeader) → length (del_at i ps) ≡ length ps
unfolding del_at
length-del_at i [] = refl
length-del_at zero (p ∷ ps) = length-del_loop ps
length-del_at (suc i) (p ∷ ps) = ap suc (length-del_at i ps)

abbrev pub reindex : ℕ → Result ℕ → Result ℕ
reindex i (ok j) = ok (drop_index i j)
reindex i (err e) = err e

module _ (h : Header) (i : ℕ) {p : PartHeader} (filled : IsFilled h.parts)
    (at : get_elem? h.parts i ≡ some p) (live : p.id ≢ 0) where
  -- On a filled part table with unique ids, full or not, deleting a used part keeps it filled with unique
  -- ids, of the same length, with one entry less.
  pub del_part-IsFilled :
      IsFilled (del_part h i).parts
      × (suc (count_used (del_part h i).parts) ≡ count_used h.parts)
      × (length (del_part h i).parts ≡ length h.parts)
  unfolding del_part
  del_part-IsFilled =
      let (kept, count) = del_at-IsFilled i h.parts {p = p} filled at live in
      (kept, count, length-del_at i h.parts)

  -- On a filled part table with unique ids, full or not, after deleting the used part `p` of slot `i` its id
  -- is not found; every other nonzero id is found where it was, one slot earlier if that slot came after
  -- `i`, or not found if it was not.
  pub get_part-del_part :
      (id : ℕ)
      → id ≢ 0
      → get_part (del_part h i) id
        ≡ (if p.id == id then err not_found else reindex i (get_part h id))
  unfolding del_part get_part
  get_part-del_part id n = ground (arith, del_at-get i h.parts id {p = p} filled at live n)
