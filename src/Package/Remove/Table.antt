-- ===== src/Package/Remove/Table.antt =====
-- lib/pkg.c, `bpak_pkg_delete_part`: the part table that it leaves, slot by slot, with its sizes.
use bpak.Prelude.{
  ℕ, zero, suc, ◌+◌, ◌-◌, ◌%◌, ◌^◌, ◌≤◌, ◌<◌, ◌≡◌, ◌≢◌, refl, ap, inl, inr, List, [], ◌∷◌, ◌++◌,
  ◌==◌, false, take, drop, get_or, arith,
}
use bpak.Header.{PartHeader, no_part, part_size}
use bpak.Part.{del_loop, del_at, offset_loop}
use bpak.Part.Table.{Absent, IsFilled, count_used}
use bpak.Part.Extent.{sum_sizes}
use bpak.Package.Remove.{shift_loop, new_size_loop}

-- The part with its offset moved.
abbrev pub moved_part : ℕ → PartHeader → PartHeader
moved_part s p = record p { offset = (p.offset + 2 ^ 64 - s % 2 ^ 64) % 2 ^ 64 }

pub moved_part-size : (s : ℕ) (p : PartHeader) → part_size (moved_part s p) ≡ part_size p
unfolding part_size
moved_part-size s p = refl

pub sum_sizes-next :
    (ps : List PartHeader) (j : ℕ)
    → j < count_used ps
    → sum_sizes (suc j) ps ≡ sum_sizes j ps + part_size (get_or ps j no_part)
unfolding sum_sizes count_used
sum_sizes-next [] j less = absurd (omega arith)
sum_sizes-next (p ∷ ps) zero less = omega arith
sum_sizes-next (p ∷ ps) (suc j) less = ground (arith, sum_sizes-next ps j)

Absent-get_or :
    (ps : List PartHeader) (id j : ℕ)
    → Absent id ps
    → j < count_used ps
    → (get_or ps j no_part).id ≢ id
unfolding count_used
Absent-get_or [] id j a less = absurd (omega arith)
Absent-get_or (p ∷ ps) id zero (n, a) less = n
Absent-get_or (p ∷ ps) id (suc j) (n, a) less = Absent-get_or ps id j a (ground arith)

-- The offset of a used slot is the sum of the sizes in front of it.
pub offset_loop-used :
    (offset : ℕ) (ps : List PartHeader) (i : ℕ)
    → IsFilled ps
    → i < count_used ps
    → offset + sum_sizes i ps < 2 ^ 64
    → offset_loop offset ps (get_or ps i no_part).id ≡ offset + sum_sizes i ps
unfolding offset_loop sum_sizes count_used
offset_loop-used offset [] i f less small = absurd (omega arith)
offset_loop-used offset (p ∷ ps) i (inl (z, f)) less small = absurd (ground arith)
offset_loop-used offset (p ∷ ps) zero (inr (l, a, f)) less small = ground arith
offset_loop-used offset (p ∷ ps) (suc i) (inr (l, a, f)) less small =
    let next : (offset + part_size p) % 2 ^ 64 ≡ offset + part_size p = omega arith in
    let other = Absent-get_or ps p.id i a (ground arith) in
    let rest = offset_loop-used (offset + part_size p) ps i f (ground arith) (omega arith) in
    ground (arith, next, other, rest)

pub new_size_loop-sum :
    (size : ℕ) (ps : List PartHeader)
    → size + sum_sizes (count_used ps) ps < 2 ^ 64
    → new_size_loop size ps ≡ size + sum_sizes (count_used ps) ps
unfolding new_size_loop sum_sizes count_used
new_size_loop-sum size [] small = omega arith
new_size_loop-sum size (p ∷ ps) small =
    let next : (p.id == 0) ≡ false → (size + part_size p) % 2 ^ 64 ≡ size + part_size p =
      λ e. ground arith in
    ground (arith, next, new_size_loop-sum (size + part_size p) ps)

-- The slots behind the one that is removed.
module _ (s : ℕ) where
  abbrev behind : ℕ → List PartHeader → List PartHeader
  behind n ps = (shift_loop s n (del_loop ps)).1

  behind-count : (n : ℕ) (ps : List PartHeader) → count_used (behind n ps) ≡ count_used ps
  unfolding shift_loop del_loop count_used
  behind-count n [] = refl
  behind-count n (p ∷ ps) = ground (arith, behind-count ((n + part_size p) % 2 ^ 64) ps)

  behind-get :
      (n : ℕ) (ps : List PartHeader) (j : ℕ)
      → j < count_used ps
      → get_or (behind n ps) j no_part ≡ moved_part s (get_or ps j no_part)
  unfolding shift_loop del_loop count_used
  behind-get n [] j less = absurd (omega arith)
  behind-get n (p ∷ ps) zero less = ground arith
  behind-get n (p ∷ ps) (suc j) less = ground (arith, behind-get ((n + part_size p) % 2 ^ 64) ps j)

  behind-sum :
      (n : ℕ) (ps : List PartHeader) (k : ℕ)
      → k ≤ count_used ps
      → sum_sizes k (behind n ps) ≡ sum_sizes k ps
  unfolding shift_loop del_loop count_used sum_sizes
  behind-sum n ps zero le = refl
  behind-sum n [] (suc k) le = absurd (omega arith)
  behind-sum n (p ∷ ps) (suc k) le =
      ground (arith, behind-sum ((n + part_size p) % 2 ^ 64) ps k, moved_part-size s p)

  behind_bytes :
      (n : ℕ) (ps : List PartHeader)
      → n + sum_sizes (count_used ps) ps < 2 ^ 64
      → (shift_loop s n (del_loop ps)).0 ≡ n + sum_sizes (count_used ps) ps
  unfolding shift_loop del_loop count_used sum_sizes
  behind_bytes n [] small = omega arith
  behind_bytes n (p ∷ ps) small =
      let next : (p.id == 0) ≡ false → (n + part_size p) % 2 ^ 64 ≡ n + part_size p =
        λ e. ground arith in
      ground (arith, next, behind_bytes (n + part_size p) ps)

  -- The table that is left, and the bytes that are moved.
  abbrev pub removed : ℕ → List PartHeader → List PartHeader
  removed i ps = take i (del_at i ps) ++ (shift_loop s 0 (drop i (del_at i ps))).1

  abbrev pub moved_bytes : ℕ → List PartHeader → ℕ
  moved_bytes i ps = (shift_loop s 0 (drop i (del_at i ps))).0

  pub removed-count :
      (i : ℕ) (ps : List PartHeader)
      → i < count_used ps
      → suc (count_used (removed i ps)) ≡ count_used ps
  unfolding del_at count_used
  removed-count i [] less = absurd (omega arith)
  removed-count zero (p ∷ ps) less = ground (arith, behind-count 0 ps)
  removed-count (suc i) (p ∷ ps) less = ground (arith, removed-count i ps)

  pub removed-below :
      (i j : ℕ) (ps : List PartHeader)
      → i < count_used ps
      → j < i
      → get_or (removed i ps) j no_part ≡ get_or ps j no_part
  unfolding del_at count_used
  removed-below i j [] less below = absurd (omega arith)
  removed-below zero j (p ∷ ps) less below = absurd (omega arith)
  removed-below (suc i) zero (p ∷ ps) less below = refl
  removed-below (suc i) (suc j) (p ∷ ps) less below =
      removed-below i j ps (ground arith) (omega arith)

  pub removed-above :
      (i j : ℕ) (ps : List PartHeader)
      → i ≤ j
      → suc j < count_used ps
      → get_or (removed i ps) j no_part ≡ moved_part s (get_or ps (suc j) no_part)
  unfolding del_at count_used
  removed-above i j [] above less = absurd (omega arith)
  removed-above zero j (p ∷ ps) above less = behind-get 0 ps j (ground arith)
  removed-above (suc i) zero (p ∷ ps) above less = absurd (omega arith)
  removed-above (suc i) (suc j) (p ∷ ps) above less =
      removed-above i j ps (omega arith) (ground arith)

  pub sum-removed_below :
      (i k : ℕ) (ps : List PartHeader)
      → i < count_used ps
      → k ≤ i
      → sum_sizes k (removed i ps) ≡ sum_sizes k ps
  unfolding del_at count_used sum_sizes
  sum-removed_below i zero ps less below = refl
  sum-removed_below i (suc k) [] less below = absurd (omega arith)
  sum-removed_below zero (suc k) (p ∷ ps) less below = absurd (omega arith)
  sum-removed_below (suc i) (suc k) (p ∷ ps) less below =
      ap (λ n. part_size p + n) (sum-removed_below i k ps (ground arith) (omega arith))

  pub sum-removed_above :
      (i k : ℕ) (ps : List PartHeader)
      → i ≤ k
      → k < count_used ps
      → sum_sizes k (removed i ps) + part_size (get_or ps i no_part) ≡ sum_sizes (suc k) ps
  unfolding del_at count_used sum_sizes
  sum-removed_above i k [] above less = absurd (omega arith)
  sum-removed_above zero k (p ∷ ps) above less = omega (arith, behind-sum 0 ps k (ground arith))
  sum-removed_above (suc i) zero (p ∷ ps) above less = absurd (omega arith)
  sum-removed_above (suc i) (suc k) (p ∷ ps) above less =
      omega (arith, sum-removed_above i k ps (omega arith) (ground arith))

  pub moved_bytes-sum :
      (i : ℕ) (ps : List PartHeader)
      → i < count_used ps
      → sum_sizes (count_used ps) ps < 2 ^ 64
      → moved_bytes i ps + sum_sizes (suc i) ps ≡ sum_sizes (count_used ps) ps
  unfolding del_at count_used sum_sizes
  moved_bytes-sum i [] less small = absurd (omega arith)
  moved_bytes-sum zero (p ∷ ps) less small = ground (arith, behind_bytes 0 ps)
  moved_bytes-sum (suc i) (p ∷ ps) less small = ground (arith, moved_bytes-sum i ps)
