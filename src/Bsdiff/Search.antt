-- ===== src/Bsdiff/Search.antt =====
-- What `search` of lib/bsdiff.c finds: a piece of the new data that stands in the origin. That the suffix
-- array is sorted is not used; it only makes the piece long.
use native.Mathlib.Omega.{arith}
use bpak.Prelude.{
  ℕ, zero, suc, ◌+◌, ◌-◌, ◌/◌, ◌^◌, ◌≤◌, ◌<◌, ◌≡◌, refl, ap, ap₂, inl, inr, Bool-cases, Option,
  some, List, [], ◌∷◌, false, ltb, ◌==◌, ==_iff, length, get_or, take, drop, All,
}
use bpak.Int.{ℤ, pos, ltb_ℤ}
use bpak.Bsdiff.{
  common_length, int32, matchlen, suffix, nearer, is_below, search_loop, search_match,
}

common_length-le : (from to : List ℕ) → common_length from to ≤ length to
unfolding common_length
common_length-le [] to = omega arith
common_length-le (x ∷ from) [] = omega arith
common_length-le (x ∷ from) (y ∷ to) = ground (arith, common_length-le from to)

take-common_length :
    (from to : List ℕ) → take (common_length from to) from ≡ take (common_length from to) to
unfolding common_length
take-common_length [] to = refl
take-common_length (x ∷ from) [] = refl
take-common_length (x ∷ from) (y ∷ to) = elim (Bool-cases (x == y)) [
  | inl same ↦
      rw same
        (ap₂ (λ (b : ℕ) (l : List ℕ). b ∷ l) ((==_iff x y).0 same) (take-common_length from to))
  | inr other ↦ rw other refl
]

-- The match ends at a difference, or at the end of one of the two.
common_length-stops :
    (from to : List ℕ)
    → common_length from to < length from
    → common_length from to < length to
    → (get_or from (common_length from to) 0 == get_or to (common_length from to) 0) ≡ false
unfolding common_length
common_length-stops [] to = λ h k. absurd (omega (arith, h))
common_length-stops (x ∷ from) [] = λ h k. absurd (omega (arith, k))
common_length-stops (x ∷ from) (y ∷ to) = elim (Bool-cases (x == y)) [
  | inl same ↦ rw same (λ h k. common_length-stops from to (omega (arith, h)) (omega (arith, k)))
  | inr other ↦ rw other (λ h k. other)
]

-- A match of `n` bytes at position `p` of the origin: so long as can be there.
pub record IsMatch (from to : List ℕ) (n p : ℕ) : Type 0 where
  pub inside : p ≤ length from
  pub room : n ≤ length to
  pub same : take n (drop p from) ≡ take n to
  pub longest :
      n < length (drop p from) → n < length to → (get_or (drop p from) n 0 == get_or to n 0) ≡ false

abbrev pub Found : List ℕ → List ℕ → Option (ℤ × ℕ) → Type 0
Found from to r = (n : ℕ) × (p : ℕ) × (r ≡ some (pos n, p)) × IsMatch from to n p

-- Below 2^31 the `int32_t` loses nothing.
matchlen_lem :
    (from to : List ℕ) → length to < 2 ^ 31 → matchlen from to ≡ pos (common_length from to)
unfolding matchlen int32
matchlen_lem from to h = ground (arith, common_length-le from to)

IsMatch-at :
    (from to : List ℕ) (p : ℕ)
    → p ≤ length from
    → IsMatch from to (common_length (drop p from) to) p
IsMatch-at from to p h = record {
  inside = h;
  room = common_length-le (drop p from) to;
  same = take-common_length (drop p from) to;
  longest = common_length-stops (drop p from) to;
}

nearer-Found :
    (from to : List ℕ) (p q : ℕ)
    → p ≤ length from
    → q ≤ length from
    → length to < 2 ^ 31
    → Found from to (some (nearer from to p q))
unfolding nearer
nearer-Found from to p q h k small =
    elim (Bool-cases (ltb_ℤ (matchlen (drop q from) to) (matchlen (drop p from) to))) [
      | inl first ↦ rw first (
        common_length (drop p from) to,
        p,
        ap (λ n. some (n, p)) (matchlen_lem (drop p from) to small),
        IsMatch-at from to p h,
      )
      | inr second ↦ rw second (
        common_length (drop q from) to,
        q,
        ap (λ n. some (n, q)) (matchlen_lem (drop q from) to small),
        IsMatch-at from to q k,
      )
    ]

suffix-le :
    (sa : List ℕ) (behind i n : ℕ) → All (λ s. s ≤ n) sa → behind ≤ n → suffix sa behind i ≤ n
unfolding suffix
suffix-le [] behind i n h k = k
suffix-le (s ∷ sa) behind zero n h k = h.0
suffix-le (s ∷ sa) behind (suc i) n h k = suffix-le sa behind i n h.1 k

module _ (sa : List ℕ) (behind : ℕ) (from : List ℕ) (entries : All (λ s. s ≤ length from) sa)
    (garbage : behind ≤ length from) where
  search_loop-Found :
      (fuel : ℕ) (to : List ℕ) (from_begin from_end : ℕ)
      → from_end - from_begin < fuel
      → length to < 2 ^ 31
      → Found from to (search_loop fuel sa behind from to from_begin from_end)
  unfolding search_loop
  search_loop-Found zero to from_begin from_end h small = absurd (omega arith)
  search_loop-Found (suc fuel) to from_begin from_end h small =
      let x = from_begin + (from_end - from_begin) / 2 in
      elim (Bool-cases (ltb (from_end - from_begin) 2)) [
        | inl last ↦
            rw (last, search_loop)
              (nearer-Found from to (suffix sa behind from_begin) (suffix sa behind from_end)
                (suffix-le sa behind from_begin (length from) entries garbage)
                (suffix-le sa behind from_end (length from) entries garbage) small)
        | inr wide ↦
            let far : 2 ≤ from_end - from_begin = ground arith in
            rw (wide, search_loop)
              (elim (Bool-cases (is_below (drop (suffix sa behind x) from) to)) [
                | inl above ↦
                    rw (above, search_loop)
                      (search_loop-Found fuel to x from_end (omega (arith, far)) small)
                | inr below ↦
                    rw (below, search_loop)
                      (search_loop-Found fuel to from_begin x (omega (arith, far)) small)
              ])
      ]

  -- If every entry of the suffix array is a position of the origin or its end, so is the number in the
  -- memory behind the array, which the search reads, and the new data is shorter than 2^31 bytes, so that the
  -- `int32_t` of `matchlen` loses nothing, the search comes to an end: with a position in the origin and a
  -- length for which the new data there is the origin's, and no more of it is.
  pub search_match-IsMatch :
      (to : List ℕ) → length to < 2 ^ 31 → Found from to (search_match sa behind from to)
  unfolding search_match
  search_match-IsMatch to small =
      search_loop-Found (length from + 1) to 0 (length from) (omega arith) small
