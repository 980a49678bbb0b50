-- ===== src/Bsdiff/Progress.antt =====
-- The loops of `bpak_bsdiff` come to an end: every pass stops at a match that is not empty, or at the end of
-- the new data.
use native.Mathlib.Omega.{arith}
use bpak.Prelude.{
  ℕ, zero, suc, ◌+◌, ◌-◌, ◌≤◌, ◌<◌, ◌^◌, ◌≡◌, refl, ap, subst, ◌⊎◌, inl, inr, Option, true,
  Bool-cases, some, ltb, if◌then◌else◌, length, drop, length-drop, All,
}
use bpak.Int.{ℤ, pos, negsuc, pos_part, neg_part, ◌+ℤ◌, +ℤ_parts}
use bpak.Bsdiff.{Diff}
use bpak.Bsdiff.Search.{search_match-IsMatch}
use bpak.Bsdiff.Scan.{same_at, score_loop, is_good, scan_loop, next_scan}

-- The positions below `k` at which the origin, moved by `last_offset`, has the new data.
count : {C : Type 0} → Diff C → ℕ → ℕ
count d zero = 0
count d (suc k) = if same_at d k then suc (count d k) else count d k

count-le : {C : Type 0} (d : Diff C) (a n : ℕ) → count d a ≤ count d (a + n)
unfolding count
count-le d a zero = let e : a + 0 ≡ a = omega arith in rw e (omega arith)
count-le d a (suc n) =
    let e : a + suc n ≡ suc (a + n) = omega arith in rw e (ground (arith, count-le d a n))

-- `from_score` is the number of such positions from `scan` up to `scsc`, less those from `scsc` to `scan`.
abbrev Scored : {C : Type 0} → Diff C → ℕ → ℕ → ℤ → Type 0
Scored d scan scsc s = pos_part s + count d scan ≡ neg_part s + count d scsc

count_step :
    {C : Type 0} (d : Diff C) (k : ℕ)
    → count d (k + 1) ≡ (if same_at d k then suc (count d k) else count d k)
unfolding count
count_step d k = let e : k + 1 ≡ suc k = omega arith in rw e refl

counted :
    {C : Type 0} (d : Diff C) (scan scsc : ℕ) (s : ℤ)
    → Scored d scan scsc s
    → Scored d scan (scsc + 1) (if same_at d scsc then s +ℤ pos 1 else s)
counted d scan scsc s h = elim (Bool-cases (same_at d scsc)) [
  | inl same ↦
      let e = count_step d scsc in
      rw same (
        omega (
          arith,
          h,
          ap (λ b. if b then suc (count d scsc) else count d scsc) same,
          e,
          +ℤ_parts s (pos 1),
        ))
  | inr other ↦
      let e = count_step d scsc in
      rw other (omega (arith, h, ap (λ b. if b then suc (count d scsc) else count d scsc) other, e))
]

dropped :
    {C : Type 0} (d : Diff C) (scan scsc : ℕ) (s : ℤ)
    → Scored d scan scsc s
    → Scored d (scan + 1) scsc (if same_at d scan then s +ℤ negsuc 0 else s)
dropped d scan scsc s h = elim (Bool-cases (same_at d scan)) [
  | inl same ↦
      let e = count_step d scan in
      rw same (
        omega (
          arith,
          h,
          ap (λ b. if b then suc (count d scan) else count d scan) same,
          e,
          +ℤ_parts s (negsuc 0),
        ))
  | inr other ↦
      let e = count_step d scan in
      rw other (omega (arith, h, ap (λ b. if b then suc (count d scan) else count d scan) other, e))
]

score_loop-Scored :
    {C : Type 0} (d : Diff C) (scan n scsc : ℕ) (s : ℤ)
    → Scored d scan scsc s
    → Scored d scan (scsc + n) (score_loop d n scsc s)
unfolding score_loop
score_loop-Scored d scan zero scsc s h = let e : scsc + 0 ≡ scsc = omega arith in rw e h
score_loop-Scored d scan (suc n) scsc s h =
    let e : scsc + suc n ≡ scsc + 1 + n = omega arith in
    rw e (score_loop-Scored d scan n (scsc + 1) _ (counted d scan scsc s h))

-- A match with a score that is not negative is good only if it is not empty.
is_good-pos : (len : ℕ) (s : ℤ) → neg_part s ≡ 0 → is_good len s ≡ true → 0 < len
unfolding is_good ◌+ℤ◌
is_good-pos zero (pos s) h g = absurd (ground arith)
is_good-pos zero (negsuc s) h g = absurd (omega arith)
is_good-pos (suc len) s h g = omega arith

abbrev at : {C : Type 0} → Diff C → ℕ → ℕ → ℕ → Diff C
at d scan len position = record d { scan = scan; len = len; pos = position }

count-at : {C : Type 0} (d : Diff C) (a l p k : ℕ) → count (at d a l p) k ≡ count d k
unfolding count same_at
count-at d a l p k = refl

-- Where the search stops: at the end, or in front of a match.
pub record IsStop {C : Type 0} (d : Diff C) (scan len position : ℕ) : Type 0 where
  pub forward : d.scan ≤ scan
  pub in_origin : position ≤ length d.origin_data
  pub ends :
      (scan ≡ length d.new_data)
      ⊎ ((scan < length d.new_data) × (scan + len ≤ length d.new_data) × (0 < len))

abbrev pub Stops : {C : Type 0} → Diff C → Option (Diff C × ℤ) → Type 0
Stops d r =
    (scan : ℕ) × (len : ℕ) × (position : ℕ) × (score : ℤ) × (r
      ≡ some (record d { scan = scan; len = len; pos = position }, score))
    × IsStop d scan len position

-- Every entry is a position of the origin or its end, and so is what stands behind the array. The new data
-- is short enough for the `int32_t` of `matchlen`.
pub record IsInside {C : Type 0} (d : Diff C) (behind : ℕ) : Type 0 where
  pub entries : All (λ s. s ≤ length d.origin_data) d.suffix_array
  pub garbage : behind ≤ length d.origin_data
  pub small : length d.new_data < 2 ^ 31

restart :
    {C : Type 0} (d : Diff C) (a l p : ℕ) (r : Option (Diff C × ℤ))
    → d.scan ≤ a
    → Stops (at d a l p) r
    → Stops d r
restart d a l p r h (scan, len, position, score, e, st) = (
  scan,
  len,
  position,
  score,
  e,
  record { forward = omega (arith, st.forward); in_origin = st.in_origin; ends = st.ends },
)

sign : (s : ℤ) → (pos_part s ≡ 0) ⊎ (neg_part s ≡ 0)
sign (pos n) = inr refl
sign (negsuc n) = inl refl

-- Behind the loop over `scsc` the score is not negative.
not_negative :
    {C : Type 0} (d : Diff C) (scan far : ℕ) (s : ℤ)
    → scan ≤ far
    → Scored d scan far s
    → neg_part s ≡ 0
not_negative d scan far s h scored =
    let e : scan + (far - scan) ≡ far = omega arith in
    let more : count d scan ≤ count d far =
      subst (λ k. count d scan ≤ count d k) e (count-le d scan (far - scan)) in
    omega (arith, scored, more, sign s)

Scored-at :
    {C : Type 0} (d : Diff C) (a l p scan scsc : ℕ) (s : ℤ)
    → Scored d scan scsc s
    → Scored (at d a l p) scan scsc s
Scored-at d a l p scan scsc s h = omega (arith, h, count-at d a l p scan, count-at d a l p scsc)

scan_loop-Stops :
    {C : Type 0} (behind n : ℕ) (d : Diff C) (scsc : ℕ) (s : ℤ)
    → IsInside d behind
    → d.scan + n ≡ length d.new_data
    → d.pos ≤ length d.origin_data
    → Scored d d.scan scsc s
    → Stops d (scan_loop behind n d scsc s)
unfolding scan_loop
scan_loop-Stops behind zero d scsc s i e p h = (
  d.scan,
  d.len,
  d.pos,
  s,
  refl,
  record { forward = omega arith; in_origin = p; ends = inl (omega arith) },
)
scan_loop-Stops behind (suc n) d scsc s i e p h =
    let (len, position, found, m) =
      search_match-IsMatch d.suffix_array behind d.origin_data i.entries i.garbage
        (drop d.scan d.new_data) (omega (arith, i.small, length-drop d.scan d.new_data)) in
    let fits : d.scan + len ≤ length d.new_data =
      omega (arith, m.room, length-drop d.scan d.new_data) in
    let d' = at d d.scan len position in
    let reached = d.scan + len in
    let score = score_loop d' (reached - scsc) scsc s in
    let far = if ltb scsc reached then reached else scsc in
    let passed : scsc + (reached - scsc) ≡ far = ground arith in
    let scored : Scored d' d.scan far score =
      subst (λ k. Scored d' d.scan k score) passed
        (score_loop-Scored d' d.scan (reached - scsc) scsc s
          (Scored-at d d.scan len position d.scan scsc s h)) in
    let next = if same_at d' d.scan then score +ℤ negsuc 0 else score in
    let above : d.scan ≤ far = ground arith in
    rw (found, scan_loop)
      (elim (Bool-cases (is_good len score)) [
        | inl good ↦
            let some : 0 < len =
              is_good-pos len score (not_negative d' d.scan far score above scored) good in
            rw good (
              d.scan,
              len,
              position,
              score,
              refl,
              record {
                forward = omega arith;
                in_origin = m.inside;
                ends = inr (omega (arith, e), fits, some);
              },
            )
        | inr bad ↦ rw bad (
            restart d (d.scan + 1) len position
              (scan_loop behind n (at d (d.scan + 1) len position) far next) (omega arith)
              (scan_loop-Stops behind n (at d (d.scan + 1) len position) far next
                (record { entries = i.entries; garbage = i.garbage; small = i.small })
                (omega (arith, e)) m.inside
                (Scored-at d' (d.scan + 1) len position (d.scan + 1) far next
                  (dropped d' d.scan far score scored))))
      ])

-- One pass up to the write, from a scan inside the new data.
pub next_scan-Stops :
    {C : Type 0} (behind : ℕ) (d : Diff C)
    → IsInside d behind
    → d.scan + d.len ≤ length d.new_data
    → d.pos ≤ length d.origin_data
    → Stops (record d { scan = d.scan + d.len }) (next_scan behind d)
unfolding next_scan
next_scan-Stops behind d i h p =
    scan_loop-Stops behind (length d.new_data - (d.scan + d.len))
      (record d { scan = d.scan + d.len }) (d.scan + d.len) (pos 0)
      (record { entries = i.entries; garbage = i.garbage; small = i.small }) (omega arith) p
      (omega arith)
