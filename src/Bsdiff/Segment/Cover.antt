-- ===== src/Bsdiff/Segment/Cover.antt =====
-- One record of a patch covers the new data from `ctx->last_scan` to the start of the next one: the
-- lengths that `segment` chooses stay inside the data, whatever the search has found.
use native.Mathlib.Omega.{arith}
use bpak.Prelude.{
  ℕ, zero, suc, ◌+◌, ◌-◌, ◌*◌, ◌%◌, ◌≤◌, ◌<◌, min, ◌≡◌, refl, sym, ap, ap₂, ◌∙◌, inl, inr, List, [],
  ◌∷◌, ◌++◌, Bool-cases, ltb, ltb→lt, ◌==◌, if◌then◌else◌, length, get_or, take, drop, All, Bool,
  true, false, take-drop, drop-add,
}
use bpak.Int.{ℤ, pos}
use bpak.Patch.{add_bytes}
use bpak.Bsdiff.{Diff}
use bpak.Bsdiff.Segment.{
  byte, forward_loop, backward_loop, overlap_loop, forward_length, backward_length, Segment,
  segment, diff_bytes, extra_size,
}

module _ {C : Type 0} (d : Diff C) where
  forward_loop-le :
      (n i s sf diff_size : ℕ) → diff_size ≤ i → forward_loop d n i s sf diff_size ≤ i + n
  unfolding forward_loop
  forward_loop-le zero i s sf diff_size h = omega arith
  forward_loop-le (suc n) i s sf diff_size h =
      let s' =
        if byte d.origin_data (d.last_pos + i) == byte d.new_data (d.last_scan + i)
        then s + 1
        else s in
      let better = ltb (sf * 2 + (i + 1)) (s' * 2 + diff_size) in
      let k : (if better then i + 1 else diff_size) ≤ i + 1 = ground arith in
      let rest =
        forward_loop-le n (i + 1) s' (if better then s' else sf)
          (if better then i + 1 else diff_size) k in
      omega (arith, rest)

  backward_loop-lt : (n i s sb lenb : ℕ) → lenb < i → backward_loop d n i s sb lenb < i + n
  unfolding backward_loop
  backward_loop-lt zero i s sb lenb h = omega arith
  backward_loop-lt (suc n) i s sb lenb h =
      let s' =
        if byte d.origin_data (d.pos - i) == byte d.new_data (d.scan - i) then s + 1 else s in
      let better = ltb (sb * 2 + i) (s' * 2 + lenb) in
      let k : (if better then i else lenb) < i + 1 = ground arith in
      let rest =
        backward_loop-lt n (i + 1) s' (if better then s' else sb) (if better then i else lenb) k in
      omega (arith, rest)

  choose-le : (b : Bool) (i lens : ℕ) → lens ≤ i → (if b then i + 1 else lens) ≤ i + 1
  choose-le true i lens h = omega arith
  choose-le false i lens h = omega arith

  overlap_loop-le :
      (n diff_start lenb i : ℕ) (s ss : ℤ) (lens : ℕ)
      → lens ≤ i
      → overlap_loop d n diff_start lenb i s ss lens ≤ i + n
  unfolding overlap_loop
  overlap_loop-le zero diff_start lenb i s ss lens h = omega arith
  overlap_loop-le (suc n) diff_start lenb i s ss lens h =
      omega (arith, overlap_loop-le n diff_start lenb (i + 1) _ _ _ (choose-le _ i lens h))

  forward_length-le :
      (forward_length d ≤ d.scan - d.last_scan)
      × (forward_length d ≤ length d.origin_data - d.last_pos)
  unfolding forward_length
  forward_length-le = omega (
    arith,
    forward_loop-le (min (d.scan - d.last_scan) (length d.origin_data - d.last_pos)) 0 0 0 0
        (omega arith),
  )

  backward_length-le :
      (backward_length d ≤ d.scan - d.last_scan)
      × (backward_length d ≤ d.pos)
      × (d.scan ≡ length d.new_data → backward_length d ≡ 0)
  unfolding backward_length
  backward_length-le = elim (Bool-cases (ltb d.scan (length d.new_data))) [
    | inl inside ↦
        let low = backward_loop-lt (min (d.scan - d.last_scan) d.pos) 1 0 0 0 (omega arith) in
        rw inside
          (omega (arith, low), omega (arith, low), λ e. absurd (omega (arith, ltb→lt _ _ inside)))
    | inr end ↦ rw end (omega arith, omega arith, λ e. refl)
  ]

  -- Where the next record starts, and that no difference of the source is negative.
  pub record Fits (g : Segment) : Type 0 where
    pub in_origin : g.diff_size ≤ length d.origin_data - d.last_pos
    pub in_new : d.last_scan + g.diff_size + g.lenb ≤ d.scan
    pub back : g.lenb ≤ d.pos
    pub at_end : d.scan ≡ length d.new_data → g.lenb ≡ 0

  pub segment-Fits : d.last_scan ≤ d.scan → Fits (segment d)
  unfolding segment
  segment-Fits h =
      elim (Bool-cases (ltb 0 (d.last_scan + forward_length d + backward_length d - d.scan))) [
        | inl overlaps ↦
            let overlap = d.last_scan + forward_length d + backward_length d - d.scan in
            let lens =
              overlap_loop-le overlap (forward_length d - overlap) (backward_length d) 0 (pos 0)
                (pos 0) 0 (omega arith) in
            rw overlaps (record {
              in_origin = omega (arith, forward_length-le, lens);
              in_new =
                  omega (arith, forward_length-le, backward_length-le.0, lens, ltb→lt _ _ overlaps);
              back = omega (arith, backward_length-le.1);
              at_end = λ e. omega (arith, backward_length-le.2 e);
            })
        | inr apart ↦
            let none : d.last_scan + forward_length d + backward_length d - d.scan ≡ 0 =
              ground arith in
            rw apart (record {
              in_origin = forward_length-le.1;
              in_new = omega (arith, none);
              back = backward_length-le.1;
              at_end = backward_length-le.2;
            })
      ]

-- The bytes of a list from an index inside it on.
pub drop-cons : (l : List ℕ) (k : ℕ) → k < length l → drop k l ≡ get_or l k 0 ∷ drop (k + 1) l
drop-cons [] k h = absurd (omega arith)
drop-cons (x ∷ l) zero h = refl
drop-cons (x ∷ l) (suc k) h =
    let e : suc k + 1 ≡ suc (k + 1) = omega arith in rw e (drop-cons l k (omega arith))

abbrev pub AreBytes : List ℕ → Type 0
AreBytes = All (λ b. b < 256)

get_or-lt : (l : List ℕ) (k : ℕ) → AreBytes l → get_or l k 0 < 256
get_or-lt [] k h = omega arith
get_or-lt (x ∷ l) zero h = h.0
get_or-lt (x ∷ l) (suc k) h = get_or-lt l k h.1

-- Adding a difference of bytes gives the byte back.
add_difference : (x y : ℕ) → x < 256 → y < 256 → (x + (y + 256 - x) % 256) % 256 ≡ y
add_difference x y h k = omega arith

module _ {C : Type 0} (d : Diff C) (bytes_origin : AreBytes d.origin_data)
    (bytes_new : AreBytes d.new_data) where
  add-diff_bytes :
      (n i : ℕ)
      → d.last_pos + i + n ≤ length d.origin_data
      → d.last_scan + i + n ≤ length d.new_data
      → add_bytes (take n (drop (d.last_pos + i) d.origin_data)) (diff_bytes d n i)
        ≡ take n (drop (d.last_scan + i) d.new_data)
  unfolding add_bytes diff_bytes
  add-diff_bytes zero i h k = refl
  add-diff_bytes (suc n) i h k =
      let x = byte d.origin_data (d.last_pos + i) in
      let y = byte d.new_data (d.last_scan + i) in
      let e : d.last_pos + i + 1 ≡ d.last_pos + (i + 1) = omega arith in
      let e' : d.last_scan + i + 1 ≡ d.last_scan + (i + 1) = omega arith in
      rw
        (
          drop-cons d.origin_data (d.last_pos + i) (omega arith),
          drop-cons d.new_data (d.last_scan + i) (omega arith),
          e,
          e',
        )
        (ap₂ (λ (b : ℕ) (l : List ℕ). b ∷ l)
          (add_difference x y (get_or-lt d.origin_data _ bytes_origin)
            (get_or-lt d.new_data _ bytes_new))
          (add-diff_bytes n (i + 1) (omega arith) (omega arith)))

  -- The diff and the extra bytes of a record are the new data up to where the next record starts.
  pub segment-covers :
      (g : Segment)
      → Fits d g
      → d.last_pos ≤ length d.origin_data
      → d.scan ≤ length d.new_data
      → add_bytes (take g.diff_size (drop d.last_pos d.origin_data)) (diff_bytes d g.diff_size 0)
          ++ (take (extra_size d g) (drop (d.last_scan + g.diff_size) d.new_data)
              ++ drop (d.scan - g.lenb) d.new_data)
        ≡ drop d.last_scan d.new_data
  unfolding extra_size
  segment-covers g f placed k =
      let here : d.last_pos + 0 ≡ d.last_pos = omega arith in
      let there : d.last_scan + 0 ≡ d.last_scan = omega arith in
      let end : d.last_scan + g.diff_size + extra_size d g ≡ d.scan - g.lenb =
        omega (arith, f.in_new) in
      let added =
        add-diff_bytes g.diff_size 0 (omega (arith, f.in_origin)) (omega (arith, f.in_new)) in
      let rest = drop d.last_scan d.new_data in
      ap₂ (λ (xs ys : List ℕ). xs ++ ys)
        (ap (λ n. add_bytes (take g.diff_size (drop n d.origin_data)) (diff_bytes d g.diff_size 0))
            (sym here)
          ∙ added
          ∙ ap (λ n. take g.diff_size (drop n d.new_data)) there)
        (ap
            (λ n.
              take (extra_size d g) (drop (d.last_scan + g.diff_size) d.new_data)
              ++ drop n d.new_data)
            (sym end)
          ∙ ap (λ t. take (extra_size d g) (drop (d.last_scan + g.diff_size) d.new_data) ++ t)
              (sym (drop-add (d.last_scan + g.diff_size) (extra_size d g) d.new_data))
          ∙ take-drop (extra_size d g) (drop (d.last_scan + g.diff_size) d.new_data)
          ∙ sym (drop-add d.last_scan g.diff_size d.new_data))
      ∙ take-drop g.diff_size rest
