-- ===== src/Meta/Slide.antt =====
-- The loop of `bpak_del_meta` on a filled table, as two total functions: what it makes of the slots
-- behind the deleted one, and of the bytes.
use native.Mathlib.Omega.{arith}
use bpak.Prelude.{
  ℕ, zero, suc, ◌+◌, ◌-◌, ◌*◌, ◌≤◌, ◌<◌, ◌≡◌, refl, ap, ◌≢◌, ◌⊎◌, inl, inr, List, [], ◌∷◌, ltb, leb,
  ◌==◌, if◌then◌else◌, some, length, get_elem?, get_or, take, drop, replicate, splice,
  length-splice, length-take, length-drop, length-replicate, get_or-splice_in, get_or-splice_out,
  get_or-take, get_or-drop, get_or-replicate, ◌∙◌, subst, lt→ltb, ge→ltb,
}
use native.Mathlib.Decide.{dec_lt}
use bpak.Header.{MetaHeader, no_meta, metadata_bytes}
use bpak.Meta.{move_data, del_loop}
use bpak.Meta.Layout.{round8, AllFree-get, Packed-bounds, Packed, count_used}

module _ (adj : ℕ) where
  abbrev pub shifted : MetaHeader → MetaHeader
  shifted n = record n { offset = n.offset - adj }

  -- The data of an entry moves down by `adj`; then its old place is zeroed.
  pub moved : MetaHeader → List ℕ → List ℕ
  moved n bytes =
      splice n.offset (replicate n.size 0)
        (splice (n.offset - adj) (take n.size (drop n.offset bytes)) bytes)

  unfoldable pub slide : MetaHeader → List MetaHeader → List MetaHeader
  slide m [] = m ∷ []
  slide m (n ∷ ms) = if n.id == 0 then n ∷ no_meta ∷ ms else shifted n ∷ slide (shifted n) ms

  unfoldable pub slide_bytes : List MetaHeader → List ℕ → List ℕ
  slide_bytes [] bytes = bytes
  slide_bytes (n ∷ ms) bytes =
      let rest = slide_bytes ms (moved n bytes) in if n.id == 0 then bytes else rest

  pub length-moved : (n : MetaHeader) (bytes : List ℕ) → length (moved n bytes) ≡ length bytes
  unfolding moved
  length-moved n bytes = length-splice _ _ _ ∙ length-splice _ _ bytes

  pub moved-outside :
      (n : MetaHeader) (bytes : List ℕ) (i : ℕ)
      → (i < n.offset - adj) ⊎ (n.offset + n.size ≤ i)
      → get_or (moved n bytes) i 0 ≡ get_or bytes i 0
  unfolding moved
  moved-outside n bytes i h =
      let len = length-take n.size (drop n.offset bytes) in
      get_or-splice_out n.offset (replicate n.size 0) _ i 0
        (omega (arith, length-replicate {A = ℕ} n.size 0))
      ∙ get_or-splice_out (n.offset - adj) (take n.size (drop n.offset bytes)) bytes i 0
          (omega arith)

  move_data-moved :
      (n : MetaHeader) (bytes : List ℕ)
      → adj ≤ n.offset
      → n.offset + n.size ≤ length bytes
      → move_data adj n bytes ≡ some (moved n bytes)
  unfolding move_data moved
  move_data-moved n bytes h k = ground arith

  -- The loop stays inside the byte array, and leaves what the two functions say; the last `memset`
  -- falls behind the table exactly when no slot is free.
  pub del_loop-slide :
      (o : ℕ) (m : MetaHeader) (ms : List MetaHeader) (bytes : List ℕ)
      → Packed (o + adj) ms
      → length bytes ≡ metadata_bytes
      → del_loop adj m ms bytes
        ≡ some (record {
          slots = slide m ms;
          bytes = slide_bytes ms bytes;
          past_end = leb (length ms) (count_used ms);
        })
  unfolding del_loop slide slide_bytes count_used
  del_loop-slide o m [] bytes p e = refl
  del_loop-slide o m (n ∷ ms) bytes (inl (free, f)) e = ground arith
  del_loop-slide o m (n ∷ ms) bytes (inr (live, at, fits, p)) e =
      let o' : ℕ = round8 (o + adj + n.size) - adj in
      let back : round8 (o + adj + n.size) ≡ o' + adj = omega arith in
      let ih =
        del_loop-slide o' (shifted n) ms (moved n bytes) (subst (λ k. Packed k ms) back p)
          (length-moved n bytes ∙ e) in
      ground (arith, ih, move_data-moved n bytes (omega arith) (omega arith))

  pub slide-free :
      (m n : MetaHeader) (ms : List MetaHeader) → n.id ≡ 0 → slide m (n ∷ ms) ≡ n ∷ no_meta ∷ ms
  unfolding slide
  slide-free m n ms e = ground arith

  pub slide-live :
      (m n : MetaHeader) (ms : List MetaHeader)
      → n.id ≢ 0
      → slide m (n ∷ ms) ≡ shifted n ∷ slide (shifted n) ms
  unfolding slide
  slide-live m n ms e = ground arith

  -- Where the entries stand after the move.
  pub slide-Packed :
      (o c : ℕ) (m : MetaHeader) (ms : List MetaHeader)
      → adj ≡ 8 * c
      → count_used ms < length ms
      → Packed (o + adj) ms
      → Packed o (slide m ms)
  unfolding count_used
  slide-Packed o c m [] d u p = absurd (omega arith)
  slide-Packed o c m (n ∷ ms) d u (inl (free, f)) =
      rw (slide-free m n ms free) (inl (free, (refl, f)))
  slide-Packed o c m (n ∷ ms) d u (inr (live, at, fits, p)) =
      let back : round8 (o + adj + n.size) ≡ round8 (o + n.size) + adj = omega arith in
      rw (slide-live m n ms live) (
        inr (
          live,
          omega arith,
          omega arith,
          slide-Packed (round8 (o + n.size)) c (shifted n) ms d (ground arith)
              (subst (λ k. Packed k ms) back p),
        ))

  pub slide_bytes-below :
      (o : ℕ) (ms : List MetaHeader) (bytes : List ℕ) (i : ℕ)
      → Packed (o + adj) ms
      → i < o
      → get_or (slide_bytes ms bytes) i 0 ≡ get_or bytes i 0
  unfolding slide_bytes
  slide_bytes-below o [] bytes i p h = refl
  slide_bytes-below o (n ∷ ms) bytes i (inl (free, f)) h = ground arith
  slide_bytes-below o (n ∷ ms) bytes i (inr (live, at, fits, p)) h =
      let o' : ℕ = round8 (o + adj + n.size) - adj in
      let back : round8 (o + adj + n.size) ≡ o' + adj = omega arith in
      let ih =
        slide_bytes-below o' ms (moved n bytes) i (subst (λ k. Packed k ms) back p) (omega arith) in
      ground (arith, ih, moved-outside n bytes i (omega arith))

  slide_bytes-live :
      (n : MetaHeader) (ms : List MetaHeader) (bytes : List ℕ)
      → n.id ≢ 0
      → slide_bytes (n ∷ ms) bytes ≡ slide_bytes ms (moved n bytes)
  unfolding slide_bytes
  slide_bytes-live n ms bytes e = ground arith

  moved-inside :
      (n : MetaHeader) (bytes : List ℕ) (k : ℕ)
      → adj ≤ n.offset
      → n.offset + n.size ≤ length bytes
      → k < n.size
      → get_or (moved n bytes) (n.offset - adj + k) 0
        ≡ (if ltb k adj then get_or bytes (n.offset + k) 0 else 0)
  unfolding moved
  moved-inside n bytes k low fits h =
      let run = take n.size (drop n.offset bytes) in
      let inner = splice (n.offset - adj) run bytes in
      let len = length-take n.size (drop n.offset bytes) in
      let len' = length-drop n.offset bytes in
      let here : n.offset - adj + k - (n.offset - adj) ≡ k = omega arith in
      elim (dec_lt k adj) [
        | yes small ↦ rw (lt→ltb k adj small) (
            get_or-splice_out n.offset (replicate n.size 0) inner _ 0 (inl (omega arith))
            ∙ get_or-splice_in (n.offset - adj) run bytes _ 0 (omega arith) (omega arith)
                (omega arith)
            ∙ ap (λ t. get_or run t 0) here
            ∙ get_or-take n.size (drop n.offset bytes) k 0 h
            ∙ get_or-drop n.offset bytes k 0)
        | no big ↦ rw (ge→ltb k adj (omega arith)) (
            get_or-splice_in n.offset (replicate n.size 0) inner _ 0 (omega arith)
              (omega (arith, length-replicate {A = ℕ} n.size 0))
              (omega (arith, length-splice (n.offset - adj) run bytes))
            ∙ get_or-replicate n.size _ 0)
      ]

  -- The data of the entry in slot `j`: its first `adj` bytes survive, the rest is zeroed.
  pub slide_bytes-entry :
      (o : ℕ) (ms : List MetaHeader) (bytes : List ℕ) (j k : ℕ) {n : MetaHeader}
      → Packed (o + adj) ms
      → length bytes ≡ metadata_bytes
      → get_elem? ms j ≡ some n
      → n.id ≢ 0
      → k < n.size
      → get_or (slide_bytes ms bytes) (n.offset - adj + k) 0
        ≡ (if ltb k adj then get_or bytes (n.offset + k) 0 else 0)
  slide_bytes-entry o [] bytes j k p len e live h = cc
  slide_bytes-entry o (n' ∷ ms) bytes j k (inl (free, f)) len e live h =
      absurd (live (AllFree-get (n' ∷ ms) j (free, f) e))
  slide_bytes-entry o (n' ∷ ms) bytes zero k {n} (inr (live', at, fits, p)) len e live h =
      let o' : ℕ = round8 (o + adj + n'.size) - adj in
      let back : round8 (o + adj + n'.size) ≡ o' + adj = omega arith in
      let q : Packed (o' + adj) ms = subst (λ t. Packed t ms) back p in
      let size : n'.size ≡ n.size = ground arith in
      let offset : n'.offset ≡ n.offset = ground arith in
      rw
        (
          slide_bytes-live n' ms bytes live',
          ← offset,
          slide_bytes-below o' ms (moved n' bytes) (n'.offset - adj + k) q (omega arith),
        )
        (moved-inside n' bytes k (omega arith) (omega arith) (omega arith))
  slide_bytes-entry o (n' ∷ ms) bytes (suc j) k {n} (inr (live', at, fits, p)) len e live h =
      let o' : ℕ = round8 (o + adj + n'.size) - adj in
      let back : round8 (o + adj + n'.size) ≡ o' + adj = omega arith in
      let q : Packed (o' + adj) ms = subst (λ t. Packed t ms) back p in
      let ih =
        slide_bytes-entry o' ms (moved n' bytes) j k q (length-moved n' bytes ∙ len) e live h in
      let low = Packed-bounds (o' + adj) ms j q e live in
      let kept = moved-outside n' bytes (n.offset + k) (inr (omega arith)) in
      rw (slide_bytes-live n' ms bytes live', ih, kept)
