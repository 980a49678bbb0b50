-- ===== src/Bsdiff/Rebuild.antt =====
-- The patch that `bpak_bsdiff` makes, read record by record, rebuilds the new data from the origin.
use native.Mathlib.Omega.{arith}
use bpak.Prelude.{
  ℕ, zero, suc, ◌+◌, ◌-◌, ◌≤◌, ◌<◌, ◌^◌, ◌≡◌, ◌≢◌, refl, subst, sym, ap, ◌∙◌, ◌⊎◌, inl, inr, true,
  false, Bool-cases, some, Option, List, [], ◌∷◌, ◌++◌, ltb, ltb→lt, length, take, drop, drop-all,
  append-nil, append_assoc, All,
}
use bpak.Int.{ℤ, pos, ◌+ℤ◌}
use bpak.Run.{Rc, done, Run, ◌>>=◌}
use bpak.Patch.{add_bytes}
use bpak.Patch.Pieces.{Piece, stream, window, patched, IsAppend, AreApplicable}
use bpak.Status.{ok}
use bpak.Patch.Stream.{Compression, compression_none}
use bpak.Bsdiff.{Diff}
use bpak.Bsdiff.Compress.{Compressor, Output, compressor_init, compressor_final, final_by}
use bpak.Bsdiff.Segment.{
  Segment, segment, diff_bytes, extra_size, adjustment, next_segment,
  write_diff_extra_and_adjustment,
}
use bpak.Bsdiff.Pieces.{piece, length-extra, encode-piece, adjustment-le, extra_size-le, moved}
use bpak.Bsdiff.Segment.Cover.{Fits, segment-Fits, segment-covers, AreBytes}
use bpak.Bsdiff.Segment.Writes.{
  IsReady, grown, Ready-grown, record_bytes, write_segment-Puts, length-diff_bytes,
}
use bpak.Bsdiff.Scan.{must_write, next_scan, diff_pass, diff_loop, bsdiff, bsdiff_init}
use bpak.Bsdiff.Progress.{IsInside, IsStop, next_scan-Stops}

module _ {C : Type 0} where
  -- Positions lie in the data, and the data in front of `ctx->last_scan` is written.
  pub record IsPlaced (d : Diff C) : Type 0 where
    pub last_le : d.last_scan ≤ d.scan
    pub in_origin : d.pos ≤ length d.origin_data
    pub last_in : d.last_pos ≤ length d.origin_data
    pub ends :
        ((d.scan ≡ length d.new_data) × (d.last_scan ≡ length d.new_data))
        ⊎ ((d.scan < length d.new_data) × (d.scan + d.len ≤ length d.new_data))

first_ends : (n : ℕ) → ((0 ≡ n) × (0 ≡ n)) ⊎ ((0 < n) × (0 ≤ n))
first_ends zero = inl (refl, refl)
first_ends (suc n) = inr (omega arith, omega arith)

module _ {C W : Type 0} (compress : Compressor C) (write_output : Output W) (base : ℤ) (behind : ℕ)
    (contents : W → List ℕ) (writer : IsAppend write_output base contents) where
  abbrev Rebuilds : Diff C → W → Option (Rc (Unit {0}) × (Diff C × W)) → Type 0
  Rebuilds d w r =
      (d' : Diff C) × (w' : W) × (ps : List Piece) × (r ≡ some (done tt, (d', w')))
      × (contents w' ≡ contents w ++ stream ps)
      × (patched d.origin_data (pos d.last_pos) ps ≡ drop d.last_scan d.new_data)
      × AreApplicable d.origin_data (pos d.last_pos) ps
      × IsReady base contents d' w'

  -- The data are bytes, and fewer than an `int64_t` can count.
  record IsData (d : Diff C) : Type 0 where
    bytes_origin : AreBytes d.origin_data
    bytes_new : AreBytes d.new_data
    short_origin : length d.origin_data < 2 ^ 63
    short_new : length d.new_data < 2 ^ 63

  -- What is asked of a context in front of a pass.
  record IsGood (d : Diff C) (w : W) : Type 0 where
    ready : IsReady base contents d w
    inside : IsInside d behind
    placed : IsPlaced d
    bytes : IsData d

  -- At the end all of the new data is written.
  end_Rebuilds :
      (d : Diff C) (w : W)
      → IsGood d w
      → ltb d.scan (length d.new_data) ≡ false
      → Rebuilds d w (some (done tt, (d, w)))
  unfolding patched stream
  end_Rebuilds d w g h =
      let all : drop d.last_scan d.new_data ≡ [] = elim g.placed.ends [
        | inl (at_end, wrote) ↦ drop-all d.last_scan d.new_data (omega (arith, wrote))
        | inr (inside, fits) ↦ absurd (ground arith)
      ] in
      (d, w, [], refl, sym (append-nil (contents w)), sym all, tt, g.ready)

  -- The data is not changed.
  again :
      (d : Diff C) (scan len position : ℕ)
      → IsData d
      → IsData (record d { scan = scan; len = len; pos = position })
  again d scan len position b = record {
    bytes_origin = b.bytes_origin;
    bytes_new = b.bytes_new;
    short_origin = b.short_origin;
    short_new = b.short_new;
  }

  -- The record that is written can be applied.
  applies :
      (d : Diff C) (g : Segment)
      → Fits d g
      → IsData d
      → d.scan ≤ length d.new_data
      → d.last_pos ≤ length d.origin_data
      → d.pos ≤ length d.origin_data
      → (ps : List Piece) → AreApplicable d.origin_data (pos (d.pos - g.lenb)) ps
      → AreApplicable d.origin_data (pos d.last_pos) (piece d g ∷ ps)
  applies d g f b in_new in_origin in_pos ps rest =
      let diff = length-diff_bytes d g.diff_size 0 in
      let extra = length-extra d g f in_new in
      (
        (d.last_pos, refl, omega (arith, diff, f.in_origin)),
        (
          omega (arith, diff, f.in_origin, b.short_origin),
          omega (arith, extra, extra_size-le d g, b.short_new),
        ),
        omega (arith, adjustment-le d g, b.short_origin, f.in_origin),
        subst (λ p. AreApplicable d.origin_data p ps) (sym (moved d g f)) rest,
      )

  -- A write and then the rest of the records.
  write_Rebuilds :
      (fuel : ℕ) (k : Run (Diff C × W) (Unit {0})) (d : Diff C) (w : W)
      → IsReady base contents d w
      → IsData d
      → d.last_scan ≤ d.scan
      → d.scan ≤ length d.new_data
      → d.last_pos ≤ length d.origin_data
      → d.pos ≤ length d.origin_data
      → ((w' : W) (n : ℕ)
          → Fits d (segment d)
          → IsReady base contents (next_segment (segment d) (grown d n)) w'
          → Rebuilds
              (next_segment (segment d) (grown d n))
              w'
              (k (next_segment (segment d) (grown d n), w')))
      → Rebuilds d w
          ((write_diff_extra_and_adjustment compress write_output fuel >>= λ _. k) (d, w))
  unfolding patched stream window write_diff_extra_and_adjustment next_segment
  write_Rebuilds fuel k d w r bytes le in_new in_origin in_pos next =
      let g = segment d in
      let f = segment-Fits d le in
      let (w1, run, wrote) =
        write_segment-Puts compress write_output base contents writer fuel g d w r in
      let r1 =
        Ready-grown compress write_output base contents writer d w w1 (record_bytes d g) r wrote in
      let (d2, w2, ps, run', wrote', same, applicable, r2) =
        next w1 (length (record_bytes d g)) f
          (record { plain = r1.plain; based = r1.based; counted = r1.counted }) in
      (
        d2,
        w2,
        piece d g ∷ ps,
        rw (run, ◌>>=◌) run',
        wrote'
            ∙ ap (λ t. t ++ stream ps) wrote
            ∙ append_assoc (contents w) (record_bytes d g) (stream ps)
            ∙ ap (λ t. contents w ++ (t ++ stream ps)) (sym (encode-piece d g f in_new)),
        ap (λ n. join n (pos d.last_pos +ℤ pos (length diff) +ℤ adjustment d g) ps)
              (length-diff_bytes d g.diff_size 0)
            ∙ ap (λ p. join g.diff_size p ps) (moved d g f)
            ∙ ap
                (λ t.
                  add_bytes (take g.diff_size (drop d.last_pos d.origin_data)) diff ++ (extra ++ t))
                same
            ∙ segment-covers d bytes.bytes_origin bytes.bytes_new g f in_origin in_new,
        applies d g f bytes in_new in_origin in_pos ps applicable,
        r2,
      )
    where
      diff : List ℕ
      diff = diff_bytes d (segment d).diff_size 0

      extra : List ℕ
      extra =
          take (extra_size d (segment d)) (drop (d.last_scan + (segment d).diff_size) d.new_data)

      join : ℕ → ℤ → List Piece → List ℕ
      join n p ps =
          add_bytes (take n (drop d.last_pos d.origin_data)) diff
          ++ (extra ++ patched d.origin_data p ps)

  pass_write :
      (fuel : ℕ) (d d' : Diff C) (score : ℤ) (w : W)
      → next_scan behind d ≡ some (d', score)
      → must_write d' score ≡ true
      → diff_pass compress write_output behind fuel (d, w)
        ≡ write_diff_extra_and_adjustment compress write_output fuel (d', w)
  unfolding diff_pass
  pass_write fuel d d' score w e write = rw (e, diff_pass) (rw write refl)

  pass_skip :
      (fuel : ℕ) (d d' : Diff C) (score : ℤ) (w : W)
      → next_scan behind d ≡ some (d', score)
      → must_write d' score ≡ false
      → diff_pass compress write_output behind fuel (d, w) ≡ some (done tt, (d', w))
  unfolding diff_pass
  pass_skip fuel d d' score w e skip = rw (e, diff_pass) (rw skip refl)

  must_write-end :
      (d : Diff C) (score : ℤ) → must_write d score ≡ false → d.scan ≢ length d.new_data
  unfolding must_write
  must_write-end d score h e = ground arith

  -- The context behind a write.
  written :
      (d : Diff C) (w : W) (n : ℕ)
      → Fits d (segment d)
      → IsReady base contents (next_segment (segment d) (grown d n)) w
      → IsInside d behind
      → d.last_scan ≤ d.scan
      → d.pos ≤ length d.origin_data
      → IsData d
      → (d.scan ≡ length d.new_data)
        ⊎ ((d.scan < length d.new_data) × (d.scan + d.len ≤ length d.new_data) × (0 < d.len))
      → IsGood (next_segment (segment d) (grown d n)) w
  unfolding next_segment
  written d w n f r i le p bytes ends = record {
    ready = r;
    inside = record { entries = i.entries; garbage = i.garbage; small = i.small };
    placed = record {
      last_le = omega arith;
      in_origin = p;
      last_in = omega (arith, p);
      ends = elim ends [
        | inl end ↦ inl (end, omega (arith, end, f.at_end end))
        | inr (inside, fits, longer) ↦ inr (inside, fits)
      ];
    };
    bytes = record {
      bytes_origin = bytes.bytes_origin;
      bytes_new = bytes.bytes_new;
      short_origin = bytes.short_origin;
      short_new = bytes.short_new;
    };
  }

  -- What the rest of the loop is given: the context behind a pass, from which less is left.
  abbrev Rest : Run (Diff C × W) (Unit {0}) → Diff C → Type 0
  Rest k d =
      (d' : Diff C) (w' : W)
      → IsGood d' w'
      → (d'.scan < length d'.new_data
          → length d'.new_data - (d'.scan + d'.len) < length d.new_data - (d.scan + d.len))
      → Rebuilds d' w' (k (d', w'))

  stop_Rebuilds :
      (fuel : ℕ) (k : Run (Diff C × W) (Unit {0})) (d : Diff C) (w : W) (scan len position : ℕ)
      (score : ℤ)
      → IsGood d w
      → d.scan + d.len ≤ length d.new_data
      → next_scan behind d ≡ some (record d { scan = scan; len = len; pos = position }, score)
      → IsStop (record d { scan = d.scan + d.len }) scan len position
      → Rest k d
      → Rebuilds d w ((diff_pass compress write_output behind fuel >>= λ _. k) (d, w))
  unfolding next_segment
  stop_Rebuilds fuel k d w scan len position score g fits found st next =
      let d1 = record d { scan = scan; len = len; pos = position } in
      let inside : scan ≤ length d.new_data = omega (arith, st.ends) in
      let ready : IsReady base contents d1 w = record {
        plain = g.ready.plain;
        based = g.ready.based;
        counted = g.ready.counted;
      } in
      let placed_le : d.last_scan ≤ scan = omega (arith, g.placed.last_le, st.forward) in
      elim (Bool-cases (must_write d1 score)) [
        | inl write ↦
            rw (pass_write fuel d d1 score w found write, ◌>>=◌)
              (write_Rebuilds fuel k d1 w ready (again d scan len position g.bytes) placed_le inside
                g.placed.last_in st.in_origin
                (λ w' n f r.
                  next (next_segment (segment d1) (grown d1 n)) w'
                    (written d1 w' n f r
                      (record {
                        entries = g.inside.entries;
                        garbage = g.inside.garbage;
                        small = g.inside.small;
                      })
                      placed_le st.in_origin (again d scan len position g.bytes) st.ends)
                    (λ h. omega (arith, st.ends, st.forward, fits))))
        | inr skip ↦
            rw (pass_skip fuel d d1 score w found skip, ◌>>=◌)
              (next d1 w
                (record {
                  ready = ready;
                  inside = record {
                    entries = g.inside.entries;
                    garbage = g.inside.garbage;
                    small = g.inside.small;
                  };
                  placed = record {
                    last_le = placed_le;
                    in_origin = st.in_origin;
                    last_in = g.placed.last_in;
                    ends = inr (omega (arith, must_write-end d1 score skip, st.ends));
                  };
                  bytes = again d scan len position g.bytes;
                })
                (λ h. omega (arith, st.ends, st.forward, fits)))
      ]

  loop_Rebuilds :
      (rounds fuel : ℕ) (d : Diff C) (w : W)
      → IsGood d w
      → (d.scan < length d.new_data → length d.new_data - (d.scan + d.len) < rounds)
      → Rebuilds d w (diff_loop compress write_output behind rounds fuel (d, w))
  unfolding diff_loop
  loop_Rebuilds zero fuel d w g enough = elim (Bool-cases (ltb d.scan (length d.new_data))) [
    | inl more ↦ absurd (omega (arith, enough (ltb→lt _ _ more)))
    | inr end ↦ rw (end, diff_loop) (end_Rebuilds d w g end)
  ]
  loop_Rebuilds (suc rounds) fuel d w g enough =
      elim (Bool-cases (ltb d.scan (length d.new_data))) [
        | inl more ↦
            rw (more, diff_loop)
              (let fits : d.scan + d.len ≤ length d.new_data =
                  omega (arith, g.placed.ends, ltb→lt _ _ more) in
                let (scan, len, position, score, found, st) =
                  next_scan-Stops behind d g.inside fits g.placed.in_origin in
                stop_Rebuilds fuel (diff_loop compress write_output behind rounds fuel) d w scan len
                  position score g fits found st
                  (λ d' w' g' less.
                    loop_Rebuilds rounds fuel d' w' g'
                      (λ h. omega (arith, less h, enough (ltb→lt _ _ more)))))
        | inr end ↦ rw (end, diff_loop) (end_Rebuilds d w g end)
      ]

  bsdiff-run :
      (fuel : ℕ) (d : Diff C) (w : W) (d' : Diff C) (w' : W)
      → diff_loop compress write_output behind (length d.new_data + 1) fuel (d, w)
        ≡ some (done tt, (d', w'))
      → d'.compression ≡ compression_none
      → bsdiff compress write_output behind fuel (d, w) ≡ some (done d'.output_pos, (d', w'))
  unfolding bsdiff compressor_final final_by
  bsdiff-run fuel d w d' w' run plain = rw (run, ◌>>=◌) (ap ended plain)
    where
      ended : Compression → Option (Rc ℕ × (Diff C × W))
      ended c =
          (final_by compress write_output c fuel >>= λ _ (d, w). some (done d.output_pos, (d, w)))
            (d', w')

  -- What `bpak_bsdiff_init` sets up.
  start : C → List ℕ → List ℕ → List ℕ → Diff C
  start zeroed origin new sa = record {
    origin_data = origin;
    new_data = new;
    suffix_array = sa;
    scan = 0;
    len = 0;
    pos = 0;
    last_scan = 0;
    last_pos = 0;
    last_offset = pos 0;
    output_offset = base;
    output_pos = 0;
    compression = compression_none;
    compressor = zeroed;
  }

  -- Making a patch without compression, with a callback that appends to an empty output: if the entries of
  -- the suffix array and the number behind it are positions of the origin or its end, and the new data is
  -- shorter than 2^31 bytes, `bpak_bsdiff` comes to an end, puts out control numbers, diff and extra bytes of records, returns how many bytes that is, and the
  -- records rebuild the new data from the origin.
  pub bsdiff-patched :
      (fuel : ℕ) (sais : List ℕ → Option (List ℕ)) (zeroed : C) (origin new sa : List ℕ) (w : W)
      → sais origin ≡ some sa
      → All (λ s. s ≤ length origin) sa
      → behind ≤ length origin
      → AreBytes origin
      → AreBytes new
      → length origin < 2 ^ 63
      → length new < 2 ^ 31
      → contents w ≡ []
      → (d : Diff C) × (d' : Diff C) × (w' : W) × (ps : List Piece) × (bsdiff_init compress sais
            zeroed origin new base compression_none
          ≡ ok d)
        × (bsdiff compress write_output behind fuel (d, w)
            ≡ some (done (length (stream ps)), (d', w')))
        × (contents w' ≡ stream ps)
        × (patched origin (pos 0) ps ≡ new)
        × AreApplicable origin (pos 0) ps
  unfolding bsdiff_init compressor_init start
  bsdiff-patched fuel sais zeroed origin new sa w sorted entries garbage bo bn so sn empty =
      let d = start zeroed origin new sa in
      let (d', w', ps, run, wrote, same, applicable, ready) =
        loop_Rebuilds (length new + 1) fuel d w
          (record {
            ready = record { plain = refl; based = refl; counted = sym (ap length empty) };
            inside = record { entries = entries; garbage = garbage; small = sn };
            placed = record {
              last_le = omega arith;
              in_origin = omega arith;
              last_in = omega arith;
              ends = first_ends (length new);
            };
            bytes = record {
              bytes_origin = bo;
              bytes_new = bn;
              short_origin = so;
              short_new = omega (arith, sn);
            };
          })
          (λ h. omega arith) in
      let out : contents w' ≡ stream ps = wrote ∙ ap (λ t. t ++ stream ps) empty in
      let size : d'.output_pos ≡ length (stream ps) = ready.counted ∙ ap length out in
      (
        d,
        d',
        w',
        ps,
        rw sorted refl,
        bsdiff-run fuel d w d' w' run ready.plain ∙ ap (λ n. some (done n, (d', w'))) size,
        out,
        same,
        applicable,
      )
