-- ===== src/Bsdiff/Pieces.antt =====
-- The records that `write_diff_extra_and_adjustment` of lib/bsdiff.c puts out, in the format of a patch.
use native.Mathlib.Omega.{arith}
use bpak.Prelude.{
  ◌+◌, ◌-◌, ◌≤◌, ◌≡◌, refl, sym, ap, ap₂, ◌∙◌, ◌++◌, length, take, drop, length-drop, length-take,
}
use bpak.Int.{pos, pos_part, neg_part, ◌+ℤ◌, int_laws}
use bpak.Offt.{offtout}
use bpak.Patch.Pieces.{Piece, encode}
use bpak.Bsdiff.{Diff}
use bpak.Bsdiff.Segment.{Segment, diff_bytes, extra_size, adjustment, control}
use bpak.Bsdiff.Segment.Cover.{Fits}
use bpak.Bsdiff.Segment.Writes.{record_bytes, length-diff_bytes}

abbrev pub piece : {C : Type 0} → Diff C → Segment → Piece
piece d g = record {
  diff = diff_bytes d g.diff_size 0;
  extra = take (extra_size d g) (drop (d.last_scan + g.diff_size) d.new_data);
  adjust = adjustment d g;
}

module _ {C : Type 0} where
  pub length-extra :
      (d : Diff C) (g : Segment)
      → Fits d g
      → d.scan ≤ length d.new_data
      → length (take (extra_size d g) (drop (d.last_scan + g.diff_size) d.new_data))
        ≡ extra_size d g
  unfolding extra_size
  length-extra d g f h = omega (
    arith,
    f.in_new,
    length-take {0} (extra_size d g) (drop (d.last_scan + g.diff_size) d.new_data),
    length-drop {0} (d.last_scan + g.diff_size) d.new_data,
  )

  control_lem :
      (d : Diff C) (g : Segment)
      → control d g
        ≡ offtout (pos g.diff_size) ++ (offtout (pos (extra_size d g)) ++ offtout (adjustment d g))
  unfolding control
  control_lem d g = refl

  pub encode-piece :
      (d : Diff C) (g : Segment)
      → Fits d g
      → d.scan ≤ length d.new_data
      → encode (piece d g) ≡ record_bytes d g
  unfolding encode
  encode-piece d g f h =
      ap₂
        (λ a b.
          (offtout (pos a) ++ (offtout (pos b) ++ offtout (adjustment d g)))
          ++ (diff_bytes d g.diff_size 0
              ++ take (extra_size d g) (drop (d.last_scan + g.diff_size) d.new_data)))
        (length-diff_bytes d g.diff_size 0) (length-extra d g f h)
      ∙ ap
          (λ t.
            t
            ++ (diff_bytes d g.diff_size 0
                ++ take (extra_size d g) (drop (d.last_scan + g.diff_size) d.new_data)))
          (sym (control_lem d g))

  pub adjustment_parts :
      (d : Diff C) (g : Segment)
      → pos_part (adjustment d g) + (d.last_pos + g.diff_size)
        ≡ neg_part (adjustment d g) + (d.pos - g.lenb)
  unfolding adjustment
  adjustment_parts d g = ground arith

  -- Behind a record the origin's position is that of the next one.
  pub moved :
      (d : Diff C) (g : Segment)
      → Fits d g
      → pos d.last_pos +ℤ pos (length (diff_bytes d g.diff_size 0)) +ℤ adjustment d g
        ≡ pos (d.pos - g.lenb)
  moved d g f = omega (int_laws, length-diff_bytes d g.diff_size 0, adjustment_parts d g)

  pub extra_size-le : (d : Diff C) (g : Segment) → extra_size d g ≤ d.scan
  unfolding extra_size
  extra_size-le d g = omega arith

  pub adjustment-le :
      (d : Diff C) (g : Segment)
      → (pos_part (adjustment d g) ≤ d.pos) × (neg_part (adjustment d g) ≤ d.last_pos + g.diff_size)
  unfolding adjustment
  adjustment-le d g = ground arith
