-- ===== src/Bsdiff/Segment.antt =====
-- lib/bsdiff.c, `write_diff_extra_and_adjustment`: one record of a patch, for the new data from
-- `ctx->last_scan` on. The sums of the source are moved to the side of a comparison where they are
-- positive; the differences that are left are not negative (`Cover`).
pub mod Cover
pub mod Writes
use bpak.Prelude.{
  ℕ, zero, suc, ◌+◌, ◌-◌, ◌*◌, ◌%◌, min, List, [], ◌∷◌, ◌++◌, some, true, false, ltb, ◌==◌,
  if◌then◌else◌, length, get_or, take, drop,
}
use bpak.Int.{ℤ, pos, sub_ℕ, ◌+ℤ◌, ltb_ℤ, negsuc}
use bpak.Run.{done, Run, pure, out_of_fuel, ◌>>=◌, ◌>>◌}
use bpak.Offt.{offtout}
use bpak.Payload.{chunk_buffer_length}
use bpak.Bsdiff.{Diff}
use bpak.Bsdiff.Compress.{Compressor, Output, compressor_write}

abbrev pub byte : List ℕ → ℕ → ℕ
byte bytes i = get_or bytes i 0

-- The loops on the data of a context. The rounds of each are those that its condition allows.
module _ {C : Type 0} (d : Diff C) where
  unfoldable pub forward_loop : ℕ → ℕ → ℕ → ℕ → ℕ → ℕ
  forward_loop zero i s sf diff_size = diff_size
  forward_loop (suc n) i s sf diff_size =
      let s' =
        if byte d.origin_data (d.last_pos + i) == byte d.new_data (d.last_scan + i)
        then s + 1
        else s in
      let better = ltb (sf * 2 + (i + 1)) (s' * 2 + diff_size) in
      forward_loop n (i + 1) s' (if better then s' else sf) (if better then i + 1 else diff_size)

  unfoldable pub backward_loop : ℕ → ℕ → ℕ → ℕ → ℕ → ℕ
  backward_loop zero i s sb lenb = lenb
  backward_loop (suc n) i s sb lenb =
      let s' =
        if byte d.origin_data (d.pos - i) == byte d.new_data (d.scan - i) then s + 1 else s in
      let better = ltb (sb * 2 + i) (s' * 2 + lenb) in
      backward_loop n (i + 1) s' (if better then s' else sb) (if better then i else lenb)

  -- `diff_start` is `diff_size - overlap`.
  unfoldable pub overlap_loop : ℕ → ℕ → ℕ → ℕ → ℤ → ℤ → ℕ → ℕ
  overlap_loop zero diff_start lenb i s ss lens = lens
  overlap_loop (suc n) diff_start lenb i s ss lens =
      let s' =
        if byte d.new_data (d.last_scan + diff_start + i)
          == byte d.origin_data (d.last_pos + diff_start + i)
        then s +ℤ pos 1
        else s in
      let s'' =
        if byte d.new_data (d.scan - lenb + i) == byte d.origin_data (d.pos - lenb + i)
        then s' +ℤ negsuc 0
        else s' in
      let better = ltb_ℤ ss s'' in
      overlap_loop n diff_start lenb (i + 1) s'' (if better then s'' else ss)
        (if better then i + 1 else lens)

  unfoldable pub forward_length : ℕ
  unfolding forward_loop
  forward_length =
      forward_loop (min (d.scan - d.last_scan) (length d.origin_data - d.last_pos)) 0 0 0 0

  unfoldable pub backward_length : ℕ
  unfolding backward_loop
  backward_length =
      if ltb d.scan (length d.new_data)
      then backward_loop (min (d.scan - d.last_scan) d.pos) 1 0 0 0
      else 0

-- The length of the diff, and how far in front of `ctx->scan` and `ctx->pos` the next record starts.
pub record Segment : Type 0 where
  pub diff_size : ℕ
  pub lenb : ℕ

unfoldable pub segment : {C : Type 0} → Diff C → Segment
segment d =
    let diff_size = forward_length d in
    let lenb = backward_length d in
    let overlap = d.last_scan + diff_size + lenb - d.scan in
    let lens = overlap_loop d overlap (diff_size - overlap) lenb 0 (pos 0) (pos 0) 0 in
    if ltb 0 overlap
    then record { diff_size = diff_size + lens - overlap; lenb = lenb - lens }
    else record { diff_size = diff_size; lenb = lenb }

-- `ctx->new_data[last_scan + i] - ctx->origin_data[last_pos + i]` for `n` bytes from `i` on.
unfoldable pub diff_bytes : {C : Type 0} → Diff C → ℕ → ℕ → List ℕ
diff_bytes d zero i = []
diff_bytes d (suc n) i =
    ((byte d.new_data (d.last_scan + i) + 256 - byte d.origin_data (d.last_pos + i)) % 256)
    ∷ diff_bytes d n (i + 1)

unfoldable pub extra_size : {C : Type 0} → Diff C → Segment → ℕ
extra_size d g = d.scan - g.lenb - (d.last_scan + g.diff_size)

-- `(ctx->pos - lenb) - (last_pos + diff_size)`
unfoldable pub adjustment : {C : Type 0} → Diff C → Segment → ℤ
adjustment d g = sub_ℕ (d.pos - g.lenb) (d.last_pos + g.diff_size)

unfoldable pub control : {C : Type 0} → Diff C → Segment → List ℕ
control d g =
    offtout (pos g.diff_size) ++ (offtout (pos (extra_size d g)) ++ offtout (adjustment d g))

unfoldable pub next_segment : {C : Type 0} → Segment → Diff C → Diff C
next_segment g d = record d {
  last_scan = d.scan - g.lenb;
  last_pos = d.pos - g.lenb;
  last_offset = sub_ℕ d.pos d.scan;
}

module _ {C W : Type 0} (compress : Compressor C) (write_output : Output W) where
  -- The loop that writes the diff: at most one pass for each byte. The data is that of the context `d0`.
  unfoldable pub write_diff : ℕ → ℕ → Diff C → ℕ → ℕ → Run (Diff C × W) (Unit {0})
  write_diff zero fuel d0 data_to_write i = if data_to_write == 0 then pure tt else out_of_fuel
  write_diff (suc rounds) fuel d0 data_to_write i = elim (data_to_write == 0) [
    | true ↦ pure tt
    | false ↦
        let chunk_len = min data_to_write chunk_buffer_length in
        do
          compressor_write compress write_output fuel (diff_bytes d0 chunk_len i)
          write_diff rounds fuel d0 (data_to_write - chunk_len) (i + chunk_len)
  ]

  unfoldable pub write_extra : ℕ → List ℕ → Run (Diff C × W) (Unit {0})
  write_extra fuel extra =
      if length extra == 0 then pure tt else compressor_write compress write_output fuel extra

  unfoldable pub write_segment : ℕ → Diff C → Segment → Run (Diff C × W) (Unit {0})
  write_segment fuel d0 g = do
    compressor_write compress write_output fuel (control d0 g)
    write_diff g.diff_size fuel d0 g.diff_size 0
    write_extra fuel (take (extra_size d0 g) (drop (d0.last_scan + g.diff_size) d0.new_data))
    λ (d, w). some (done tt, (next_segment g d, w))

  unfoldable pub write_diff_extra_and_adjustment : ℕ → Run (Diff C × W) (Unit {0})
  write_diff_extra_and_adjustment fuel (d, w) = write_segment fuel d (segment d) (d, w)
