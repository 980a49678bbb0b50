-- ===== src/Bsdiff/Scan.antt =====
-- lib/bsdiff.c: `bpak_bsdiff_init` and the loops of `bpak_bsdiff`. `sais` is a parameter, and so is the
-- number behind the suffix array.
use bpak.Prelude.{
  ℕ, zero, suc, ◌+◌, ◌-◌, Bool, true, false, not, ◌&&◌, ◌||◌, Option, none, some, List, ltb, ◌==◌,
  if◌then◌else◌, length, drop,
}
use bpak.Int.{ℤ, pos, negsuc, ◌+ℤ◌, ltb_ℤ}
use bpak.Run.{done, Run, pure, ◌>>=◌, ◌>>◌}
use bpak.Status.{Result, ok, err, failed}
use bpak.Patch.Stream.{Compression}
use bpak.Bsdiff.{Diff, search_match}
use bpak.Bsdiff.Compress.{Compressor, Output, compressor_init, compressor_final}
use bpak.Bsdiff.Segment.{byte, write_diff_extra_and_adjustment}

-- `bpak_bsdiff_init`; `zeroed` is the memory of the encoder, `sais` gives no array where it fails.
unfoldable pub bsdiff_init :
    {C : Type 0}
    → Compressor C
    → (List ℕ → Option (List ℕ))
    → C
    → List ℕ
    → List ℕ
    → ℤ
    → Compression
    → Result (Diff C)
unfolding compressor_init
bsdiff_init compress sais zeroed origin_data new_data output_offset compression =
    elim (compressor_init compress compression zeroed) [
      | err e ↦ err e
      | ok c ↦ elim (sais origin_data) [
        | none ↦ err failed
        | some suffix_array ↦ ok (record {
          origin_data = origin_data;
          new_data = new_data;
          suffix_array = suffix_array;
          scan = 0;
          len = 0;
          pos = 0;
          last_scan = 0;
          last_pos = 0;
          last_offset = pos 0;
          output_offset = output_offset;
          output_pos = 0;
          compression = compression;
          compressor = c;
        })
      ]
    ]

-- `origin_data[k + last_offset] == new_data[k]` inside the origin. The index is not negative: `k` is at
-- least the scan at which `last_offset` was taken.
unfoldable pub same_at : {C : Type 0} → Diff C → ℕ → Bool
same_at d k = elim (pos k +ℤ d.last_offset) [
  | pos j ↦ ltb j (length d.origin_data) && byte d.origin_data j == byte d.new_data k
  | negsuc j ↦ false
]

-- The loop over `scsc`, so many rounds.
unfoldable pub score_loop : {C : Type 0} → Diff C → ℕ → ℕ → ℤ → ℤ
score_loop d zero scsc from_score = from_score
score_loop d (suc n) scsc from_score =
    score_loop d n (scsc + 1) (if same_at d scsc then from_score +ℤ pos 1 else from_score)

-- `((len == from_score) && (len != 0)) || (len > from_score + 8)`
unfoldable pub is_good : ℕ → ℤ → Bool
is_good len from_score =
    (not (len == 0) && not (ltb_ℤ (pos len) from_score || ltb_ℤ from_score (pos len)))
    || ltb_ℤ (from_score +ℤ pos 8) (pos len)

-- The `for` loop over `ctx->scan`: a round for each position that is left. What the code does with a
-- negative length, which `matchlen` can return for data of 2^31 bytes and more, is not modelled: `none`.
unfoldable pub scan_loop : {C : Type 0} → ℕ → ℕ → Diff C → ℕ → ℤ → Option (Diff C × ℤ)
scan_loop behind zero d scsc from_score = some (d, from_score)
scan_loop behind (suc n) d scsc from_score =
    elim (search_match d.suffix_array behind d.origin_data (drop d.scan d.new_data)) [
      | none ↦ none
      | some (negsuc n, position) ↦ none
      | some (pos len, position) ↦
          let d' = record d { len = len; pos = position } in
          let reached = d.scan + len in
          let score = score_loop d' (reached - scsc) scsc from_score in
          elim (is_good len score) [
            | true ↦ some (d', score)
            | false ↦
                scan_loop behind n (record d' { scan = d.scan + 1 })
                  (if ltb scsc reached then reached else scsc)
                  (if same_at d' d.scan then score +ℤ negsuc 0 else score)
          ]
    ]

-- `(ctx->len != from_score) || (ctx->scan == new_length)`
unfoldable pub must_write : {C : Type 0} → Diff C → ℤ → Bool
must_write d from_score =
    (ltb_ℤ (pos d.len) from_score || ltb_ℤ from_score (pos d.len)) || d.scan == length d.new_data

-- One pass of the `while` loop in front of the write.
unfoldable pub next_scan : {C : Type 0} → ℕ → Diff C → Option (Diff C × ℤ)
next_scan behind d =
    let scan = d.scan + d.len in
    scan_loop behind (length d.new_data - scan) (record d { scan = scan }) scan (pos 0)

module _ {C W : Type 0} (compress : Compressor C) (write_output : Output W) (behind : ℕ) where
  -- The body of the `while` loop.
  unfoldable pub diff_pass : ℕ → Run (Diff C × W) (Unit {0})
  diff_pass fuel (d, w) = elim (next_scan behind d) [
    | none ↦ none
    | some (d', from_score) ↦
        (if must_write d' from_score
            then write_diff_extra_and_adjustment compress write_output fuel
            else pure tt)
          (d', w)
  ]

  -- The `while` loop. Every pass but the first moves `ctx->scan`.
  unfoldable pub diff_loop : ℕ → ℕ → Run (Diff C × W) (Unit {0})
  diff_loop zero fuel (d, w) =
      if ltb d.scan (length d.new_data) then none else some (done tt, (d, w))
  diff_loop (suc rounds) fuel (d, w) = elim (ltb d.scan (length d.new_data)) [
    | true ↦ (diff_pass fuel >>= λ _. diff_loop rounds fuel) (d, w)
    | false ↦ some (done tt, (d, w))
  ]

  -- `bpak_bsdiff`: the size of the patch. `fuel` is for the encoders.
  unfoldable pub bsdiff : ℕ → Run (Diff C × W) ℕ
  bsdiff fuel (d, w) =
      (do
        diff_loop (length d.new_data + 1) fuel
        compressor_final compress write_output fuel
        λ (d, w). some (done d.output_pos, (d, w)))
        (d, w)
