-- ===== src/Examples/Patches.antt =====
-- Making and applying a patch at a concrete origin and a new file.
use native.Mathlib.Omega.{arith}
use bpak.Prelude.{
  ℕ, ◌+◌, ◌≤◌, ◌≡◌, refl, ap, ◌∙◌, false, none, some, List, [], ◌∷◌, ◌++◌, take, drop, length,
  length-take, length-drop,
}
use bpak.Int.{pos, pos_part, ◌+ℤ◌, int_laws}
use bpak.Run.{done}
use bpak.Status.{Result, ok, err}
use bpak.Patch.{Io}
use bpak.Patch.Pieces.{IsAppend}
use bpak.Patch.Stream.{
  Decompressor, Stream, compression_none, lzma_error, bspatch_init, stream_write, stream_final,
}
use bpak.Bsdiff.{Diff, search_match}
use bpak.Bsdiff.Compress.{Compressor, Output, compressor_write, compressor_final}
use bpak.Bsdiff.Search.{Found, search_match-IsMatch}
use bpak.Bsdiff.Scan.{
  bsdiff_init, bsdiff, diff_loop, diff_pass, next_scan, scan_loop, score_loop, same_at, is_good,
  must_write,
}
use bpak.Bsdiff.Segment.{
  write_diff_extra_and_adjustment, segment, forward_length, backward_length, overlap_loop,
  write_segment, control, extra_size, adjustment, write_diff, write_extra, diff_bytes, next_segment,
}
use bpak.Offt.{offtout}
use bpak.Bsdiff.RoundTrip.{roundtrip}

-- Encoders and decoders that do nothing: they are not called.
abbrev no_encoder : Compressor (Unit {0})
no_encoder = record {
  hs_reset = λ c. c;
  hs_sink = λ c bytes. (pos 0, length bytes, c);
  hs_poll = λ c room. (pos 0, [], c);
  hs_finish = λ c. (pos 0, c);
  lzma_preset = false;
  lzma_stream_encoder = λ c. (lzma_error, c);
  lzma_code = λ c finishing bytes room. (lzma_error, 0, [], c);
}

abbrev pub no_decoder : Decompressor (Unit {0})
no_decoder = record {
  hs_reset = λ d. d;
  hs_sink = λ d bytes. (pos 0, length bytes, d);
  hs_poll = λ d room. (pos 0, [], d);
  hs_finish = λ d. (pos 0, d);
  lzma_stream_decoder = λ d. (lzma_error, d);
  lzma_code = λ d finishing bytes room. (lzma_error, 0, [], d);
}

abbrev append : Output (List ℕ)
append offset bytes out = (pos (length bytes), out ++ bytes)

append-IsAppend : IsAppend append (pos 0) (λ out. out)
append-IsAppend = record { append = λ out bytes. (out ++ bytes, refl, refl) }

abbrev old : List ℕ
old = 10 ∷ 20 ∷ 30 ∷ 40 ∷ 50 ∷ 60 ∷ 70 ∷ 80 ∷ 90 ∷ 100 ∷ 110 ∷ 120 ∷ []

abbrev new : List ℕ
new = 10 ∷ 20 ∷ 31 ∷ 40 ∷ 7 ∷ 8 ∷ 50 ∷ 60 ∷ 70 ∷ 80 ∷ 90 ∷ 100 ∷ 110 ∷ 120 ∷ 1 ∷ []

abbrev sorted : List ℕ
sorted = 0 ∷ 1 ∷ 2 ∷ 3 ∷ 4 ∷ 5 ∷ 6 ∷ 7 ∷ 8 ∷ 9 ∷ 10 ∷ 11 ∷ []

abbrev file : Io (List ℕ)
file = record {
  read_origin = λ offset n out. (
    record {
      count = pos (length (take n (drop (pos_part offset) old)));
      bytes = take n (drop (pos_part offset) old);
    },
    out,
  );
  write_output = append;
}

file-reads :
    (k n : ℕ) (out : List ℕ)
    → k + n ≤ length old
    → file.read_origin (pos 0 +ℤ pos k) n out
      ≡ (record { count = pos n; bytes = take n (drop k old) }, out)
file-reads k n out h =
    let at : pos 0 +ℤ pos k ≡ pos k = omega int_laws in
    ap (λ p. file.read_origin p n out) at
    ∙ ap (λ c. (record { count = pos c; bytes = take n (drop k old) }, out))
        (omega (arith, length-take {0} n (drop k old), length-drop {0} k old))

roundtrip_example :
    (d : Diff (Unit {0})) × (d' : Diff (Unit {0})) × (w' : List ℕ) × (s : Stream (Unit {0}))
    × (s' : Stream (Unit {0})) × (v' : List ℕ) × (bsdiff_init no_encoder
          (λ bytes. some sorted)
          tt
          old
          new
          (pos 0)
          compression_none
        ≡ ok d)
    × (bsdiff no_encoder append 12 5 (d, []) ≡ some (done (length w'), (d', w')))
    × (bspatch_init no_decoder tt 16 (length w') (pos 0) (pos 0) compression_none ≡ ok s)
    × (stream_write no_decoder file 5 w' (s, []) ≡ some (done tt, (s', v')))
    × (v' ≡ new)
    × (stream_final no_decoder file 5 (s', v') ≡ some (done (pos (length new)), (s', v')))
roundtrip_example =
    roundtrip no_encoder append (pos 0) 12 (λ out. out) append-IsAppend no_decoder file old new
      sorted (pos 0) (pos 0) (λ out. out) append-IsAppend file-reads (λ bytes. some sorted) tt tt 5
      16 [] [] refl (omega arith) (omega arith) (omega arith) (omega arith) (omega arith)
      (omega arith) (omega arith) (omega arith) refl refl

search_match-IsMatch_example :
    Found old (90 ∷ 100 ∷ 1 ∷ []) (search_match sorted 12 old (90 ∷ 100 ∷ 1 ∷ []))
search_match-IsMatch_example =
    search_match-IsMatch sorted 12 old (omega arith) (omega arith) (90 ∷ 100 ∷ 1 ∷ []) (omega arith)

search_run : search_match sorted 12 old (90 ∷ 100 ∷ 1 ∷ []) ≡ some (pos 2, 8)
unfolding search_match
search_run = refl

-- The bytes that a run puts out.
abbrev out_of : Result (Diff (Unit {0})) → List ℕ
out_of (err e) = []
out_of (ok d) = elim (bsdiff no_encoder append 12 5 (d, [])) [ none ↦ [] | some r ↦ r.1.1 ]

-- A record with a diff of two bytes, thirteen bytes of their own and a step of -1.
patch_run :
    out_of (bsdiff_init no_encoder (λ bytes. some sorted) tt old new (pos 0) compression_none)
    ≡ 2 ∷ 0 ∷ 0 ∷ 0 ∷ 0 ∷ 0 ∷ 0 ∷ 0 ∷ 13 ∷ 0 ∷ 0 ∷ 0 ∷ 0 ∷ 0 ∷ 0 ∷ 0 ∷ 1 ∷ 0 ∷ 0 ∷ 0 ∷ 0 ∷ 0 ∷ 0
      ∷ 128 ∷ 0 ∷ 0 ∷ 31 ∷ 40 ∷ 7 ∷ 8 ∷ 50 ∷ 60 ∷ 70 ∷ 80 ∷ 90 ∷ 100 ∷ 110 ∷ 120 ∷ 1 ∷ []
unfolding bsdiff_init bsdiff diff_loop diff_pass next_scan scan_loop score_loop same_at is_good
    search_match must_write write_diff_extra_and_adjustment segment forward_length backward_length
    overlap_loop write_segment control extra_size adjustment write_diff write_extra diff_bytes
    next_segment compressor_write compressor_final offtout ◌+ℤ◌
patch_run = refl
