-- ===== src/Bsdiff/RoundTrip.antt =====
-- Making a patch and applying it: lib/bsdiff.c and lib/bspatch.c together, without compression.
use native.Mathlib.Omega.{arith}
use bpak.Prelude.{
  ℕ, ◌+◌, ◌/◌, ◌%◌, ◌^◌, ◌≤◌, ◌<◌, ◌≡◌, ◌≢◌, refl, sym, ap, ◌∙◌, true, Option, none, some, ==_iff,
  zero, List, [], ◌++◌, ◌==◌, length, take, drop, All,
}
use bpak.Int.{ℤ, pos, negsuc, ◌+ℤ◌}
use bpak.Run.{Rc, done, fail, Run, pure, raise, ◌>>=◌}
use bpak.Status.{ok, not_supported}
use bpak.Patch.{
  State, fill_ctrl_buf, read_ctrl, apply_diff, apply_extra, finish, error, Context, Io, Step, more,
  stop, fault, bspatch_write,
}
use bpak.Patch.Pieces.{IsAppend, Piece, stream, patched, AreApplicable}
use bpak.Patch.Apply.{bspatch_write-patched}
use bpak.Patch.Stream.{
  Compression, compression_none, compression_hs, compression_lzma, unknown, hs_write, lzma_write,
  Decompressor, Stream, fresh_context, bspatch_init, patch_bytes, stream_write, stream_final,
}
use bpak.Bsdiff.{Diff}
use bpak.Bsdiff.Compress.{Compressor, Output}
use bpak.Bsdiff.Segment.Cover.{AreBytes}
use bpak.Bsdiff.Scan.{bsdiff_init, bsdiff}
use bpak.Bsdiff.Rebuild.{bsdiff-patched}

-- Applying: what is written is what the records mean, and the final call returns how much that is.
module _ {D V : Type 0} (decompress : Decompressor D) (io : Io V) (origin : List ℕ)
    (origin_offset output_offset : ℤ) (contents : V → List ℕ)
    (writer : IsAppend io.write_output output_offset contents)
    (reads : (k n : ℕ) (v : V)
      → k + n ≤ length origin
      → io.read_origin (origin_offset +ℤ pos k) n v
        ≡ (record { count = pos n; bytes = take n (drop k origin) }, v)) where
  abbrev pub opened : D → ℕ → ℕ → Stream D
  opened zeroed buffer_length input_length = record {
    context = fresh_context (buffer_length / 2) origin_offset output_offset;
    input_buffer_length = buffer_length / 2;
    input_length = input_length;
    input_position = 0;
    compression = compression_none;
    decompressor = zeroed;
  }

  pub bspatch_init-opened :
      (zeroed : D) (buffer_length input_length : ℕ)
      → buffer_length % 2 ≡ 0
      → bspatch_init decompress zeroed buffer_length input_length origin_offset output_offset
          compression_none
        ≡ ok (opened zeroed buffer_length input_length)
  unfolding bspatch_init
  bspatch_init-opened zeroed buffer_length input_length even =
      let e : (buffer_length % 2 == 0) ≡ true = (==_iff _ 0).1 even in rw (e, bspatch_init) refl

  write-run :
      (fuel : ℕ) (s : Stream D) (bytes : List ℕ) (v : V) (c : Context) (v' : V)
      → s.compression ≡ compression_none
      → bspatch_write io s.context bytes v ≡ some (stop (pos 0) c v')
      → stream_write decompress io fuel bytes (s, v)
        ≡ some (done tt, (record s { context = c }, v'))
  unfolding stream_write patch_bytes
  write-run fuel s bytes v c v' plain run = ap write plain ∙ ap wrote run
    where
      write : Compression → Option (Rc (Unit {0}) × (Stream D × V))
      write k =
          (elim k as (λ _. Run (Stream D × V) (Unit {0})) [
            | compression_none ↦ patch_bytes decompress io bytes
            | compression_hs ↦ hs_write decompress io fuel bytes
            | compression_lzma ↦ lzma_write decompress io fuel bytes
            | unknown ↦ raise not_supported
          ])
            (s, v)

      wrote : Option (Step V) → Option (Rc (Unit {0}) × (Stream D × V))
      wrote r = elim r [
        | none ↦ none
        | some (more c pp w') ↦ none
        | some (stop (pos zero) c w') ↦ some (done tt, (record s { context = c }, w'))
        | some (stop rc c w') ↦ some (fail rc, (record s { context = c }, w'))
        | some fault ↦ none
      ]

  final-run :
      (fuel : ℕ) (s : Stream D) (v : V)
      → s.compression ≡ compression_none
      → s.context.state ≢ error
      → stream_final decompress io fuel (s, v) ≡ some (done s.context.output_position, (s, v))
  unfolding stream_final
  final-run fuel s v plain fine = pick s.context.state fine
    where
      flush : Compression → Option (Rc ℤ × (Stream D × V))
      flush k =
          ((elim k as (λ _. Run (Stream D × V) (Unit {0})) [
            | compression_none ↦ pure tt
            | compression_hs ↦ pure tt
            | compression_lzma ↦ lzma_write decompress io fuel []
            | unknown ↦ raise not_supported
          ])
              >>= λ _ (s, w). some (done s.context.output_position, (s, w)))
            (s, v)

      pick :
          (st : State)
          → st ≢ error
          → (elim st as (λ _. Option (Rc ℤ × (Stream D × V))) [
            | error ↦ some (fail (negsuc 0), (s, v))
            | _ ↦
                ((elim s.compression as (λ _. Run (Stream D × V) (Unit {0})) [
                  | compression_none ↦ pure tt
                  | compression_hs ↦ pure tt
                  | compression_lzma ↦ lzma_write decompress io fuel []
                  | unknown ↦ raise not_supported
                ])
                    >>= λ _ (s, w). some (done s.context.output_position, (s, w)))
                  (s, v)
          ])
            ≡ some (done s.context.output_position, (s, v))
      pick error h = absurd (h refl)
      pick fill_ctrl_buf h = ap flush plain
      pick read_ctrl h = ap flush plain
      pick apply_diff h = ap flush plain
      pick apply_extra h = ap flush plain
      pick finish h = ap flush plain

  pub stream_write-patched :
      (fuel input_length : ℕ) (zeroed : D) (buffer_length : ℕ) (ps : List Piece) (v : V)
      → 2 ≤ buffer_length
      → contents v ≡ []
      → AreApplicable origin (pos 0) ps
      → (s : Stream D) × (v' : V) × (stream_write decompress io fuel
            (stream ps)
            (opened zeroed buffer_length input_length, v)
          ≡ some (done tt, (s, v')))
        × (contents v' ≡ patched origin (pos 0) ps)
        × (stream_final decompress io fuel (s, v')
            ≡ some (done (pos (length (patched origin (pos 0) ps))), (s, v')))
  unfolding fresh_context
  stream_write-patched fuel input_length zeroed buffer_length ps v room empty applicable =
      let s0 = opened zeroed buffer_length input_length in
      let (c, v', run, wrote, fine, counted) =
        bspatch_write-patched io origin origin_offset output_offset contents writer reads
          (fresh_context (buffer_length / 2) origin_offset output_offset) ps v refl refl refl
          (omega arith) refl refl refl (ap (λ t. pos (length t)) (sym empty)) applicable in
      let out : contents v' ≡ patched origin (pos 0) ps =
        wrote ∙ ap (λ t. t ++ patched origin (pos 0) ps) empty in
      (
        record s0 { context = c },
        v',
        write-run fuel s0 (stream ps) v c v' refl run,
        out,
        final-run fuel (record s0 { context = c }) v' refl fine
            ∙ ap (λ p. some (done p, (record s0 { context = c }, v')))
                (counted ∙ ap (λ t. pos (length t)) out),
      )

-- Making a patch of a new file against an origin and applying it to that origin gives the new file. Nothing
-- is compressed; the callbacks append to empty outputs and read the origin. Both files are bytes, the
-- origin fewer than 2^63 and the new file fewer than 2^31; the suffix array's entries and the number in the
-- memory behind it are positions of the origin or its end; the buffer of the patching side has an even length that is not 0. Every call succeeds, the two calls
-- that return a length return that of the patch and that of the new file.
pub roundtrip :
    {C D W V : Type 0} (compress : Compressor C) (write_output : Output W) (base : ℤ) (behind : ℕ)
    (patch_of : W → List ℕ) (appends : IsAppend write_output base patch_of)
    (decompress : Decompressor D) (io : Io V) (origin new sa : List ℕ)
    (origin_offset output_offset : ℤ) (output_of : V → List ℕ)
    (writer : IsAppend io.write_output output_offset output_of)
    (reads : (k n : ℕ) (v : V)
      → k + n ≤ length origin
      → io.read_origin (origin_offset +ℤ pos k) n v
        ≡ (record { count = pos n; bytes = take n (drop k origin) }, v))
    (sais : List ℕ → Option (List ℕ)) (encoder : C) (decoder : D) (fuel buffer_length : ℕ) (w : W)
    (v : V)
    → sais origin ≡ some sa
    → All (λ s. s ≤ length origin) sa
    → behind ≤ length origin
    → AreBytes origin
    → AreBytes new
    → length origin < 2 ^ 63
    → length new < 2 ^ 31
    → buffer_length % 2 ≡ 0
    → 2 ≤ buffer_length
    → patch_of w ≡ []
    → output_of v ≡ []
    → (d : Diff C) × (d' : Diff C) × (w' : W) × (s : Stream D) × (s' : Stream D) × (v' : V)
      × (bsdiff_init compress sais encoder origin new base compression_none ≡ ok d)
      × (bsdiff compress write_output behind fuel (d, w)
          ≡ some (done (length (patch_of w')), (d', w')))
      × (bspatch_init decompress decoder buffer_length
            (length (patch_of w'))
            origin_offset
            output_offset
            compression_none
          ≡ ok s)
      × (stream_write decompress io fuel (patch_of w') (s, v) ≡ some (done tt, (s', v')))
      × (output_of v' ≡ new)
      × (stream_final decompress io fuel (s', v') ≡ some (done (pos (length new)), (s', v')))
roundtrip compress write_output base behind patch_of appends decompress io origin new sa
      origin_offset output_offset output_of writer reads sais encoder decoder fuel buffer_length w v
      sorted entries garbage bo bn so sn even room none' none'' =
    let (d, d', w', ps, init, run, made, same, applicable) =
      bsdiff-patched compress write_output base behind patch_of appends fuel sais encoder origin new
        sa w sorted entries garbage bo bn so sn none' in
    let size = length (patch_of w') in
    let (s', v', write, wrote, final) =
      stream_write-patched decompress io origin origin_offset output_offset output_of writer reads
        fuel size decoder buffer_length ps v room none'' applicable in
    let s =
      opened decompress io origin origin_offset output_offset output_of writer reads decoder
        buffer_length size in
    (
      d,
      d',
      w',
      s,
      s',
      v',
      init,
      run ∙ ap (λ t. some (done (length t), (d', w'))) (sym made),
      bspatch_init-opened decompress io origin origin_offset output_offset output_of writer reads
          decoder buffer_length size even,
      ap (λ t. stream_write decompress io fuel t (s, v)) made ∙ write,
      wrote ∙ same,
      final ∙ ap (λ t. some (done (pos (length t)), (s', v'))) same,
    )
