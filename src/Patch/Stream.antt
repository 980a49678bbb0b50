-- ===== src/Patch/Stream.antt =====
-- lib/bspatch.c around `bspatch_write`: `bpak_bspatch_init`, `bpak_bspatch_write` and `bpak_bspatch_final`
-- with the decompressors heatshrink and lzma as parameters. What the functions change beside the
-- callbacks' state is the `Stream`. `none` is a loop that ran out of fuel or a fault of `bspatch_write`.
use bpak.Prelude.{
  ℕ, zero, suc, ◌+◌, ◌/◌, ◌%◌, Bool, true, false, not, ◌||◌, none, some, List, [], ltb, leb, ◌==◌,
  if◌then◌else◌, length, drop, replicate,
}
use bpak.Int.{ℤ, pos, negsuc}
use bpak.Run.{done, fail, Run, pure, raise, out_of_fuel, ◌>>=◌, ◌>>◌}
use bpak.Status.{
  Result, ok, err, size_error, decompressor_error, unsupported_compression, not_supported,
}
use bpak.Patch.{
  fill_ctrl_buf, error, Context, Io, more, stop, fault, bspatch_write, ctrl_buffer_length,
}

-- `enum bpak_compression`; another number is `unknown`.
pub data Compression : Type 0 where
  compression_none compression_hs compression_lzma unknown : Compression

-- `lzma_ret`, as far as the code tells its values apart.
pub data LzmaRet : Type 0 where
  lzma_ok lzma_stream_end lzma_error : LzmaRet

-- The decompressors on the `decompressor` union. A heatshrink call returns its enumerator; sink also how
-- many bytes it took, poll the bytes it gave. `lzma_code` is given whether the action is LZMA_FINISH, the
-- input and the room for the output, and returns how many bytes it took and the bytes it gave.
pub record Decompressor (D : Type 0) : Type 0 where
  pub hs_reset : D → D
  pub hs_sink : D → List ℕ → ℤ × ℕ × D
  pub hs_poll : D → ℕ → ℤ × List ℕ × D
  pub hs_finish : D → ℤ × D
  pub lzma_stream_decoder : D → LzmaRet × D
  pub lzma_code : D → Bool → List ℕ → ℕ → LzmaRet × ℕ × List ℕ × D

-- HSDR_POLL_MORE and HSDR_FINISH_MORE
abbrev pub hs_more : ℕ
hs_more = 1

-- BUFSIZ
abbrev pub bufsiz : ℕ
bufsiz = 8192

-- `struct bpak_bspatch_context`; `context` has the fields that `bspatch_write` uses.
pub record Stream (D : Type 0) : Type 0 where
  pub context : Context
  pub input_buffer_length : ℕ
  pub input_length : ℕ
  pub input_position : ℕ
  pub compression : Compression
  pub decompressor : D

-- The context behind `memset`, with the offsets and the buffer's first half.
unfoldable pub fresh_context : ℕ → ℤ → ℤ → Context
fresh_context patch_buffer_length origin_offset output_offset = record {
  origin_position = pos 0;
  origin_offset = origin_offset;
  output_position = pos 0;
  output_offset = output_offset;
  state = fill_ctrl_buf;
  patch_buffer_length = patch_buffer_length;
  ctrl_buf = replicate ctrl_buffer_length 0;
  ctrl_buf_count = 0;
  diff_count = pos 0;
  extra_count = pos 0;
  adjust = pos 0;
}

module _ {D : Type 0} (decompress : Decompressor D) where
  decompressor_init : Compression → D → Result D
  decompressor_init compression_none d = ok d
  decompressor_init compression_hs d = ok (decompress.hs_reset d)
  decompressor_init compression_lzma d =
      let (ret, d') = decompress.lzma_stream_decoder d in
      elim ret [ lzma_ok ↦ ok d' | _ ↦ err decompressor_error ]
  decompressor_init unknown d = err unsupported_compression

  -- `bpak_bspatch_init`; `zeroed` is the decompressor's memory behind `memset`.
  unfoldable pub bspatch_init : D → ℕ → ℕ → ℤ → ℤ → Compression → Result (Stream D)
  unfolding decompressor_init fresh_context
  bspatch_init zeroed buffer_length input_length origin_offset output_offset compression =
      if not (buffer_length % 2 == 0)
      then err size_error
      else elim (decompressor_init compression zeroed) [
        | err e ↦ err e
        | ok d ↦ ok (record {
          context = fresh_context (buffer_length / 2) origin_offset output_offset;
          input_buffer_length = buffer_length / 2;
          input_length = input_length;
          input_position = 0;
          compression = compression;
          decompressor = d;
        })
      ]

  module _ {W : Type 0} (io : Io W) where
    -- `rc = bspatch_write(...)`, and a return where it is not BPAK_OK.
    unfoldable pub patch_bytes : List ℕ → Run (Stream D × W) (Unit {0})
    patch_bytes bytes (s, w) = elim (bspatch_write io s.context bytes w) [
      | none ↦ none
      | some (more c pp w') ↦ none
      | some (stop (pos zero) c w') ↦ some (done tt, (record s { context = c }, w'))
      | some (stop rc c w') ↦ some (fail rc, (record s { context = c }, w'))
      | some fault ↦ none
    ]

    -- The inner loop, from `poll_more` on.
    unfoldable pub poll_loop : ℕ → Run (Stream D × W) (Unit {0})
    unfolding patch_bytes
    poll_loop zero (s, w) = none
    poll_loop (suc fuel) (s, w) =
        let (pres, bytes, d) = decompress.hs_poll s.decompressor s.input_buffer_length in
        let polled : Run (Stream D × W) (Unit {0}) = elim pres [
          | negsuc n ↦ raise decompressor_error
          | pos p ↦ do
            patch_bytes bytes
            elim (p == hs_more) [ true ↦ poll_loop fuel | false ↦ pure tt ]
        ] in
        polled (record s { decompressor = d }, w)

    -- The inner loop and `heatshrink_decoder_finish` behind all of the input.
    unfoldable pub drain : ℕ → Run (Stream D × W) (Unit {0})
    unfolding poll_loop
    drain zero = out_of_fuel
    drain (suc fuel) = poll_loop (suc fuel) >>= λ _ (s, w).
        elim (s.input_position == s.input_length) [
          | false ↦ some (done tt, (s, w))
          | true ↦
              let (fres, d) = decompress.hs_finish s.decompressor in
              let finished : Run (Stream D × W) (Unit {0}) = elim fres [
                | negsuc n ↦ raise decompressor_error
                | pos f ↦ elim (f == hs_more) [ true ↦ drain fuel | false ↦ pure tt ]
              ] in
              finished (record s { decompressor = d }, w)
        ]

    -- The outer `do` loop; `buffer` is what is not sunk yet.
    unfoldable pub sink_loop : ℕ → List ℕ → Run (Stream D × W) (Unit {0})
    unfolding drain
    sink_loop zero buffer (s, w) = none
    sink_loop (suc fuel) buffer (s, w) =
        let (sres, sink_sz, d) = decompress.hs_sink s.decompressor buffer in
        let sunk : Run (Stream D × W) (Unit {0}) = elim sres [
          | negsuc n ↦ raise decompressor_error
          | pos r ↦ λ (s, w).
              (do
                drain (suc fuel)
                elim (ltb sink_sz (length buffer)) [
                  | true ↦ sink_loop fuel (drop sink_sz buffer)
                  | false ↦ pure tt
                ])
                (record s { input_position = s.input_position + sink_sz }, w)
        ] in
        sunk (record s { decompressor = d }, w)

    -- `bspatch_hs_write`
    unfoldable pub hs_write : ℕ → List ℕ → Run (Stream D × W) (Unit {0})
    unfolding sink_loop
    hs_write fuel buffer (s, w) =
        if leb s.input_length s.input_position
        then some (fail (negsuc 0), (s, w))
        else sink_loop fuel buffer (s, w)

    -- The loop of `bspatch_lzma_write`: whether it came to the end of the stream.
    unfoldable pub lzma_loop : ℕ → Bool → List ℕ → Run (Stream D × W) Bool
    unfolding patch_bytes
    lzma_loop zero finishing buffer (s, w) = none
    lzma_loop (suc fuel) finishing buffer (s, w) = elim (finishing || ltb 0 (length buffer)) [
      | false ↦ some (done false, (s, w))
      | true ↦
          let (ret, used, bytes, d) = decompress.lzma_code s.decompressor finishing buffer bufsiz in
          let coded : Run (Stream D × W) Bool = (do
            if ltb 0 (length bytes) then patch_bytes bytes else pure tt
            elim ret [
              | lzma_ok ↦ lzma_loop fuel finishing (drop used buffer)
              | lzma_stream_end ↦ pure true
              | lzma_error ↦ raise decompressor_error
            ]) in
          coded (record s { decompressor = d }, w)
    ]

    -- `bspatch_lzma_write`
    unfoldable pub lzma_write : ℕ → List ℕ → Run (Stream D × W) (Unit {0})
    unfolding lzma_loop
    lzma_write fuel buffer = lzma_loop fuel (length buffer == 0) buffer >>= λ ended (s, w).
        if ended
        then some (done tt, (s, w))
        else some (done tt, (record s { input_position = s.input_position + length buffer }, w))

    -- `bpak_bspatch_write`; the fuel is for the decompressors' loops.
    unfoldable pub stream_write : ℕ → List ℕ → Run (Stream D × W) (Unit {0})
    unfolding hs_write lzma_write patch_bytes
    stream_write fuel buffer (s, w) =
        let write : Run (Stream D × W) (Unit {0}) = elim s.compression [
          | compression_none ↦ patch_bytes buffer
          | compression_hs ↦ hs_write fuel buffer
          | compression_lzma ↦ lzma_write fuel buffer
          | unknown ↦ raise not_supported
        ] in
        write (s, w)

    -- `bpak_bspatch_final`: the length of the output.
    unfoldable pub stream_final : ℕ → Run (Stream D × W) ℤ
    unfolding lzma_write
    stream_final fuel (s, w) =
        let flush : Run (Stream D × W) (Unit {0}) = elim s.compression [
          | compression_none ↦ pure tt
          | compression_hs ↦ pure tt
          | compression_lzma ↦ lzma_write fuel []
          | unknown ↦ raise not_supported
        ] in
        let written : Run (Stream D × W) ℤ =
          flush >>= λ _ (s, w). some (done s.context.output_position, (s, w)) in
        elim s.context.state [ error ↦ some (fail (negsuc 0), (s, w)) | _ ↦ written (s, w) ]
