-- ===== src/Bsdiff/Compress.antt =====
-- lib/bsdiff.c: the output of a patch, `compressor_init`, `compressor_write` and `compressor_final`. The
-- encoder of heatshrink and the one of lzma are parameters. Allocation is taken to succeed.
use bpak.Prelude.{
  some, ℕ, zero, suc, ◌+◌, Bool, true, false, List, [], ltb, ◌==◌, if◌then◌else◌, length, drop,
}
use bpak.Int.{ℤ, pos, negsuc, ◌+ℤ◌}
use bpak.Run.{done, Run, pure, raise, out_of_fuel, expect, ◌>>=◌, ◌>>◌}
use bpak.Status.{Result, ok, err, write_error, compressor_error, unsupported_compression}
use bpak.Payload.{chunk_buffer_length}
use bpak.Patch.Stream.{
  Compression, compression_none, compression_hs, compression_lzma, unknown, LzmaRet, lzma_ok,
  lzma_stream_end, lzma_error, hs_more,
}
use bpak.Bsdiff.{Diff}

-- The encoders on the memory of `compressor_priv`. A heatshrink call returns its enumerator; sink also how
-- many bytes it took, poll the bytes it gave. `lzma_preset` is whether `lzma_lzma_preset` fails; `lzma_code`
-- is given whether the action is LZMA_FINISH, the input and the room for the output, and returns how many
-- bytes it took and the bytes it gave.
pub record Compressor (C : Type 0) : Type 0 where
  pub hs_reset : C → C
  pub hs_sink : C → List ℕ → ℤ × ℕ × C
  pub hs_poll : C → ℕ → ℤ × List ℕ × C
  pub hs_finish : C → ℤ × C
  pub lzma_preset : Bool
  pub lzma_stream_encoder : C → LzmaRet × C
  pub lzma_code : C → Bool → List ℕ → ℕ → LzmaRet × ℕ × List ℕ × C

-- `bpak_io_t` on the output.
abbrev pub Output : Type 0 → Type 0
Output W = ℤ → List ℕ → W → ℤ × W

module _ {C : Type 0} (compress : Compressor C) where
  unfoldable pub compressor_init : Compression → C → Result C
  compressor_init compression_none c = ok c
  compressor_init compression_hs c = ok (compress.hs_reset c)
  compressor_init compression_lzma c =
      let (ret, c') = compress.lzma_stream_encoder c in
      if compress.lzma_preset
      then err compressor_error
      else elim ret [ lzma_ok ↦ ok c' | _ ↦ err compressor_error ]
  compressor_init unknown c = err unsupported_compression

  module _ {W : Type 0} (write_output : Output W) where
    -- A call of `write_output`, its checks and the step of `output_pos`.
    unfoldable pub put : List ℕ → Run (Diff C × W) (Unit {0})
    unfolding expect
    put bytes (d, w) =
        let (n_written, w') = write_output (d.output_offset +ℤ pos d.output_pos) bytes w in
        let checked : Run (Diff C × W) (Unit {0}) =
          expect n_written (length bytes) write_error >>= λ _ (d, w).
          some (done tt, (record d { output_pos = d.output_pos + length bytes }, w)) in
        checked (d, w')

    put_some : List ℕ → Run (Diff C × W) (Unit {0})
    unfolding put
    put_some bytes = if ltb 0 (length bytes) then put bytes else pure tt

    -- The inner loop of `hs_compressor_write`.
    unfoldable pub hs_poll_loop : ℕ → Run (Diff C × W) (Unit {0})
    unfolding put_some
    hs_poll_loop zero = out_of_fuel
    hs_poll_loop (suc fuel) = λ (d, w).
        let (pres, bytes, c) = compress.hs_poll d.compressor chunk_buffer_length in
        let polled : Run (Diff C × W) (Unit {0}) = elim pres [
          | negsuc n ↦ raise compressor_error
          | pos p ↦ do
            put_some bytes
            elim (p == hs_more) [ true ↦ hs_poll_loop fuel | false ↦ pure tt ]
        ] in
        polled (record d { compressor = c }, w)

    -- `hs_compressor_write` from the part of the buffer on that is not sunk yet.
    unfoldable pub hs_write_loop : ℕ → List ℕ → Run (Diff C × W) (Unit {0})
    unfolding hs_poll_loop
    hs_write_loop zero buffer = out_of_fuel
    hs_write_loop (suc fuel) buffer = λ (d, w).
        let (sres, sink_sz, c) =
          if ltb 0 (length buffer)
          then compress.hs_sink d.compressor buffer
          else (pos 0, 0, d.compressor) in
        let sunk : Run (Diff C × W) (Unit {0}) = elim sres [
          | negsuc n ↦ raise compressor_error
          | pos r ↦ do
            hs_poll_loop (suc fuel)
            elim (ltb sink_sz (length buffer)) [
              | true ↦ hs_write_loop fuel (drop sink_sz buffer)
              | false ↦ pure tt
            ]
        ] in
        sunk (record d { compressor = c }, w)

    -- `hs_compressor_final`: one poll for each finish that asks for more.
    unfoldable pub hs_final_loop : ℕ → Run (Diff C × W) (Unit {0})
    unfolding put_some
    hs_final_loop zero = out_of_fuel
    hs_final_loop (suc fuel) = λ (d, w).
        let (fres, c) = compress.hs_finish d.compressor in
        let (pres, bytes, c') = compress.hs_poll c chunk_buffer_length in
        let polled : Run (Diff C × W) (Unit {0}) = elim pres [
          | negsuc n ↦ raise compressor_error
          | pos p ↦ do put_some bytes; hs_final_loop fuel
        ] in
        elim fres [
          | negsuc n ↦ raise compressor_error (record d { compressor = c }, w)
          | pos f ↦ elim (f == hs_more) [
            | true ↦ polled (record d { compressor = c' }, w)
            | false ↦ some (done tt, (record d { compressor = c }, w))
          ]
        ]

    -- `lzma_compressor_write`
    unfoldable pub lzma_write_loop : ℕ → List ℕ → Run (Diff C × W) (Unit {0})
    unfolding put_some
    lzma_write_loop zero buffer = out_of_fuel
    lzma_write_loop (suc fuel) buffer = λ (d, w).
        let (ret, used, bytes, c) =
          compress.lzma_code d.compressor false buffer chunk_buffer_length in
        let coded : Run (Diff C × W) (Unit {0}) = elim ret [
          | lzma_ok ↦ do put_some bytes; lzma_write_loop fuel (drop used buffer)
          | _ ↦ raise compressor_error
        ] in
        elim (ltb 0 (length buffer)) [
          | true ↦ coded (record d { compressor = c }, w)
          | false ↦ some (done tt, (d, w))
        ]

    -- `lzma_compressor_final`
    unfoldable pub lzma_final_loop : ℕ → Run (Diff C × W) (Unit {0})
    unfolding put_some
    lzma_final_loop zero = out_of_fuel
    lzma_final_loop (suc fuel) = λ (d, w).
        let (ret, used, bytes, c) = compress.lzma_code d.compressor true [] chunk_buffer_length in
        let coded : Run (Diff C × W) (Unit {0}) = elim ret [
          | lzma_error ↦ raise compressor_error
          | lzma_ok ↦ do put_some bytes; lzma_final_loop fuel
          | lzma_stream_end ↦ put_some bytes
        ] in
        coded (record d { compressor = c }, w)

    -- The `switch` of `compressor_write`; the fuel is for the loops over an encoder.
    unfoldable pub write_by : Compression → ℕ → List ℕ → Run (Diff C × W) (Unit {0})
    unfolding put hs_write_loop lzma_write_loop
    write_by compression_none fuel buffer = put buffer
    write_by compression_hs fuel buffer = hs_write_loop fuel buffer
    write_by compression_lzma fuel buffer = lzma_write_loop fuel buffer
    write_by unknown fuel buffer = raise unsupported_compression

    unfoldable pub compressor_write : ℕ → List ℕ → Run (Diff C × W) (Unit {0})
    unfolding write_by
    compressor_write fuel buffer (d, w) = write_by d.compression fuel buffer (d, w)

    unfoldable pub final_by : Compression → ℕ → Run (Diff C × W) (Unit {0})
    unfolding hs_final_loop lzma_final_loop
    final_by compression_none fuel = pure tt
    final_by compression_hs fuel = hs_final_loop fuel
    final_by compression_lzma fuel = lzma_final_loop fuel
    final_by unknown fuel = raise unsupported_compression

    unfoldable pub compressor_final : ℕ → Run (Diff C × W) (Unit {0})
    unfolding final_by
    compressor_final fuel (d, w) = final_by d.compression fuel (d, w)
