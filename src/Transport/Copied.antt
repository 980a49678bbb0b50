-- ===== src/Transport/Copied.antt =====
-- `bpak_pkg_transport_decode` on parts that are not coded for transport.
use bpak.Prelude.{
  ℕ, zero, suc, ◌+◌, ◌-◌, ◌%◌, ◌^◌, ◌≤◌, ◌<◌, ◌≡◌, refl, sym, ap, ap₂, ◌∙◌, min, bit_and, true,
  false, Bool-cases, inl, inr, Option, some, List, [], ◌∷◌, ◌++◌, ◌==◌, length, take, drop, get_or,
  set, take-add, drop-add, length-take, length-drop, arith,
}
use bpak.Int.{ℤ, pos}
use bpak.Run.{Rc, Run, done, expect, ◌>>=◌}
use bpak.Status.{write_error}
use bpak.Header.{PartHeader, Header, header_size, no_part, flag_transport, part_size}
use bpak.Header.Bytes.{header_bytes}
use bpak.Patch.Stream.{Decompressor}
use bpak.Payload.{Hash, chunk_buffer_length}
use bpak.Verify.{payload_offset}
use bpak.Package.{Stdio}
use bpak.Package.Stream.{IsStream, place_at, place_at-place_at}
use bpak.Transport.Decode.{
  Decoder, current, decoder_of, decoded, write_decoder_header, decode_start, write_copy,
  decode_write_chunk, output_length, check_length, decode_finish, is_bspatch,
}
use bpak.Transport.Package.{write_stream, write_stream_header, decode_io, feed_loop}

module _ {D W : Type 0} (decompress : Decompressor D) (zeroed : D) (input output origin : Stdio W)
    (from to : W → List ℕ) (from_at to_at : W → ℕ)
    (reader : IsStream {O = List ℕ × ℕ} input from from_at (λ w. (to w, to_at w)))
    (writer : IsStream {O = List ℕ × ℕ} output to to_at (λ w. (from w, from_at w))) where
  -- What a write to the output leaves behind.
  abbrev pub Written : ℕ → List ℕ → W → W → Type 0
  Written offset xs w w' =
      (to w' ≡ place_at offset xs (to w)) × (from w' ≡ from w) × (from_at w' ≡ from_at w)

  write_stream-Written :
      (offset : ℕ) (xs : List ℕ) (w : W)
      → ((write_stream output (pos offset) xs w).0 ≡ pos (length xs))
        × Written offset xs w (write_stream output (pos offset) xs w).1
  unfolding write_stream
  write_stream-Written offset xs w =
      let (found, kept, there, same) = writer.seek offset w in
      let w1 = (output.fseek offset w).1 in
      let (count, written, _, same') = writer.write xs w1 in
      rw found (
        ap pos count,
        (
          written ∙ ap₂ (λ k t. place_at k xs t) there kept,
          ap (λ o. o.0) same' ∙ ap (λ o. o.0) same,
          ap (λ o. o.1) same' ∙ ap (λ o. o.1) same,
        ),
      )

  expect_then :
      {V A : Type 0} (r : ℤ) (n : ℕ) (v : V) (next : Unit {0} → Run V A)
      → r ≡ pos n
      → (expect r n write_error >>= next) v ≡ next tt v
  unfolding expect
  expect_then r n v next e = let same : (n == n) ≡ true = ground arith in rw e (rw same refl)

  expect_same :
      {V : Type 0} (r : ℤ) (n : ℕ) (v : V)
      → r ≡ pos n
      → expect r n write_error v ≡ some (done tt, v)
  unfolding expect
  expect_same r n v e = let same : (n == n) ≡ true = ground arith in rw e (rw same refl)

  write_decoder_header-Written :
      (c : Decoder D) (w : W)
      → length (header_bytes c.patch_header) ≡ header_size
      → (w' : W) × (write_decoder_header decompress zeroed (decode_io output origin) (c, w)
          ≡ some (done tt, (c, w')))
        × Written 0 (header_bytes c.patch_header) w w'
  unfolding write_decoder_header write_stream_header
  write_decoder_header-Written c w full =
      let all : (length (header_bytes c.patch_header) == header_size) ≡ true = ground arith in
      let (count, written) = write_stream-Written 0 (header_bytes c.patch_header) w in
      let (r, w') = write_stream output (pos 0) (header_bytes c.patch_header) w in
      rw all (w', expect_same r header_size (c, w') (count ∙ ap pos full), written)

  -- Where the current part's data goes.
  abbrev pub base : Decoder D → ℕ
  base c = payload_offset c.patch_header (current c) c.output_offset

  abbrev pub moved : ℕ → Decoder D → Decoder D
  moved n c = record c { copy_offset = c.copy_offset + n }

  is_bspatch_zero : (id : ℕ) → id ≡ 0 → is_bspatch id ≡ false
  unfolding is_bspatch
  is_bspatch_zero id e = rw e refl

  decode_write_chunk-Written :
      (fuel : ℕ) (xs : List ℕ) (c : Decoder D) (w : W)
      → c.decoder_id ≡ 0
      → base c + c.copy_offset < 2 ^ 64
      → (w' : W) × (decode_write_chunk decompress zeroed (decode_io output origin) fuel xs (c, w)
          ≡ some (done tt, (moved (length xs) c, w')))
        × Written (base c + c.copy_offset) xs w w'
  unfolding decode_write_chunk write_copy is_bspatch
  decode_write_chunk-Written fuel xs c w plain small =
      let there : (base c + c.copy_offset) % 2 ^ 64 ≡ base c + c.copy_offset = omega arith in
      let copy : (c.decoder_id == 0) ≡ true = ground arith in
      let (count, written) = write_stream-Written (base c + c.copy_offset) xs w in
      let (r, w') = write_stream output (pos (base c + c.copy_offset)) xs w in
      (
        w',
        rw (is_bspatch_zero c.decoder_id plain) (
            rw copy (
              rw there (
                expect_then r (length xs) (c, w')
                  (λ _ (c, w). some (done tt, (moved (length xs) c, w))) count))),
        written,
      )

  abbrev pub Fed : ℕ → ℕ → Decoder D → W → Option (Rc (Unit {0}) × (Decoder D × W)) → Type 0
  Fed offset n c w r =
      (w' : W) × (r ≡ some (done tt, (moved n c, w')))
      × (from w' ≡ from w)
      × (from_at w' ≡ from_at w + n)
      × (to w' ≡ place_at offset (take n (drop (from_at w) (from w))) (to w))

  pub feed_loop-Fed :
      (fuel rounds n : ℕ) (c : Decoder D) (w : W)
      → c.decoder_id ≡ 0
      → base c + c.copy_offset + n < 2 ^ 64
      → n ≤ rounds
      → from_at w + n ≤ length (from w)
      → Fed
          (base c + c.copy_offset)
          n
          c
          w
          (feed_loop decompress zeroed input (decode_io output origin) fuel rounds n (c, w))
  unfolding feed_loop place_at
  feed_loop-Fed fuel zero n c w plain small le enough =
      let empty : n ≡ 0 = omega arith in
      rw empty (
        w,
        ap (λ k. some (done tt, (record c { copy_offset = k }, w))) (omega arith),
        refl,
        omega arith,
        refl,
      )
  feed_loop-Fed fuel (suc rounds) n c w plain small le enough = elim (Bool-cases (n == 0)) [
    | inl last ↦
        let empty : n ≡ 0 = ground arith in
        rw (last, feed_loop)
          (
            w,
            ap (λ k. some (done tt, (record c { copy_offset = k }, w))) (omega arith),
            refl,
            omega arith,
            sym (
                ap
                  (λ k.
                    place_at (base c + c.copy_offset) (take k (drop (from_at w) (from w))) (to w))
                  empty),
          )
    | inr left ↦
        let size = min n chunk_buffer_length in
        let offset = base c + c.copy_offset in
        let rest = drop (from_at w) (from w) in
        let (chunk, w1) = input.fread size w in
        let (bytes, kept, on, same) = reader.read size w in
        let (w2, run, (written, kept2, still)) =
          decode_write_chunk-Written fuel chunk c w1 plain (omega arith) in
        let long : length chunk ≡ size =
          ap length bytes
          ∙ omega (arith, length-take {0} size rest, length-drop {0} (from_at w) (from w)) in
        let full : (length chunk == size) ≡ true = ground arith in
        let start : from_at w2 ≡ from_at w + size =
          still
          ∙ on
          ∙ omega (arith, length-take {0} size rest, length-drop {0} (from_at w) (from w)) in
        let file : from w2 ≡ from w = kept2 ∙ kept in
        let before : to w2 ≡ place_at offset chunk (to w) =
          written ∙ ap (place_at offset chunk) (ap (λ o. o.0) same) in
        let behind : base c + (c.copy_offset + length chunk) ≡ offset + length chunk =
          omega arith in
        let next : take (n - size) (drop (from_at w2) (from w2))
            ≡ take (n - size) (drop size rest) =
          ap₂ (λ k t. take (n - size) (drop k t)) start file
          ∙ ap (take (n - size)) (sym (drop-add (from_at w) size (from w))) in
        let whole : chunk ++ take (n - size) (drop size rest) ≡ take n rest =
          ap (λ t. t ++ take (n - size) (drop size rest)) bytes
          ∙ sym (take-add size (n - size) rest)
          ∙ ap (λ k. take k rest) (omega arith) in
        let (w', run', k1, k2, k3) =
          feed_loop-Fed fuel rounds (n - size) (moved (length chunk) c) w2 plain
            (omega (arith, long)) (ground arith) (omega (arith, start, ap length file)) in
        rw (left, feed_loop)
          (
            w',
            rw full (
                rw (run, ◌>>=◌)
                  (run'
                    ∙ ap (λ k. some (done tt, (record c { copy_offset = k }, w')))
                        (omega (arith, long)))),
            k1 ∙ file,
            omega (arith, k2, start),
            k3
                ∙ ap₂ (λ k t. place_at k t (to w2)) behind next
                ∙ ap (place_at (offset + length chunk) (take (n - size) (drop size rest))) before
                ∙ place_at-place_at offset chunk (take (n - size) (drop size rest)) (to w)
                ∙ ap (λ t. place_at offset t (to w)) whole,
          )
  ]

  -- The context behind a part that is copied.
  abbrev pub at_part : ℕ → ℕ → Decoder D → Decoder D
  at_part i n c = record c { part = i; decoder_id = 0; copy_offset = n }

  decoder_of_plain :
      (h : Header) (p : PartHeader) → bit_and p.flags flag_transport ≡ 0 → decoder_of h p ≡ 0
  unfolding decoder_of
  decoder_of_plain h p plain =
      let test : (bit_and p.flags flag_transport == 0) ≡ true = ground arith in rw test refl

  pub decode_start-Written :
      (i : ℕ) (c : Decoder D) (w : W)
      → bit_and (get_or c.patch_header.parts i no_part).flags flag_transport ≡ 0
      → length (header_bytes c.patch_header) ≡ header_size
      → (w' : W) × (decode_start decompress zeroed
            (decode_io output origin)
            chunk_buffer_length
            i
            (c, w)
          ≡ some (done tt, (at_part i 0 c, w')))
        × Written 0 (header_bytes c.patch_header) w w'
  unfolding decode_start is_bspatch
  decode_start-Written i c w plain full =
      let (w', run, written) = write_decoder_header-Written c w full in
      let copy = decoder_of_plain c.patch_header (get_or c.patch_header.parts i no_part) plain in
      (w', rw (run, ◌>>=◌) (rw copy refl), written)

  module _ {S : Type 0} (hash : Hash S) (zeroed_hash : S) where
    decoded_plain :
        (p : PartHeader) → bit_and p.flags flag_transport ≡ 0 → p.transport_size ≡ 0 → decoded p ≡ p
    unfolding decoded
    decoded_plain p plain unset =
        ap₂ (λ flags size. record p { flags = flags; transport_size = size })
          (ap (λ k. p.flags - k) plain ∙ omega arith) (sym unset)

    set-get_or : (ps : List PartHeader) (i : ℕ) → set ps i (get_or ps i no_part) ≡ ps
    set-get_or [] i = refl
    set-get_or (p ∷ ps) zero = refl
    set-get_or (p ∷ ps) (suc i) = ap (λ t. p ∷ t) (set-get_or ps i)

    pub decode_finish-Written :
        (fuel i n : ℕ) (c : Decoder D) (w : W)
        → bit_and (get_or c.patch_header.parts i no_part).flags flag_transport ≡ 0
        → (get_or c.patch_header.parts i no_part).transport_size ≡ 0
        → length (header_bytes c.patch_header) ≡ header_size
        → (w' : W) × (decode_finish decompress zeroed
              (decode_io output origin)
              hash
              zeroed_hash
              fuel
              (at_part i n c, w)
            ≡ some (done tt, (at_part i n c, w')))
          × Written 0 (header_bytes c.patch_header) w w'
    unfolding decode_finish output_length check_length is_bspatch part_size
    decode_finish-Written fuel i n c w plain unset full =
        let p = get_or c.patch_header.parts i no_part in
        let (w', run, written) = write_decoder_header-Written (at_part i n c) w full in
        let test : (bit_and p.flags flag_transport == 0) ≡ true = ground arith in
        let same : ((p.size + p.pad_bytes) % 2 ^ 64 == (p.size + p.pad_bytes) % 2 ^ 64) ≡ true =
          ground arith in
        let kept : set c.patch_header.parts i (decoded p) ≡ c.patch_header.parts =
          ap (set c.patch_header.parts i) (decoded_plain p plain unset)
          ∙ set-get_or c.patch_header.parts i in
        (w', rw test (rw same (rw kept run)), written)
