-- ===== src/Transport/Finished.antt =====
-- What the success of `bpak_transport_decode_finish` says of the part.
use bpak.Prelude.{
  ℕ, ◌+◌, ◌%◌, ◌^◌, ◌≡◌, refl, sym, ap, ◌∙◌, Bool, true, false, Option, none, some, ◌==◌,
  if◌then◌else◌, set, arith,
}
use bpak.Int.{ℤ, pos, negsuc}
use bpak.Run.{Rc, done, pure, raise, expect}
use bpak.Status.{size_error, write_error}
use bpak.Header.{header_size}
use bpak.Header.Bytes.{header_bytes}
use bpak.Patch.Stream.{Decompressor}
use bpak.Payload.{Hash}
use bpak.Merkle.Walk.Agree.{bind_done}
use bpak.Transport.Decode.{
  DecodeIo, Decoder, current, decoded, write_decoder_header, output_length, check_length,
  decode_finish,
}

-- The context with the current part marked as decoded.
abbrev pub marked : {D : Type 0} → Decoder D → Decoder D
marked c = record c {
  patch_header = record c.patch_header {
    parts = set c.patch_header.parts c.part (decoded (current c));
  };
}

module _ {D W S : Type 0} (decompress : Decompressor D) (zeroed : D) (io : DecodeIo W)
    (hash : Hash S) (zeroed_hash : S) where
  -- A write of the header keeps the context, and a write that succeeds wrote it whole.
  write_decoder_header_done :
      (c c' : Decoder D) (w w' : W) (u : Unit {0})
      → write_decoder_header decompress zeroed io (c, w) ≡ some (done u, (c', w'))
      → (c ≡ c') × (io.write_output_header (header_bytes c.patch_header) w ≡ (pos header_size, w'))
  unfolding write_decoder_header expect raise
  write_decoder_header_done c c' w w' u e =
      by_result (io.write_output_header (header_bytes c.patch_header) w) refl e
    where
      context_of : Option (Rc (Unit {0}) × (Decoder D × W)) → Decoder D
      context_of none = c
      context_of (some (r, (d, v))) = d

      state_of : Option (Rc (Unit {0}) × (Decoder D × W)) → W
      state_of none = w
      state_of (some (r, (d, v))) = v

      by_result :
          (r : ℤ × W)
          → io.write_output_header (header_bytes c.patch_header) w ≡ r
          → expect {W = Decoder D × W} r.0 header_size write_error (c, r.1)
            ≡ some (done u, (c', w'))
          → (c ≡ c')
            × (io.write_output_header (header_bytes c.patch_header) w ≡ (pos header_size, w'))
      by_result (negsuc n, w1) r k = absurd (cc k)
      by_result (pos n, w1) r k = by_test (n == header_size) refl k
        where
          by_test :
              (b : Bool)
              → (n == header_size) ≡ b
              → (if b then pure {W = Decoder D × W} tt else raise {W = Decoder D × W} write_error)
                  (c, w1)
                ≡ some (done u, (c', w'))
              → (c ≡ c')
                × (io.write_output_header (header_bytes c.patch_header) w ≡ (pos header_size, w'))
          by_test false t q = absurd (cc q)
          by_test true t q =
              let whole : n ≡ header_size = ground arith in
              (
                ap context_of q,
                r ∙ ap (λ k. (pos k, w1)) whole ∙ ap (λ k. (pos header_size, state_of k)) q,
              )

  -- If `bpak_transport_decode_finish` succeeds, the length it reports, which is the part's own size for a
  -- part that is only copied, is the part's size and its padding, modulo 2^64, the part alone is marked as decoded and without a size for transport,
  -- and the whole header with that part was written to the output.
  pub decode_finish-length :
      (fuel : ℕ) (c c' : Decoder D) (w w' : W) (u : Unit {0})
      → decode_finish decompress zeroed io hash zeroed_hash fuel (c, w) ≡ some (done u, (c', w'))
      → (n : ℕ) × (c1 : Decoder D) × (w1 : W) × (output_length decompress zeroed io hash zeroed_hash
            fuel
            (c, w)
          ≡ some (done (pos n), (c1, w1)))
        × (n ≡ ((current c1).size + (current c1).pad_bytes) % 2 ^ 64)
        × (c' ≡ marked c1)
        × (io.write_output_header (header_bytes c'.patch_header) w1 ≡ (pos header_size, w'))
  unfolding decode_finish check_length raise
  decode_finish-length fuel c c' w w' u e =
      let (n, (c1, w1), first, second) =
        bind_done (output_length decompress zeroed io hash zeroed_hash fuel)
          (check_length decompress zeroed io hash zeroed_hash) (c, w) (c', w') u e in
      by_length n c1 w1 first second
    where
      by_length :
          (n : ℤ) (c1 : Decoder D) (w1 : W)
          → output_length decompress zeroed io hash zeroed_hash fuel (c, w)
            ≡ some (done n, (c1, w1))
          → check_length decompress zeroed io hash zeroed_hash n (c1, w1) ≡ some (done u, (c', w'))
          → (n : ℕ) × (c1 : Decoder D) × (w1 : W) × (output_length decompress zeroed io hash
                zeroed_hash fuel
                (c, w)
              ≡ some (done (pos n), (c1, w1)))
            × (n ≡ ((current c1).size + (current c1).pad_bytes) % 2 ^ 64)
            × (c' ≡ marked c1)
            × (io.write_output_header (header_bytes c'.patch_header) w1 ≡ (pos header_size, w'))
      by_length (negsuc n) c1 w1 first k = absurd (cc k)
      by_length (pos n) c1 w1 first k =
          by_test (n == ((current c1).size + (current c1).pad_bytes) % 2 ^ 64) refl k
        where
          by_test :
              (b : Bool)
              → (n == ((current c1).size + (current c1).pad_bytes) % 2 ^ 64) ≡ b
              → (if b
                  then write_decoder_header decompress zeroed io (marked c1, w1)
                  else raise {W = Decoder D × W} size_error (c1, w1))
                ≡ some (done u, (c', w'))
              → (n : ℕ) × (c1 : Decoder D) × (w1 : W) × (output_length decompress zeroed io hash
                    zeroed_hash fuel
                    (c, w)
                  ≡ some (done (pos n), (c1, w1)))
                × (n ≡ ((current c1).size + (current c1).pad_bytes) % 2 ^ 64)
                × (c' ≡ marked c1)
                × (io.write_output_header (header_bytes c'.patch_header) w1 ≡ (pos header_size, w'))
          by_test false t q = absurd (cc q)
          by_test true t q =
              let (same, written) = write_decoder_header_done (marked c1) c' w1 w' u q in
              (
                n,
                c1,
                w1,
                first,
                ground arith,
                sym same,
                ap (λ g. io.write_output_header (header_bytes g.patch_header) w1) (sym same)
                    ∙ written,
              )
