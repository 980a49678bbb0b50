-- ===== src/Package/Create/Stored.antt =====
-- What `bpak_pkg_add_file` writes into the package's file.
use bpak.Prelude.{
  ℕ, zero, suc, ◌+◌, ◌-◌, ◌%◌, ◌^◌, ◌≤◌, ◌<◌, ◌≡◌, refl, sym, ap, ap₂, ◌∙◌, min, true, false,
  Bool-cases, inl, inr, Option, some, List, [], ◌++◌, ◌==◌, length, take, drop, get_or, replicate,
  take-drop, length-take, length-drop, nil_of_length, arith,
}
use bpak.Run.{Rc, Run, done, ◌>>=◌}
use bpak.Status.{ok}
use bpak.Header.{Header, header_size, no_part}
use bpak.Part.{add_part}
use bpak.Crc.{id_of}
use bpak.Payload.{Hash, chunk_buffer_length}
use bpak.Package.{Stdio}
use bpak.Package.Extract.{Host}
use bpak.Package.Stream.{IsStream, place_at, place_at-place_at}
use bpak.Package.Kept.{header_updated}
use bpak.Header.Bytes.{header_bytes}
use bpak.Package.Create.{
  end_loop, padding, fill_part, with_part, on_streams, read_only, write_bytes, seek_to,
  write_padding, input_loop, copy_input, update_header, store_file, add_file,
}

-- A run that comes to a result, in front of another.
on_streams_then :
    {W A B : Type 0} (m : Run W A) (k : A → Run (Header × W) B) (h : Header) (w w' : W) (a : A)
    → m w ≡ some (done a, w')
    → (on_streams m >>= k) (h, w) ≡ k a (h, w')
unfolding on_streams
on_streams_then m k h w w' a e = rw (e, ◌>>=◌) refl

-- A file `source` that is open for reading, of which `rest` is not read yet, beside the package's.
pub record IsInput {W : Type 0} (host : Host W) (in_fp : Stdio W) (filename source : List ℕ)
    (bytes : W → List ℕ) (at : W → ℕ) (rest : W → List ℕ) : Type 0 where
  pub sized : (w : W) → host.stat filename w ≡ some (length source)
  pub opens :
      (w : W)
      → ((host.fopen filename read_only w).0 ≡ some in_fp)
        × (rest (host.fopen filename read_only w).1 ≡ source)
        × (bytes (host.fopen filename read_only w).1 ≡ bytes w)
        × (at (host.fopen filename read_only w).1 ≡ at w)
  pub reads :
      (n : ℕ) (w : W)
      → ((in_fp.fread n w).0 ≡ take n (rest w))
        × (rest (in_fp.fread n w).1 ≡ drop n (rest w))
        × (bytes (in_fp.fread n w).1 ≡ bytes w)
        × (at (in_fp.fread n w).1 ≡ at w)

-- The header with a part of `size` bytes, in slot `i`.
abbrev pub added_header : ℕ → Header → ℕ → ℕ → ℕ → Header
added_header size h id flags i =
    with_part i
      (fill_part id (end_loop header_size h.parts) flags size
        (get_or (add_part h id).1.parts i no_part))
      (add_part h id).1

module _ {W : Type 0} (fp : Stdio W) (bytes : W → List ℕ) (at : W → ℕ) (rest : W → List ℕ)
    (stream : IsStream fp bytes at rest) where
  -- A run that has written `xs` from the position on.
  abbrev pub Wrote : List ℕ → W → Option (Rc (Unit {0}) × W) → Type 0
  Wrote xs w r =
      (w' : W) × (r ≡ some (done tt, w'))
      × (bytes w' ≡ place_at (at w) xs (bytes w))
      × (at w' ≡ at w + length xs)

  write_bytes-Wrote :
      (xs : List ℕ) (w : W)
      → (w' : W) × (write_bytes fp xs w ≡ some (done tt, w'))
        × (bytes w' ≡ place_at (at w) xs (bytes w))
        × (at w' ≡ at w + length xs)
        × (rest w' ≡ rest w)
  unfolding write_bytes
  write_bytes-Wrote xs w =
      let (count, written, moved, kept) = stream.write xs w in
      let all : ((fp.fwrite xs w).0 == length xs) ≡ true = ground arith in
      ((fp.fwrite xs w).1, rw all refl, written, moved, kept)

  write_padding-Wrote : (n : ℕ) (w : W) → Wrote (replicate n 0) w (write_padding fp n w)
  unfolding write_padding place_at
  write_padding-Wrote zero w = (w, refl, refl, omega arith)
  write_padding-Wrote (suc n) w =
      let (w', run, written, moved, kept) = write_bytes-Wrote (replicate (suc n) 0) w in
      let more : (suc n == 0) ≡ false = ground arith in
      (w', rw (more, write_padding) run, written, moved)

  module _ (host : Host W) (in_fp : Stdio W) (filename source : List ℕ)
      (input : IsInput host in_fp filename source bytes at rest) where
    input_loop-Wrote :
        (fuel n : ℕ) (w : W)
        → n ≤ fuel
        → n < 2 ^ 64
        → length (rest w) ≡ n
        → Wrote (rest w) w (input_loop fp in_fp fuel n w)
    unfolding input_loop place_at
    input_loop-Wrote zero n w le small size =
        let empty : rest w ≡ [] = nil_of_length (rest w) (omega arith) in
        let zero_left : n ≡ 0 = omega arith in
        rw (zero_left) (rw empty (w, refl, refl, omega arith))
    input_loop-Wrote (suc fuel) n w le small size = elim (Bool-cases (n == 0)) [
      | inl last ↦
          let empty : rest w ≡ [] = nil_of_length (rest w) (ground arith) in
          rw (last, input_loop) (rw empty (w, refl, refl, omega arith))
      | inr left ↦
          let got = in_fp.fread chunk_buffer_length w in
          let c = length (take chunk_buffer_length (rest w)) in
          let (same, next, kept, still) = input.reads chunk_buffer_length w in
          let (w2, run, written, moved, kept') = write_bytes-Wrote got.0 got.1 in
          let count : length got.0 ≡ c = ap length same in
          let some_read : c ≡ min chunk_buffer_length n =
            length-take {0} chunk_buffer_length (rest w) ∙ ap (min chunk_buffer_length) size in
          let remaining : (n + 2 ^ 64 - length got.0) % 2 ^ 64 ≡ n - c = ground arith in
          let tail : rest w2 ≡ drop chunk_buffer_length (rest w) = kept' ∙ next in
          let there : at w2 ≡ at w + length got.0 = moved ∙ ap (λ k. k + length got.0) still in
          let before : bytes w2 ≡ place_at (at w) got.0 (bytes w) =
            written ∙ ap₂ (λ k t. place_at k got.0 t) still kept in
          let whole : got.0 ++ drop chunk_buffer_length (rest w) ≡ rest w =
            ap (λ t. t ++ drop chunk_buffer_length (rest w)) same
            ∙ take-drop chunk_buffer_length (rest w) in
          let (w', run', written', moved') =
            input_loop-Wrote fuel (n - c) w2 (ground arith) (omega arith)
              (ap length tail ∙ omega (arith, length-drop {0} chunk_buffer_length (rest w))) in
          rw (left, input_loop)
            (
              w',
              rw (run, ◌>>=◌) (ap (λ k. input_loop fp in_fp fuel k w2) remaining ∙ run'),
              written'
                  ∙ ap₂ (λ k t. place_at k t (bytes w2)) there tail
                  ∙ ap (place_at (at w + length got.0) (drop chunk_buffer_length (rest w))) before
                  ∙ place_at-place_at (at w) got.0 (drop chunk_buffer_length (rest w)) (bytes w)
                  ∙ ap (λ t. place_at (at w) t (bytes w)) whole,
              omega (
                arith,
                moved',
                there,
                ap length tail,
                count,
                length-drop {0} chunk_buffer_length (rest w),
              ),
            )
    ]

    module _ {S : Type 0} (hash : Hash S) where
      store_file-Wrote :
          (fuel offset pad : ℕ) (h : Header) (w : W)
          → length source ≤ fuel
          → length source < 2 ^ 64
          → (w' : W) × (store_file fp host hash fuel filename offset (length source) pad (h, w)
              ≡ update_header fp host hash (h, w'))
            × (bytes w' ≡ place_at offset (source ++ replicate pad 0) (bytes w))
      unfolding store_file seek_to copy_input
      store_file-Wrote fuel offset pad h w le small =
          let w1 = (fp.fseek offset w).1 in
          let (found, kept, moved, _) = stream.seek offset w in
          let w2 = (host.fopen filename read_only w1).1 in
          let (opened, unread, kept2, still) = input.opens w1 in
          let (w3, run3, written3, moved3) =
            input_loop-Wrote fuel (length source) w2 le small (ap length unread) in
          let (w4, run4, written4, moved4) = write_padding-Wrote pad w3 in
          let start : at w2 ≡ offset = still ∙ moved in
          let next : at w3 ≡ offset + length source =
            omega (arith, moved3, start, ap length unread) in
          let file3 : bytes w3 ≡ place_at offset source (bytes w) =
            written3
            ∙ ap₂ (λ k t. place_at k t (bytes w2)) start unread
            ∙ ap (place_at offset source) (kept2 ∙ kept) in
          let sought : seek_to fp offset w ≡ some (done tt, w1) = rw found refl in
          let copied : copy_input fp host hash fuel filename (length source) w1
              ≡ some (done tt, w3) =
            rw (opened, copy_input) run3 in
          (
            w4,
            on_streams_then (seek_to fp offset)
                  (λ _. on_streams (copy_input fp host hash fuel filename (length source)) >>= λ _.
                    on_streams (write_padding fp pad) >>= λ _. update_header fp host hash)
                  h w w1 tt sought
                ∙ on_streams_then (copy_input fp host hash fuel filename (length source))
                    (λ _. on_streams (write_padding fp pad) >>= λ _. update_header fp host hash) h
                    w1 w3 tt copied
                ∙ on_streams_then (write_padding fp pad) (λ _. update_header fp host hash) h w3 w4
                    tt run4,
            written4
                ∙ ap₂ (λ k t. place_at k (replicate pad 0) t) next file3
                ∙ place_at-place_at offset source (replicate pad 0) (bytes w),
          )

      add_file_run :
          (fuel : ℕ) (part_name : List ℕ) (flags i : ℕ) (h : Header) (w : W)
          → length source ≤ fuel
          → length source < 2 ^ 64
          → (add_part h (id_of part_name)).0 ≡ ok i
          → (w' : W) × (add_file fp host hash fuel filename part_name flags (h, w)
              ≡ update_header fp host hash
                  (added_header (length source) h (id_of part_name) flags i, w'))
            × (bytes w'
                ≡ place_at
                    (end_loop header_size h.parts)
                    (source ++ replicate (padding (length source)) 0)
                    (bytes w))
      unfolding add_file
      add_file_run fuel part_name flags i h w le small added =
          let (w', run, written) =
            store_file-Wrote fuel (end_loop header_size h.parts) (padding (length source))
              (added_header (length source) h (id_of part_name) flags i) w le small in
          (w', rw (input.sized w, add_file) (rw (added, add_file) run), written)

      -- If `bpak_pkg_add_file` succeeds with a part that could be added, the file is what it was with the input
      -- file behind the end of the last part, zeroes up to the next multiple of 512 bytes, and the header in
      -- front, whose part table is the old one with the new part's identifier, offset, flags, size and
      -- padding. The fuel is enough if it is not below the input's size, which fits `size_t`.
      pub add_file_done :
          (fuel : ℕ) (part_name : List ℕ) (flags i : ℕ) (h h' : Header) (w w' : W) (u : Unit {0})
          → length source ≤ fuel
          → length source < 2 ^ 64
          → (add_part h (id_of part_name)).0 ≡ ok i
          → add_file fp host hash fuel filename part_name flags (h, w) ≡ some (done u, (h', w'))
          → (h'.parts ≡ (added_header (length source) h (id_of part_name) flags i).parts)
            × (bytes w'
                ≡ place_at 0 (header_bytes h') (
                    place_at
                      (end_loop header_size h.parts)
                      (source ++ replicate (padding (length source)) 0)
                      (bytes w)))
      unfolding update_header
      add_file_done fuel part_name flags i h h' w w' u le small added e =
          let (w1, run, written) = add_file_run fuel part_name flags i h w le small added in
          let (parts, file) =
            header_updated fp hash bytes at rest stream
              (added_header (length source) h (id_of part_name) flags i) h' w1 w' u (sym run ∙ e) in
          (parts, file ∙ ap (place_at 0 (header_bytes h')) written)
