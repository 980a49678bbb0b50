-- ===== src/Transport/Identity.antt =====
-- `bpak_pkg_transport_decode` of a package none of whose parts is coded for transport.
use bpak.Prelude.{
  ℕ, zero, suc, ◌+◌, ◌^◌, ◌≤◌, ◌<◌, ◌≡◌, ◌≢◌, ◌⊎◌, refl, sym, ap, ap₂, ◌∙◌, bit_and, false,
  Bool-cases, inl, inr, none, some, List, [], ◌∷◌, ◌++◌, ◌==◌, length, take, drop, get_or,
  get_elem?, All, take-add, drop-append, length-take, length-append, length-drop, drop-add,
  append-nil, append_assoc, arith,
}
use bpak.Run.{done, ◌>>=◌}
use bpak.Header.{PartHeader, Header, header_size, no_part, flag_transport, part_size}
use bpak.Header.Bytes.{header_bytes}
use bpak.Part.Table.{IsFilled, count_used}
use bpak.Part.Extent.{sum_sizes, part_offset_lem}
use bpak.Patch.Stream.{Decompressor}
use bpak.Payload.{Hash}
use bpak.Verify.{payload_offset}
use bpak.Package.{Stdio}
use bpak.Package.Stream.{IsStream, place_at, place_at-place_at}
use bpak.Package.Extract.{place_at-nil}
use bpak.Transport.Decode.{Decoder, decode_init}
use bpak.Transport.Package.{decode_io, decode_part, parts_loop, decode_parts, pkg_transport_decode}
use bpak.Transport.Copied.{decode_start-Written, feed_loop-Fed, decode_finish-Written}

-- A part that is not coded for transport.
abbrev pub IsPlain : PartHeader → Type 0
IsPlain p = (bit_and p.flags flag_transport ≡ 0) × (p.transport_size ≡ 0)

All-get_or : (ps : List PartHeader) (i : ℕ) → All IsPlain ps → IsPlain (get_or ps i no_part)
All-get_or [] i plain = (refl, refl)
All-get_or (p ∷ ps) zero (first, rest) = first
All-get_or (p ∷ ps) (suc i) (first, rest) = All-get_or ps i rest

get_elem?-get_or :
    (ps : List PartHeader) (i : ℕ) → i < length ps → get_elem? ps i ≡ some (get_or ps i no_part)
get_elem?-get_or [] i less = absurd (omega arith)
get_elem?-get_or (p ∷ ps) zero less = refl
get_elem?-get_or (p ∷ ps) (suc i) less = get_elem?-get_or ps i (omega arith)

sum_sizes-suc :
    (ps : List PartHeader) (i : ℕ)
    → i < length ps
    → sum_sizes (suc i) ps ≡ sum_sizes i ps + part_size (get_or ps i no_part)
unfolding sum_sizes
sum_sizes-suc [] i less = absurd (omega arith)
sum_sizes-suc (p ∷ ps) zero less = omega arith
sum_sizes-suc (p ∷ ps) (suc i) less = omega (arith, sum_sizes-suc ps i (omega arith))

pub sum_sizes_mono : (ps : List PartHeader) (i j : ℕ) → i ≤ j → sum_sizes i ps ≤ sum_sizes j ps
unfolding sum_sizes
sum_sizes_mono [] zero j le = omega arith
sum_sizes_mono [] (suc i) zero le = absurd (omega arith)
sum_sizes_mono [] (suc i) (suc j) le = omega arith
sum_sizes_mono (p ∷ ps) zero j le = omega arith
sum_sizes_mono (p ∷ ps) (suc i) zero le = absurd (omega arith)
sum_sizes_mono (p ∷ ps) (suc i) (suc j) le = omega (arith, sum_sizes_mono ps i j (omega arith))

count_used_stop :
    (ps : List PartHeader) (i : ℕ)
    → i ≤ count_used ps
    → i ≤ length ps
    → ((i ≡ length ps) ⊎ ((get_or ps i no_part).id ≡ 0))
    → count_used ps ≡ i
unfolding count_used
count_used_stop [] i le bound stop = ground arith
count_used_stop (p ∷ ps) zero le bound (inl short) = absurd (omega arith)
count_used_stop (p ∷ ps) zero le bound (inr free) = ground arith
count_used_stop (p ∷ ps) (suc i) le bound (inl short) =
    let used : (p.id == 0) ≡ false = ground arith in
    rw used (ap suc (count_used_stop ps i (ground arith) (omega arith) (inl (omega arith))))
count_used_stop (p ∷ ps) (suc i) le bound (inr free) =
    let used : (p.id == 0) ≡ false = ground arith in
    rw used (ap suc (count_used_stop ps i (ground arith) (omega arith) (inr free)))

count_used_on :
    (ps : List PartHeader) (i : ℕ)
    → i ≤ count_used ps
    → i < length ps
    → (get_or ps i no_part).id ≢ 0
    → suc i ≤ count_used ps
unfolding count_used
count_used_on [] i le bound used = absurd (omega arith)
count_used_on (p ∷ ps) zero le bound used = ground arith
count_used_on (p ∷ ps) (suc i) le bound used =
    let first : (p.id == 0) ≡ false = ground arith in
    let more = count_used_on ps i (ground arith) (omega arith) used in rw first (omega arith)

place_at-zero : (xs bs : List ℕ) → place_at 0 xs bs ≡ xs ++ drop (length xs) bs
unfolding place_at
place_at-zero [] bs = refl
place_at-zero (x ∷ xs) bs = refl

place_at_end : (xs ys : List ℕ) → place_at (length xs) ys xs ≡ xs ++ ys
place_at_end xs ys =
    let start : length xs ≡ 0 + length xs = omega arith in
    ap₂ (λ k t. place_at k ys t) start (sym (place_at-nil xs))
    ∙ place_at-place_at 0 xs ys []
    ∙ place_at-nil (xs ++ ys)

-- The payload of a package's file.
abbrev pub payload : List ℕ → List ℕ
payload = drop header_size

module _ {D W S : Type 0} (decompress : Decompressor D) (zeroed : D) (input output origin : Stdio W)
    (from to : W → List ℕ) (from_at to_at : W → ℕ)
    (reader : IsStream {O = List ℕ × ℕ} input from from_at (λ w. (to w, to_at w)))
    (writer : IsStream {O = List ℕ × ℕ} output to to_at (λ w. (from w, from_at w))) (hash : Hash S)
    (zeroed_hash : S) (h : Header) (filled : IsFilled h.parts) (plain : All IsPlain h.parts)
    (full : length (header_bytes h) ≡ header_size) (file : List ℕ)
    (fits : header_size + sum_sizes (count_used h.parts) h.parts < 2 ^ 64)
    (enough : header_size + sum_sizes (count_used h.parts) h.parts ≤ length file) where
  abbrev copied : ℕ → List ℕ
  copied i = header_bytes h ++ take (sum_sizes i h.parts) (payload file)

  -- The output in front of part `i`.
  abbrev IsOutput : ℕ → List ℕ → Type 0
  IsOutput i bytes = ((i ≡ 0) × (bytes ≡ [])) ⊎ (bytes ≡ copied i)

  drop_header : (xs : List ℕ) → drop header_size (header_bytes h ++ xs) ≡ xs
  drop_header xs =
      ap (λ n. drop n (header_bytes h ++ xs)) (sym full) ∙ drop-append (header_bytes h) xs

  -- A write of the header over it.
  header_again :
      (i : ℕ) (bytes : List ℕ) → IsOutput i bytes → place_at 0 (header_bytes h) bytes ≡ copied i
  unfolding sum_sizes
  header_again i bytes (inl (first, empty)) =
      ap (place_at 0 (header_bytes h)) empty
      ∙ place_at-nil (header_bytes h)
      ∙ sym (append-nil (header_bytes h))
      ∙ ap (λ k. copied k) (sym first)
  header_again i bytes (inr same) =
      ap (place_at 0 (header_bytes h)) same
      ∙ place_at-zero (header_bytes h) (copied i)
      ∙ ap (λ t. header_bytes h ++ t)
          (drop-append (header_bytes h) (take (sum_sizes i h.parts) (payload file)))

  module _ (i : ℕ) (le : i < count_used h.parts) (bound : i < length h.parts)
      (live : (get_or h.parts i no_part).id ≢ 0) where
    abbrev size : ℕ
    size = part_size (get_or h.parts i no_part)

    in_package :
        header_size + sum_sizes i h.parts + size
        ≤ header_size + sum_sizes (count_used h.parts) h.parts
    in_package = omega (
      arith,
      sum_sizes-suc h.parts i bound,
      sum_sizes_mono h.parts (suc i) (count_used h.parts) le,
    )

    offset_here :
        payload_offset h (get_or h.parts i no_part) header_size + 0
        ≡ header_size + sum_sizes i h.parts
    unfolding payload_offset
    offset_here = omega (
      arith,
      part_offset_lem h i filled (get_elem?-get_or h.parts i bound) live,
      in_package,
      fits,
    )

    copied_on :
        place_at
          (header_size + sum_sizes i h.parts)
          (take size (drop (header_size + sum_sizes i h.parts) file))
          (copied i)
        ≡ copied (suc i)
    copied_on =
        let n = sum_sizes i h.parts in
        let more = take size (drop n (payload file)) in
        let long : length (copied i) ≡ header_size + n = omega (
          arith,
          length-append (header_bytes h) (take n (payload file)),
          full,
          length-take {0} n (payload file),
          length-drop {0} header_size file,
          in_package,
        ) in
        ap₂ (λ k t. place_at k (take size t) (copied i)) (sym long)
          (sym (drop-add header_size n file))
        ∙ place_at_end (copied i) more
        ∙ append_assoc (header_bytes h) (take n (payload file)) more
        ∙ ap (λ t. header_bytes h ++ t) (sym (take-add n size (payload file)))
        ∙ ap (λ k. header_bytes h ++ take k (payload file)) (sym (sum_sizes-suc h.parts i bound))

  -- A context that is at slot `i`.
  abbrev context : ℕ → ℕ → ℕ → Decoder D
  context i id n = record {
    patch_header = h;
    output_offset = header_size;
    origin = none;
    part = i;
    decoder_id = id;
    copy_offset = n;
    bspatch = none;
  }

  -- The streams in front of part `i`.
  abbrev IsAt : ℕ → W → Type 0
  IsAt i w = (from w ≡ file) × (from_at w ≡ header_size + sum_sizes i h.parts) × IsOutput i (to w)

  decode_part-IsAt :
      (fuel i j id n : ℕ) (w : W)
      → i < count_used h.parts
      → i < length h.parts
      → (get_or h.parts i no_part).id ≢ 0
      → IsAt i w
      → (w' : W) × (decode_part decompress zeroed input
            (decode_io output origin)
            hash
            zeroed_hash
            fuel
            i
            (context j id n, w)
          ≡ some (done tt, (context i 0 (0 + part_size (get_or h.parts i no_part)), w')))
        × IsAt (suc i) w'
  unfolding decode_part
  decode_part-IsAt fuel i j id n w le bound live (same, there, out) =
      let all = size i le bound live in
      let here = offset_here i le bound live in
      let (part_plain, unset) = All-get_or h.parts i plain in
      let (w1, run1, (out1, from1, at1)) =
        decode_start-Written decompress zeroed input output origin from to from_at to_at reader
          writer i (context j id n) w part_plain full in
      let source : from w1 ≡ file = from1 ∙ same in
      let start : from_at w1 ≡ header_size + sum_sizes i h.parts = at1 ∙ there in
      let (w2, run2, from2, at2, out2) =
        feed_loop-Fed decompress zeroed input output origin from to from_at to_at reader writer fuel
          all all (context i 0 0) w1 refl (omega (arith, here, in_package i le bound live, fits))
          (omega arith)
          (omega (arith, start, ap length source, in_package i le bound live, enough)) in
      let (w3, run3, (out3, from3, at3)) =
        decode_finish-Written decompress zeroed input output origin from to from_at to_at reader
          writer hash zeroed_hash fuel i (0 + all) (context i 0 0) w2 part_plain unset full in
      let before : to w1 ≡ copied i = out1 ∙ header_again i (to w) out in
      let whole : to w2 ≡ copied (suc i) =
        out2
        ∙ ap (λ k. place_at k (take all (drop (from_at w1) (from w1))) (to w1)) here
        ∙ ap₂ (λ k t. place_at (header_size + sum_sizes i h.parts) (take all (drop k t)) (to w1))
            start source
        ∙ ap
            (place_at (header_size + sum_sizes i h.parts)
              (take all (drop (header_size + sum_sizes i h.parts) file)))
            before
        ∙ copied_on i le bound live in
      (
        w3,
        rw (run1, ◌>>=◌) (rw (run2, ◌>>=◌) run3),
        (
          from3 ∙ from2 ∙ source,
          at3 ∙ at2 ∙ omega (arith, start, sum_sizes-suc h.parts i bound),
          inr (out3 ∙ header_again (suc i) (to w2) (inr whole)),
        ),
      )

  parts_loop-IsAt :
      (fuel slots i j id n : ℕ) (w : W)
      → slots + i ≡ length h.parts
      → i ≤ count_used h.parts
      → IsAt i w
      → (j' : ℕ) × (id' : ℕ) × (n' : ℕ) × (w' : W) × (parts_loop decompress zeroed input
            (decode_io output origin)
            hash
            zeroed_hash
            fuel
            none
            slots
            i
            (context j id n, w)
          ≡ some (done tt, (context j' id' n', w')))
        × IsAt (count_used h.parts) w'
  unfolding parts_loop
  parts_loop-IsAt fuel zero i j id n w all le st =
      let last = count_used_stop h.parts i le (omega arith) (inl (omega arith)) in
      (j, id, n, w, refl, rw last st)
  parts_loop-IsAt fuel (suc slots) i j id n w all le st =
      elim (Bool-cases ((get_or h.parts i no_part).id == 0)) [
        | inl free ↦
            let last = count_used_stop h.parts i le (omega arith) (inr (ground arith)) in
            (j, id, n, w, rw (free, parts_loop) refl, rw last st)
        | inr used ↦
            let live : (get_or h.parts i no_part).id ≢ 0 = ground arith in
            let next = count_used_on h.parts i le (omega arith) live in
            let (w1, run, st1) = decode_part-IsAt fuel i j id n w next (omega arith) live st in
            let (j', id', n', w', run', st') =
              parts_loop-IsAt fuel slots (suc i) i 0 (0 + size i next (omega arith) live) w1
                (omega arith) next st1 in
            (j', id', n', w', rw (used, parts_loop) (rw (run, ◌>>=◌) run'), st')
      ]

  -- A package with a filled part table, none of whose parts is coded for transport, is copied: with an empty
  -- output and without an origin `bpak_pkg_transport_decode` succeeds, whatever the fuel, keeps the header, and
  -- writes the header and then the data of all used parts, in the order of the input. The header has to take
  -- 4096 bytes, the input has to reach to the end of the last part, and there has to be a part.
  pub pkg_transport_decode_plain :
      (fuel : ℕ) (w : W)
      → 0 < count_used h.parts
      → from w ≡ file
      → to w ≡ []
      → (c : Decoder D) × (w' : W) × (pkg_transport_decode decompress zeroed input
            (decode_io output origin)
            hash
            zeroed_hash
            fuel
            h
            none
            w
          ≡ some (done c, w'))
        × (c.patch_header ≡ h)
        × (from w' ≡ file)
        × (to w' ≡ header_bytes h ++ take (sum_sizes (count_used h.parts) h.parts) (payload file))
  unfolding pkg_transport_decode decode_parts decode_init sum_sizes
  pkg_transport_decode_plain fuel w some_part source empty =
      let w1 = (input.fseek header_size w).1 in
      let (found, kept, there, other) = reader.seek header_size w in
      let (j, id, n, w', run, (from', at', out)) =
        parts_loop-IsAt fuel (length h.parts) 0 0 0 0 w1 (omega arith) (omega arith)
          (kept ∙ source, there ∙ omega arith, inl (refl, ap (λ o. o.0) other ∙ empty)) in
      let whole : to w' ≡ copied (count_used h.parts) = elim out [
        | inl (none_used, e) ↦ absurd (omega arith)
        | inr e ↦ e
      ] in
      let parts_run : decode_parts decompress zeroed input (decode_io output origin) hash
            zeroed_hash fuel none (context 0 0 0, w)
          ≡ some (done tt, (context j id n, w')) =
        rw (found, decode_parts) run in
      (context j id n, w', rw (parts_run, pkg_transport_decode) refl, refl, from', whole)
