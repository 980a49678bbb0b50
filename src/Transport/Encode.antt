-- ===== src/Transport/Encode.antt =====
-- lib/transport_encode.c. The streams, the mapping of files into memory, the encoders and the sorting of
-- suffixes are parameters. An origin is its header with its stream. The data of a part is taken to lie in the
-- mapped file. `none` is a loop that ran out of fuel, or a read through a null pointer.
use bpak.Prelude.{
  ℕ, ◌+◌, ◌-◌, bit_and, Bool, true, false, Option, none, some, List, [], ◌∷◌, ◌==◌, ◌||◌,
  if◌then◌else◌, length, take, drop, get_or, set,
}
use bpak.Int.{ℤ, pos, negsuc}
use bpak.Run.{Rc, Run, done, fail, pure, raise, return_code, minus, ◌>>=◌, ◌>>◌}
use bpak.Status.{
  Result, ok, err, failed, seek_error, write_error, package_uuid_mismatch, patch_read_origin_error,
}
use bpak.Header.{PartHeader, Header, header_size, no_part, flag_transport, part_size}
use bpak.Header.Bytes.{header_bytes}
use bpak.Meta.{get_meta}
use bpak.Part.{get_part, part_offset}
use bpak.Patch.{is_count}
use bpak.Patch.Stream.{Compression, compression_none, compression_hs, compression_lzma}
use bpak.Bsdiff.Compress.{Compressor}
use bpak.Bsdiff.Scan.{bsdiff_init, bsdiff}
use bpak.Verify.{is_same, meta_bytes}
use bpak.Package.{Stdio}
use bpak.Package.Stream.{copy_loop}
use bpak.Package.Create.{on_streams, seek_to}
use bpak.Transport.{
  id_bpak_transport, id_bpak_package, id_bsdiff, id_bsdiff_lzma, id_bsdiff_no_comp, id_remove_data,
  le_value,
}

-- `alg_id_encode` of the transport metadata in slot `i`.
unfoldable pub alg_id_encode : Header → ℕ → ℕ
unfolding le_value meta_bytes
alg_id_encode h i = le_value (meta_bytes h i 4)

-- The file behind a stream: `fseek` to the end and `ftell`, `mmap` of so many bytes from the start, and
-- `lseek` and `write` on the descriptor.
pub record Descriptor (W : Type 0) : Type 0 where
  pub file_size : W → Option ℕ × W
  pub mmap : ℕ → W → Option (List ℕ)
  pub lseek : ℤ → W → Bool × W
  pub write : List ℕ → W → ℤ × W

-- The three algorithms that make a patch.
unfoldable pub is_bsdiff : ℕ → Bool
is_bsdiff id = id == id_bsdiff || (id == id_bsdiff_no_comp || id == id_bsdiff_lzma)

unfoldable pub encoder_compression : ℕ → Compression
encoder_compression id =
    if id == id_bsdiff
    then compression_hs
    else if id == id_bsdiff_lzma
    then compression_lzma
    else compression_none

-- `transport_size = output_size` and `flags |= BPAK_FLAG_TRANSPORT`
unfoldable pub encoded : ℕ → PartHeader → PartHeader
encoded output_size p = record p {
  transport_size = output_size;
  flags = p.flags + (flag_transport - bit_and p.flags flag_transport);
}

-- `transport_copy`
unfoldable pub transport_copy :
    {W : Type 0} → Stdio W → Stdio W → Header → Header → ℕ → Run W (Unit {0})
unfolding copy_loop raise seek_to
transport_copy input_fp output_fp input_hdr output_hdr id = elim (get_part input_hdr id) [
  | err e ↦ raise e
  | ok i ↦
      let p = get_or input_hdr.parts i no_part in
      (do
        seek_to input_fp (part_offset input_hdr p)
        seek_to output_fp (part_offset output_hdr p)
        copy_loop input_fp output_fp 1024 (part_size p) (part_size p))
]

-- `bsdiff_write_output`
unfoldable pub bsdiff_write_output : {W : Type 0} → Descriptor W → ℤ → List ℕ → W → ℤ × W
unfolding minus is_count
bsdiff_write_output {W = W} output offset buffer w =
    let (found, w1) = output.lseek offset w in
    let (written, w2) = output.write buffer w1 in
    let checked : ℤ × W = elim written as (λ _. ℤ × W) [
      | negsuc n ↦ (negsuc n, w2)
      | pos n ↦ if n == length buffer then (pos n, w2) else (minus write_error, w2)
    ] in
    if found then checked else (minus seek_error, w1)

-- A whole file in memory.
unfoldable pub map_file : {W : Type 0} → Descriptor W → Run W (List ℕ)
unfolding raise
map_file {W = W} file w =
    let (size, w1) = file.file_size w in
    elim size as (λ _. Option (Rc (List ℕ) × W)) [
      | none ↦ raise seek_error w1
      | some n ↦ elim (file.mmap n w1) as (λ _. Option (Rc (List ℕ) × W)) [
        | none ↦ raise failed w1
        | some bytes ↦ some (done bytes, w1)
      ]
    ]

module _ {C W : Type 0} (compress : Compressor C) (sais : List ℕ → Option (List ℕ)) (zeroed : C)
    (behind : ℕ) (target origin output : Descriptor W) where
  -- Behind the mapping of both files.
  unfoldable pub diff_files : ℕ → List ℕ → List ℕ → ℕ → Compression → Run W ℕ
  unfolding bsdiff_init bsdiff bsdiff_write_output raise
  diff_files fuel origin_data target_data output_offset compression w =
      elim (bsdiff_init compress sais zeroed origin_data target_data (pos output_offset)
          compression)
        as (λ _. Option (Rc ℕ × W)) [
          | err e ↦ raise e w
          | ok d ↦
              elim (bsdiff compress (bsdiff_write_output output) behind fuel (d, w))
                as (λ _. Option (Rc ℕ × W)) [ none ↦ none | some (r, (d', w')) ↦ some (r, w') ]
        ]

  -- `transport_bsdiff`; the fuel is for the encoders' loops.
  unfoldable pub transport_bsdiff : ℕ → ℕ → ℕ → ℕ → ℕ → ℕ → Compression → Run W ℕ
  unfolding map_file diff_files
  transport_bsdiff fuel target_offset target_length origin_offset origin_length output_offset
        compression =
      do
        target_file ← map_file target
        origin_file ← map_file origin
        diff_files fuel (take origin_length (drop origin_offset origin_file))
            (take target_length (drop target_offset target_file)) output_offset compression

  module _ (input_fp output_fp origin_fp : Stdio W) (input_header : Header)
      (origin_header : Option Header) where
    -- The three `fseek`: where one fails its -1 is returned.
    unfoldable pub seek_or_fail : Stdio W → ℕ → Run W (Unit {0})
    seek_or_fail fp offset w =
        let (found, w') = fp.fseek offset w in
        (if found then pure {W = W} tt else return_code (negsuc 0)) w'

    -- The switch over the algorithm: the size of the output. `j` is the part's slot in the origin.
    unfoldable pub encode_by : ℕ → ℕ → Option (Header × ℕ) → PartHeader → ℕ → Run W ℕ
    unfolding is_bsdiff encoder_compression transport_bsdiff raise
    encode_by fuel alg_id found input_part output_offset =
        if is_bsdiff alg_id
        then elim found as (λ _. Run W ℕ) [
          | none ↦ raise patch_read_origin_error
          | some (h, j) ↦
              let origin_part = get_or h.parts j no_part in
              transport_bsdiff fuel (part_offset input_header input_part) (part_size input_part)
                (part_offset h origin_part) (part_size origin_part) output_offset
                (encoder_compression alg_id)
        ]
        else if alg_id == id_remove_data
        then pure 0
        else return_code (negsuc 0)

    -- The part in the origin.
    unfoldable pub find_origin : ℕ → Result (Option (Header × ℕ))
    find_origin id = elim origin_header [
      | none ↦ ok none
      | some h ↦ elim (get_part h id) [ err e ↦ err e | ok j ↦ ok (some (h, j)) ]
    ]

    -- Behind the look-ups: the seeks, the coding, and the output's part.
    unfoldable pub encode_found :
        ℕ → ℕ → Option (Header × ℕ) → PartHeader → ℕ → Run (Header × W) (Unit {0})
    unfolding seek_or_fail encode_by encoded on_streams
    encode_found fuel alg_id found input_part j (h, w) =
        let output_part = get_or h.parts j no_part in
        let seek_origin : Run W (Unit {0}) = elim found as (λ _. Run W (Unit {0})) [
          | none ↦ pure tt
          | some (oh, k) ↦ seek_or_fail origin_fp (part_offset oh (get_or oh.parts k no_part))
        ] in
        let coded : Run W ℕ = (do
          seek_origin
          seek_or_fail input_fp (part_offset input_header input_part)
          seek_or_fail output_fp (part_offset h output_part)
          encode_by fuel alg_id found input_part (part_offset h output_part)) in
        (on_streams coded >>= λ output_size (h, w).
        some (done tt, (record h { parts = set h.parts j (encoded output_size output_part) }, w)))
          (h, w)

    -- `transport_encode_part` on the part `part_ref_id`, with the algorithm of its metadata. The header of
    -- the state is the output's.
    unfoldable pub transport_encode_part : ℕ → ℕ → ℕ → Run (Header × W) (Unit {0})
    unfolding find_origin encode_found raise
    transport_encode_part fuel alg_id part_ref_id (h, w) =
        elim (get_part input_header part_ref_id) as (λ _. Option (Rc (Unit {0}) × (Header × W))) [
          | err e ↦ raise e (h, w)
          | ok i ↦ elim (get_part h part_ref_id) as (λ _. Option (Rc (Unit {0}) × (Header × W))) [
            | err e ↦ raise e (h, w)
            | ok j ↦
                elim (find_origin part_ref_id) as (λ _. Option (Rc (Unit {0}) × (Header × W))) [
                  | err e ↦ raise e (h, w)
                  | ok found ↦
                      if bit_and (get_or h.parts j no_part).flags flag_transport == 0
                      then encode_found fuel alg_id found (get_or input_header.parts i no_part) j
                          (h, w)
                      else some (done tt, (h, w))
                ]
          ]
        ]

    -- One part of the loop: coded if it has transport metadata, and copied if not.
    unfoldable pub encode_one : ℕ → ℕ → Run (Header × W) (Unit {0})
    unfolding transport_encode_part transport_copy alg_id_encode on_streams
    encode_one fuel id (h, w) =
        elim (get_meta input_header id_bpak_transport id)
          as (λ _. Option (Rc (Unit {0}) × (Header × W))) [
            | ok i ↦ transport_encode_part fuel (alg_id_encode input_header i) id (h, w)
            | err e ↦ on_streams (transport_copy input_fp output_fp input_header h id) (h, w)
          ]

    unfoldable pub encode_loop : ℕ → List PartHeader → Run (Header × W) (Unit {0})
    unfolding encode_one
    encode_loop fuel [] = pure tt
    encode_loop fuel (ph ∷ ps) =
        let rest = encode_loop fuel ps in
        if ph.id == 0 then pure tt else (encode_one fuel ph.id >>= λ _. rest)

    -- The header in front of the parts.
    unfoldable pub write_output_header : Run (Header × W) (Unit {0})
    unfolding raise
    write_output_header (h, w) =
        let (found, w1) = output_fp.fseek 0 w in
        let (written, w2) = output_fp.fwrite (header_bytes h) w1 in
        elim found as (λ _. Option (Rc (Unit {0}) × (Header × W))) [
          | false ↦ raise seek_error (h, w1)
          | true ↦
              if written == header_size
              then some (done tt, (h, w2))
              else some (fail (negsuc 0), (h, w2))
        ]

    -- The comparison of the identifiers. `bpak_get_meta_ptr` is used before the return code is looked at.
    unfoldable pub check_origin : Option (Result (Unit {0}))
    unfolding meta_bytes is_same
    check_origin = elim origin_header [
      | none ↦ some (ok tt)
      | some h ↦ elim (get_meta h id_bpak_package 0) [
        | err e ↦ none
        | ok i ↦ elim (get_meta input_header id_bpak_package 0) [
          | err e ↦ none
          | ok j ↦ some (
              if is_same (meta_bytes h i 16) (meta_bytes input_header j 16)
              then ok tt
              else err package_uuid_mismatch)
        ]
      ]
    ]

    -- `bpak_transport_encode`: the header of the output is the state's.
    unfoldable pub transport_encode : ℕ → Run (Header × W) (Unit {0})
    unfolding check_origin encode_loop write_output_header raise
    transport_encode fuel (h, w) =
        elim check_origin as (λ _. Option (Rc (Unit {0}) × (Header × W))) [
          | none ↦ none
          | some (err e) ↦ raise e (h, w)
          | some (ok _) ↦
              (encode_loop fuel input_header.parts >>= λ _. write_output_header) (input_header, w)
        ]
