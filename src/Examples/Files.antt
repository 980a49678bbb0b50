-- ===== src/Examples/Files.antt =====
-- Decoding a package that is not coded, and extracting and hashing its part.
use bpak.Prelude.{
  ℕ, zero, suc, All, ◌+◌, ◌≡◌, refl, inl, inr, true, none, some, List, [], ◌∷◌, ◌++◌, length, take,
  drop, replicate, arith,
}
use bpak.Run.{done, lift, expect}
use bpak.Status
use bpak.Status.{ok, err}
use bpak.Header.{
  Header, init_header, header_size, hash_sha256, no_part, part_size, part_size_wo_pad,
}
use bpak.Header.Bytes.{header_bytes}
use bpak.Part.{get_part, get_loop, part_offset, offset_loop}
use bpak.Part.Table.{IsFilled, count_used}
use bpak.Part.Extent.{sum_sizes}
use bpak.Package.{Stdio}
use bpak.Package.Stream.{IsStream, place_at}
use bpak.Package.Extract.{Host, extract_file, extract_file-bytes}
use bpak.Package.Digest.{part_sha256, part_sha256_lem}
use bpak.Transport.Decode.{
  Decoder, decode_finish, output_length, is_bspatch, check_length, write_decoder_header, decoded,
}
use bpak.Transport.Package.{decode_io, write_stream_header, write_stream, pkg_transport_decode}
use bpak.Transport.Identity.{pkg_transport_decode_plain, payload, IsPlain}
use bpak.Examples.{kernel, free_parts, free_ids}
use bpak.Examples.Patches.{no_decoder}
use bpak.Examples.Payloads.{keep, keep-IsStreaming}

-- Two files with their positions.
abbrev Files : Type 0
Files = (ℕ × List ℕ) × (ℕ × List ℕ)

abbrev first : Stdio Files
first = record {
  fseek = λ offset w. (true, ((offset, w.0.1), w.1));
  fread = λ n w.
      (take n (drop w.0.0 w.0.1), ((w.0.0 + length (take n (drop w.0.0 w.0.1)), w.0.1), w.1));
  fwrite = λ xs w. (length xs, ((w.0.0 + length xs, place_at w.0.0 xs w.0.1), w.1));
}

abbrev second : Stdio Files
second = record {
  fseek = λ offset w. (true, (w.0, (offset, w.1.1)));
  fread = λ n w.
      (take n (drop w.1.0 w.1.1), (w.0, (w.1.0 + length (take n (drop w.1.0 w.1.1)), w.1.1)));
  fwrite = λ xs w. (length xs, (w.0, (w.1.0 + length xs, place_at w.1.0 xs w.1.1)));
}

first-IsStream : IsStream {O = List ℕ × ℕ} first (λ w. w.0.1) (λ w. w.0.0) (λ w. (w.1.1, w.1.0))
first-IsStream = record {
  seek = λ o w. (refl, refl, refl, refl);
  read = λ n w. (refl, refl, refl, refl);
  write = λ xs w. (refl, refl, refl, refl);
}

first-IsFile : IsStream {O = Unit {0}} first (λ w. w.0.1) (λ w. w.0.0) (λ w. tt)
first-IsFile = record {
  seek = λ o w. (refl, refl, refl, refl);
  read = λ n w. (refl, refl, refl, refl);
  write = λ xs w. (refl, refl, refl, refl);
}

second-IsStream : IsStream {O = List ℕ × ℕ} second (λ w. w.1.1) (λ w. w.1.0) (λ w. (w.0.1, w.0.0))
second-IsStream = record {
  seek = λ o w. (refl, refl, refl, refl);
  read = λ n w. (refl, refl, refl, refl);
  write = λ xs w. (refl, refl, refl, refl);
}

abbrev pub one_part : Header
one_part = record init_header { parts = kernel ∷ replicate 31 no_part }

pub one_part-IsFilled : IsFilled one_part.parts
one_part-IsFilled = inr (omega arith, free_ids 31 1 (omega arith), inl (refl, free_parts 30))

free_parts-IsPlain : (n : ℕ) → All IsPlain (replicate n no_part)
free_parts-IsPlain zero = tt
free_parts-IsPlain (suc n) = ((refl, refl), free_parts-IsPlain n)

one_part-IsPlain : All IsPlain one_part.parts
one_part-IsPlain = ((refl, refl), free_parts-IsPlain 31)

one_part_full : length (header_bytes one_part) ≡ header_size
unfolding header_bytes init_header
one_part_full = refl

abbrev package_file : List ℕ
package_file = replicate 4608 7

one_part_fits : header_size + sum_sizes (count_used one_part.parts) one_part.parts ≡ 4608
unfolding sum_sizes count_used part_size init_header
one_part_fits = refl

one_part_used : count_used one_part.parts ≡ 1
unfolding count_used init_header
one_part_used = refl

abbrev start : Files
start = ((0, package_file), (0, []))

pkg_transport_decode_plain_example :
    (c : Decoder (Unit {0})) × (w' : Files) × (pkg_transport_decode no_decoder tt first
        (decode_io second first)
        keep
        []
        0
        one_part
        none
        start
      ≡ some (done c, w'))
    × (c.patch_header ≡ one_part)
    × (w'.0.1 ≡ package_file)
    × (w'.1.1
        ≡ header_bytes one_part
          ++ take (sum_sizes (count_used one_part.parts) one_part.parts) (payload package_file))
pkg_transport_decode_plain_example =
    pkg_transport_decode_plain no_decoder tt first second first (λ w. w.0.1) (λ w. w.1.1)
      (λ w. w.0.0) (λ w. w.1.0) first-IsStream second-IsStream keep [] one_part one_part-IsFilled
      one_part-IsPlain one_part_full package_file (omega (arith, one_part_fits))
      (omega (arith, one_part_fits)) 0 start (omega (arith, one_part_used)) refl refl

-- The second file is opened, and is empty then.
abbrev host : Host Files
host = record {
  stat = λ name w. none;
  fopen = λ name mode w. (some second, (w.0, (0, [])));
  stdout = second;
}

kernel_found : get_part one_part 1 ≡ ok 0
unfolding get_part get_loop
kernel_found = refl

kernel_offset : part_offset one_part kernel ≡ 4096
unfolding part_offset offset_loop init_header
kernel_offset = refl

package_length : length package_file ≡ 4608
package_length = refl

kernel_size : part_size_wo_pad kernel ≡ 500
unfolding part_size_wo_pad
kernel_size = refl

extract_file-bytes_example :
    (w' : Files) × (extract_file first host one_part 1 (some (107 ∷ [])) start ≡ some (done tt, w'))
    × (w'.1.1 ≡ take 500 (drop (part_offset one_part kernel) package_file))
    × (w'.0.1 ≡ package_file)
extract_file-bytes_example =
    extract_file-bytes first host second (107 ∷ []) (λ w. w.0.1) (λ w. w.1.1) (λ w. w.0.0)
      (λ w. w.1.0) first-IsStream second-IsStream (λ w. (refl, refl, refl, refl, refl)) one_part 1 0
      start kernel_found refl (omega arith) (omega (arith, kernel_offset, package_length))

part_sha256_lem_example :
    (w' : Files) × (part_sha256 first keep one_part 32 1 start
      ≡ lift
          (Status.◌>>=◌ (keep.init hash_sha256) (λ s.
            Status.◌>>=◌
              (keep.update s
                (take (part_size_wo_pad kernel) (drop (part_offset one_part kernel) package_file)))
              (λ t. keep.final t 32)))
          w')
part_sha256_lem_example =
    part_sha256_lem first keep keep-IsStreaming (λ w. w.0.1) (λ w. w.0.0) first-IsFile one_part 32 1
      0 start kernel_found (omega (arith, kernel_offset, package_length, kernel_size))

-- A part that is copied, behind its data.
abbrev copying : Decoder (Unit {0})
copying = record {
  patch_header = one_part;
  output_offset = header_size;
  origin = none;
  part = 0;
  decoder_id = 0;
  copy_offset = 512;
  bspatch = none;
}

copying_finishes :
    decode_finish no_decoder tt (decode_io second first) keep [] 0 (copying, start)
    ≡ some (done tt, (copying, (start.0, (4096, header_bytes one_part))))
unfolding decode_finish output_length check_length is_bspatch decoded part_size write_decoder_header
    write_stream_header write_stream header_bytes init_header place_at expect
copying_finishes = refl
