-- ===== src/Examples/Changes.antt =====
-- Adding a file to an empty package, deleting the first of two parts, and adding transport metadata.
use bpak.Prelude.{
  ℕ, zero, suc, ◌+◌, ◌≡◌, refl, sym, ◌∙◌, inl, inr, true, false, some, List, [], ◌∷◌, ◌++◌, length,
  take, drop, replicate, overlay, arith,
}
use bpak.Run.{done}
use bpak.Status.{ok}
use bpak.Header.{PartHeader, Header, init_header, header_size, no_part, part_size}
use bpak.Header.Bytes.{header_bytes}
use bpak.Part.{get_part, get_loop, del_part, del_at, part_offset, offset_loop}
use bpak.Crc.{id_of}
use bpak.Patch.{is_count}
use bpak.Payload.{compute_payload_hash}
use bpak.Package.{Stdio, read_payload, update_payload_hash, write_header}
use bpak.Package.Stream.{IsStream, place_at}
use bpak.Package.Extract.{Host}
use bpak.Package.Create.{on_streams}
use bpak.Package.Create.Stored.{added_header}
use bpak.Part.Extent.{sum_sizes}
use bpak.Examples.Files.{one_part}
use bpak.Examples.{free_ids, free_parts}
use bpak.Package.Remove.{
  FileOps, delete_part, shift_parts, move_loop, move_chunk, truncate, finish_removal, new_size_loop,
}
use bpak.Package.Remove.Moved.{resized}
use bpak.Package.Remove.Placed.{IsPlaced, IsWithout, delete_part-IsWithout}
use bpak.Part.Table.{IsFilled, count_used}
use bpak.Header.{metadata_bytes}
use bpak.Meta.{add_meta, get_meta}
use bpak.Transport.{id_bpak_transport, id_bsdiff_no_comp, id_bspatch_no_comp, add_transport_meta}
use bpak.Transport.Decode.{decoder_of}
use bpak.Transport.Encode.{alg_id_encode}
use bpak.Transport.Metadata.{decoder_of-add_transport_meta}
use bpak.Examples.{kernel, rootfs, sample, sample-IsValid, sample-IsSized}
use bpak.Examples.Payloads.{keep}

-- The package's file with its position, and what is left of the input.
abbrev World : Type 0
World = (ℕ × List ℕ) × List ℕ

abbrev package_fp : Stdio World
package_fp = record {
  fseek = λ offset w. (true, ((offset, w.0.1), w.1));
  fread = λ n w.
      (take n (drop w.0.0 w.0.1), ((w.0.0 + length (take n (drop w.0.0 w.0.1)), w.0.1), w.1));
  fwrite = λ xs w. (length xs, ((w.0.0 + length xs, place_at w.0.0 xs w.0.1), w.1));
}

abbrev input_fp : Stdio World
input_fp = record {
  fseek = λ offset w. (true, w);
  fread = λ n w. (take n w.1, (w.0, drop n w.1));
  fwrite = λ xs w. (0, w);
}

package_fp-IsStream : IsStream package_fp (λ w. w.0.1) (λ w. w.0.0) (λ w. w.1)
package_fp-IsStream = record {
  seek = λ o w. (refl, refl, refl, refl);
  read = λ n w. (refl, refl, refl, refl);
  write = λ xs w. (refl, refl, refl, refl);
}

abbrev input_name : List ℕ
input_name = 107 ∷ []

abbrev input_file : List ℕ
input_file = 1 ∷ 2 ∷ 3 ∷ []

abbrev host : Host World
host = record {
  stat = λ name w. some 3;
  fopen = λ name mode w. (some input_fp, (w.0, input_file));
  stdout = package_fp;
}

-- The package has a part of 512 bytes.
abbrev added : Header
added = record (added_header 3 one_part (id_of input_name) 0 1) { payload_hash = replicate 64 7 }

abbrev package_bytes : List ℕ
package_bytes = replicate 4608 7

abbrev added_bytes : List ℕ
added_bytes =
    place_at 0 (header_bytes added) (place_at 4608 (input_file ++ replicate 509 0) package_bytes)

abbrev ops : FileOps World
ops = record {
  ferror = λ w. false;
  ftruncate = λ size w. (true, ((w.0.0, resized size w.0.1), w.1));
}

-- Two parts of 512 bytes, of which the first goes.
abbrev second_part : PartHeader
second_part = record kernel { id = 2; offset = 4608 }

abbrev two_parts : Header
two_parts = record init_header { parts = kernel ∷ second_part ∷ replicate 30 no_part }

abbrev remaining : Header
remaining = record init_header {
  parts = record second_part { offset = 4096 } ∷ replicate 31 no_part;
}

abbrev remaining_hashed : Header
remaining_hashed = record remaining { payload_hash = replicate 64 9 }

abbrev before : List ℕ
before = replicate 4608 7 ++ replicate 512 9

abbrev after : List ℕ
after =
    resized 4608
      (place_at 0 (header_bytes remaining_hashed) (place_at 4096 (drop 4608 before) before))

kernel_found : get_part two_parts 1 ≡ ok 0
unfolding get_part get_loop init_header
kernel_found = refl

two_parts-IsFilled : IsFilled two_parts.parts
two_parts-IsFilled = inr (
  omega arith,
  (omega arith, free_ids 30 1 (omega arith)),
  inr (omega arith, free_ids 30 2 (omega arith), inl (refl, free_parts 29)),
)

two_parts_used : count_used two_parts.parts ≡ 2
unfolding count_used init_header
two_parts_used = refl

two_parts-IsPlaced : IsPlaced two_parts.parts
unfolding sum_sizes part_size init_header
two_parts-IsPlaced zero less = refl
two_parts-IsPlaced (suc zero) less = refl
two_parts-IsPlaced (suc (suc j)) less = absurd (omega (arith, two_parts_used))

two_parts_end : header_size + sum_sizes (count_used two_parts.parts) two_parts.parts ≡ 5120
unfolding sum_sizes count_used part_size init_header
two_parts_end = refl

before_end : length before ≡ 5120
before_end = refl

remaining_full : length (header_bytes remaining_hashed) ≡ header_size
unfolding header_bytes init_header
remaining_full = refl

deleting_run :
    delete_part package_fp ops keep 5120 1 false (two_parts, ((0, before), []))
    ≡ some (done tt, (remaining_hashed, ((4096, after), [])))
unfolding delete_part shift_parts move_loop move_chunk truncate finish_removal new_size_loop
    on_streams update_payload_hash write_header compute_payload_hash read_payload part_size is_count
    header_bytes get_part get_loop del_part del_at part_offset offset_loop init_header place_at
    overlay
deleting_run = refl

delete_part-IsWithout_example :
    IsWithout two_parts.parts remaining_hashed.parts (header_bytes remaining_hashed) 0 before after
delete_part-IsWithout_example =
    delete_part-IsWithout package_fp ops keep (λ w. w.0.1) (λ w. w.0.0) (λ w. w.1)
      package_fp-IsStream (λ size w. (refl, refl)) two_parts two_parts-IsFilled two_parts-IsPlaced
      (omega (arith, two_parts_end)) 5120 1 0 remaining_hashed ((0, before), []) ((4096, after), [])
      tt kernel_found (omega (arith, two_parts_used)) (before_end ∙ sym two_parts_end)
      (omega (arith, before_end)) remaining_full deleting_run

transport_slot : (add_meta sample id_bpak_transport 2 32).0 ≡ ok 2
unfolding add_meta init_header
transport_slot = refl

sample_bytes : length sample.metadata ≡ metadata_bytes
sample_bytes = sample-IsSized.data_bytes

decoder_of-add_transport_meta_example :
    ((add_transport_meta sample 2 id_bsdiff_no_comp id_bspatch_no_comp).0 ≡ ok tt)
    × (get_meta
          (add_transport_meta sample 2 id_bsdiff_no_comp id_bspatch_no_comp).1
          id_bpak_transport
          2
        ≡ ok 2)
    × (alg_id_encode (add_transport_meta sample 2 id_bsdiff_no_comp id_bspatch_no_comp).1 2
        ≡ id_bsdiff_no_comp)
    × (decoder_of (add_transport_meta sample 2 id_bsdiff_no_comp id_bspatch_no_comp).1 rootfs
        ≡ id_bspatch_no_comp)
decoder_of-add_transport_meta_example =
    decoder_of-add_transport_meta sample sample-IsValid sample_bytes 2 id_bsdiff_no_comp
      id_bspatch_no_comp (omega arith) (omega arith) 2 transport_slot rootfs refl (omega arith)
