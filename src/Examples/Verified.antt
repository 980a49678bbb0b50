-- ===== src/Examples/Verified.antt =====
-- A package of one part of 4096 bytes with its hash tree, which is accepted, and a header's hash.
use bpak.Prelude.{
  ℕ, ◌+◌, ◌%◌, ◌≡◌, refl, none, some, List, [], ◌∷◌, ◌++◌, All, take, drop, length, replicate,
  false, true, ◌<◌, ◌∙◌, ◌==◌, ==_iff, length-take, arith,
}
use bpak.Package.{Stdio, read_payload}
use bpak.Run.{done, lift, expect}
use bpak.Status.{ok, err, ◌>>=◌}
use bpak.Header.{MetaHeader, PartHeader, Header, no_meta, no_part, init_header, part_size}
use bpak.Header.Bytes.{header_bytes, behind_metadata}
use bpak.Meta.{get_meta, get_meta_int}
use bpak.Part.{get_part, get_loop, part_offset, offset_loop}
use bpak.Merkle.{init_layout, next_level}
use bpak.Crc.{crc32, part_id_to_hash_tree_id}
use bpak.Patch.{is_count}
use bpak.Payload.{Hash, compute_payload_hash, hash_parts, chunk_loop, hash_chunk}
use bpak.Merkle.Walk.{
  merkle_init, merkle_finish, write_chunk, write_chunk_loop, write_at, block_hash, start_hash,
  end_round, end_block,
}
use bpak.Verify.{
  id_merkle_root_hash, id_merkle_salt, verify_payload, verify_parts, verify_part,
  verify_merkle_tree, root_hash, feed_data, payload_hash_of, meta_bytes, payload_offset, read_chunk,
  is_same, verify_loop, merkle_verify_wr, verify_chunk,
}
use bpak.Verify.Compared.{IsFile, file_io}
use bpak.Verify.Stored.{verify_merkle_tree-stored}
use bpak.Verify.Accepted.{IsProtected, verify_payload-IsProtected}
use bpak.Verify.HeaderHash.{IsPacked, unsigned, compute_header_hash, compute_header_hash_lem}
use bpak.Examples.{sample, sample-IsSized}
use bpak.Examples.Payloads.{keep, keep-IsStreaming}

pub sample-IsPacked : IsPacked sample
unfolding init_header
sample-IsPacked = record { sized = sample-IsSized; hash_room = refl; pad_room = refl }

compute_header_hash_lem_example : compute_header_hash keep sample 4096 ≡ (
    keep.init sample.hash_kind >>= λ s.
    elim (keep.update s (header_bytes (unsigned sample)) >>= λ t. keep.final t 4096) [
      | err e ↦ ok none
      | ok digest ↦ ok (some digest)
    ])
compute_header_hash_lem_example =
    compute_header_hash_lem keep keep-IsStreaming sample 4096 sample-IsPacked

-- A hash function that counts bytes, from 7.
abbrev count : Hash ℕ
count = record {
  init = λ kind. ok 7;
  update = λ s xs. ok ((s + length xs) % 256);
  final = λ s room. ok (take room (replicate 32 s));
}

-- The part and behind it the first bytes of its tree.
abbrev file : List ℕ
file = replicate 4096 0 ++ replicate 32 39

-- A stream over it, with the position as its state.
abbrev opened : Stdio ℕ
opened = record {
  fseek = λ offset at. (true, offset);
  fread = λ n at. (take n (drop at file), at + n);
  fwrite = λ bytes at. (0, at);
}

other_count : (a b : ℕ) → a < b → (a == b) ≡ false
other_count a b h = ground arith

file-IsFile : IsFile (read_payload opened) file
unfolding read_payload
file-IsFile offset n at = (
  λ inside.
      let whole : (length (take n (drop offset file)) == n) ≡ true =
        (==_iff _ n).1 (length-take {0} n (drop offset file) ∙ omega (arith, inside)) in
      rw (whole, read_payload) refl,
  λ short.
      let cut : (length (take n (drop offset file)) == n) ≡ false =
        other_count (length (take n (drop offset file))) n
          (omega (arith, short, length-take {0} n (drop offset file))) in
      rw (cut, read_payload) (λ e. absurd (cc e)),
)

abbrev data_part : PartHeader
data_part = record no_part { id = 1; size = 4096; offset = 4096 }

-- Its tree, which is excluded from the hash.
abbrev tree_part : PartHeader
tree_part = record no_part { id = part_id_to_hash_tree_id 1; size = 4096; offset = 8192; flags = 1 }

abbrev root_entry : MetaHeader
root_entry = record no_meta { id = id_merkle_root_hash; size = 32; part_id_ref = 1 }

abbrev salt : MetaHeader
salt = record no_meta { id = id_merkle_salt; size = 32; offset = 32; part_id_ref = 1 }

abbrev signed : Header
signed = record init_header {
  meta = root_entry ∷ salt ∷ [];
  parts = data_part ∷ tree_part ∷ [];
  metadata = replicate 32 39 ++ replicate 32 1;
  payload_hash = replicate 64 7;
}

signed_accepted : verify_payload count (read_payload opened) 0 signed 0 0 ≡ some (done tt, 4128)
unfolding verify_payload payload_hash_of compute_payload_hash hash_parts chunk_loop hash_chunk
    verify_parts verify_part meta_bytes payload_offset verify_merkle_tree root_hash feed_data
    read_chunk is_same verify_loop merkle_verify_wr verify_chunk behind_metadata get_meta
    get_meta_int get_part get_loop part_offset offset_loop part_size part_id_to_hash_tree_id crc32
    merkle_init merkle_finish write_chunk write_chunk_loop write_at block_hash start_hash end_round
    end_block init_layout next_level init_header lift expect is_count read_payload
signed_accepted = refl

verify_payload-IsProtected_example :
    (digest : List ℕ) × (w1 : ℕ) × (payload_hash_of count (read_payload opened) 0 signed 0 0
      ≡ some (done digest, w1))
    × (digest ≡ take (length digest) signed.payload_hash)
    × All (IsProtected count (read_payload opened) file 0 signed 0) signed.parts
verify_payload-IsProtected_example =
    verify_payload-IsProtected count (read_payload opened) file 0 signed 0 file-IsFile 0 4128
      signed_accepted

tree_accepted :
    verify_merkle_tree count
      (read_payload opened)
      0
      0
      4096
      4096
      (replicate 32 39)
      (replicate 32 1)
      0
    ≡ some (done tt, 4128)
unfolding verify_merkle_tree root_hash feed_data read_chunk is_same verify_loop merkle_verify_wr
    verify_chunk merkle_init merkle_finish write_chunk write_chunk_loop write_at block_hash
    start_hash end_round end_block init_layout next_level lift expect read_payload
tree_accepted = refl

verify_merkle_tree-stored_example :
    root_hash count file_io file_io.rd 0 0 4096 4096 (replicate 32 1) false file
    ≡ some (done (replicate 32 39), file)
verify_merkle_tree-stored_example =
    verify_merkle_tree-stored count (read_payload opened) file file-IsFile 0 0 4096 4096
      (replicate 32 39) (replicate 32 1) 0 4128 tree_accepted
