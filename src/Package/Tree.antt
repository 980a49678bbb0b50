-- ===== src/Package/Tree.antt =====
-- lib/pkg_create.c, `bpak_pkg_add_file_with_merkle_tree`: a file, and its hash tree in a part behind it. The salt
-- that `random` gives is a parameter. `none` is a loop that ran out of fuel, or a tree whose initialisation
-- failed: its return code is not looked at, and what the context then holds is left out.
use bpak.Prelude.{
  ℕ, zero, suc, true, false, Option, none, some, List, [], ◌∷◌, ◌==◌, if◌then◌else◌, length, take,
  drop, get_or, replicate, splice,
}
use bpak.Int.{pos, negsuc}
use bpak.Run.{Rc, Run, done, fail, raise, return_code, ◌>>=◌, ◌>>◌}
use bpak.Status.{Result, ok, err, file_not_found}
use bpak.Header.{Header, no_meta, no_part, header_size}
use bpak.Meta.{add_meta}
use bpak.Part.{add_part}
use bpak.Crc.{id_of, part_name_to_hash_tree_id}
use bpak.Payload.{Hash, chunk_buffer_length}
use bpak.Merkle.{compute_size}
use bpak.Merkle.Walk.{Tree, TreeIo, merkle_init, write_chunk, merkle_finish}
use bpak.Verify.{id_merkle_salt, id_merkle_root_hash}
use bpak.Package.{Stdio}
use bpak.Package.Extract.{Host}
use bpak.Package.Create.{end_loop, with_part, on_streams, write_bytes, update_header, add_file}

-- `merkle_wr` and `merkle_rd` on the buffer. Neither leaves it, as long as the tree fits.
abbrev pub buffer_io : TreeIo (List ℕ)
buffer_io = record {
  wr = λ offset bytes buffer. (pos (length bytes), splice offset bytes buffer);
  rd = λ offset n buffer. (record { count = pos n; bytes = take n (drop offset buffer) }, buffer);
}

-- The mode "rb".
abbrev pub input_mode : List ℕ
input_mode = 114 ∷ 98 ∷ []

-- Metadata of the hash tree: 32 bytes behind `bpak_add_meta`.
unfoldable pub add_meta_bytes : Header → ℕ → ℕ → List ℕ → Result (Unit {0}) × Header
add_meta_bytes h id part_ref_id bytes =
    let (r, h1) = add_meta h id part_ref_id 32 in
    elim r as (λ _. Result (Unit {0}) × Header) [
      | err e ↦ (err e, h1)
      | ok i ↦ (
        ok tt,
        record h1 { metadata = splice (get_or h1.meta i no_meta).offset bytes h1.metadata },
      )
    ]

-- The same, as a step on the header.
unfoldable pub store_meta : {W : Type 0} → ℕ → ℕ → List ℕ → Run (Header × W) (Unit {0})
unfolding add_meta_bytes raise
store_meta id part_ref_id bytes (h, w) =
    let (r, h1) = add_meta_bytes h id part_ref_id bytes in
    elim r [ err e ↦ raise e (h1, w) | ok _ ↦ some (done tt, (h1, w)) ]

module _ {W S : Type 0} (fp : Stdio W) (host : Host W) (hash : Hash S) (zeroed : S) where
  -- The loop over the input, until `fread` gives nothing; the fuel is the caller's.
  unfoldable pub tree_loop : Stdio W → ℕ → Tree S → Run (W × List ℕ) (Tree S)
  tree_loop in_fp zero c s = none
  tree_loop in_fp (suc fuel) c (w, buffer) =
      let (chunk, w1) = in_fp.fread chunk_buffer_length w in
      elim (length chunk == 0) as (λ _. Option (Rc (Tree S) × (W × List ℕ))) [
        | true ↦ some (done c, (w1, buffer))
        | false ↦
            elim (write_chunk hash buffer_io c chunk buffer)
              as (λ _. Option (Rc (Tree S) × (W × List ℕ))) [
                | none ↦ none
                | some (fail rc, buffer') ↦ some (fail rc, (w1, buffer'))
                | some (done c', buffer') ↦ tree_loop in_fp fuel c' (w1, buffer')
              ]
      ]

  -- `fopen`, the loop and `bpak_merkle_finish`: the tree and the root hash.
  unfoldable pub read_tree : ℕ → List ℕ → Tree S → List ℕ → Run W (List ℕ × List ℕ)
  unfolding tree_loop raise
  read_tree fuel filename c buffer w =
      let (in_fp, w1) = host.fopen filename input_mode w in
      elim in_fp as (λ _. Option (Rc (List ℕ × List ℕ) × W)) [
        | none ↦ raise file_not_found w1
        | some stream ↦
            elim (tree_loop stream fuel c (w1, buffer))
              as (λ _. Option (Rc (List ℕ × List ℕ) × W)) [
                | none ↦ none
                | some (fail rc, (w2, buffer')) ↦ some (fail rc, w2)
                | some (done c', (w2, buffer')) ↦
                    elim (merkle_finish hash buffer_io c' buffer')
                      as (λ _. Option (Rc (List ℕ × List ℕ) × W)) [
                        | none ↦ none
                        | some (fail rc, b) ↦ some (fail rc, w2)
                        | some (done (c'', root), b) ↦ some (done (b, root), w2)
                      ]
              ]
      ]

  unfoldable pub build_tree : ℕ → List ℕ → ℕ → ℕ → List ℕ → Run W (List ℕ × List ℕ)
  unfolding read_tree
  build_tree fuel filename size merkle_sz salt w =
      elim (merkle_init hash buffer_io zeroed size salt 0 true (replicate merkle_sz 0)) [
        | none ↦ none
        | some (fail rc, b) ↦ none
        | some (done c, buffer) ↦ read_tree fuel filename c buffer w
      ]

  -- The part of the tree and its bytes. Where the seek fails its -1 is returned.
  unfoldable pub store_tree : ℕ → List ℕ → ℕ → ℕ → List ℕ → Run (Header × W) (Unit {0})
  unfolding with_part write_bytes update_header on_streams raise
  store_tree new_offset part_name flags merkle_sz tree (h, w) =
      let (r, h1) = add_part h (part_name_to_hash_tree_id part_name) in
      elim r as (λ _. Option (Rc (Unit {0}) × (Header × W))) [
        | err e ↦ raise e (h1, w)
        | ok i ↦
            let p = record (get_or h1.parts i no_part) {
              offset = new_offset;
              flags = flags;
              size = merkle_sz;
              pad_bytes = 0;
            } in
            let (found, w1) = fp.fseek new_offset w in
            let next : Run (Header × W) (Unit {0}) = (do
              on_streams (write_bytes fp tree)
              update_header fp host hash) in
            (if found then next else return_code (negsuc 0)) (with_part i p h1, w1)
      ]

  -- Behind the adding of the file.
  unfoldable pub add_tree : ℕ → List ℕ → ℕ → List ℕ → ℕ → List ℕ → Run (Header × W) (Unit {0})
  unfolding build_tree store_meta store_tree end_loop on_streams
  add_tree fuel filename size part_name flags salt (h, w) =
      elim (compute_size size) as (λ _. Option (Rc (Unit {0}) × (Header × W))) [
        | none ↦ none
        | some (err e) ↦ raise e (h, w)
        | some (ok merkle_sz) ↦
            (on_streams (build_tree fuel filename size merkle_sz salt) >>= λ (tree, root) (h, w).
            (do
              store_meta id_merkle_salt (id_of part_name) salt
              store_meta id_merkle_root_hash (id_of part_name) root
              store_tree (end_loop header_size h.parts) part_name flags merkle_sz tree)
              (h, w))
              (h, w)
      ]

  -- `bpak_pkg_add_file_with_merkle_tree`
  unfoldable pub add_file_with_merkle_tree :
      ℕ → List ℕ → List ℕ → ℕ → List ℕ → Run (Header × W) (Unit {0})
  unfolding add_file add_tree raise
  add_file_with_merkle_tree fuel filename part_name flags salt (h, w) =
      elim (host.stat filename w) as (λ _. Option (Rc (Unit {0}) × (Header × W))) [
        | none ↦ raise file_not_found (h, w)
        | some size ↦
            (add_file fp host hash fuel filename part_name flags >>= λ _.
            add_tree fuel filename size part_name flags salt)
              (h, w)
      ]
