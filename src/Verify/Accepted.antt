-- ===== src/Verify/Accepted.antt =====
-- A package whose payload `bpak_verify_payload` accepts.
use bpak.Prelude.{
  ℕ, ◌≡◌, ◌≢◌, refl, sym, ap, subst, ◌∙◌, Bool, true, false, ◌==◌, some, List, [], ◌∷◌, All, length,
  take, get_or, if◌then◌else◌, arith,
}
use bpak.Run.{Run, done, pure, raise, ◌>>=◌}
use bpak.Status.{Result, ok, err, bad_payload_hash, missing_meta_data}
use bpak.Header.{PartHeader, Header, part_size, no_part}
use bpak.Meta.{get_meta}
use bpak.Part.{get_part}
use bpak.Crc.{part_id_to_hash_tree_id}
use bpak.Patch.{ReadResult}
use bpak.Payload.{Hash}
use bpak.Merkle.Walk.{hash_bytes}
use bpak.Merkle.Walk.Agree.{bind_done}
use bpak.Verify.{
  is_same, id_merkle_root_hash, id_merkle_salt, root_hash, verify_merkle_tree, meta_bytes,
  payload_offset, verify_part, verify_parts, payload_hash_of, verify_payload,
}
use bpak.Verify.Compared.{IsFile, file_io, is_same-eq}
use bpak.Verify.Stored.{accepted, verify_merkle_tree-stored}

module _ {S W : Type 0} (hash : Hash S) (read : ℕ → ℕ → W → ReadResult × W) (file : List ℕ)
    (zeroed : S) (h : Header) (data_offset : ℕ) where
  -- The part has a salt and a hash tree, and computing the hashes of the part's data again, without filling the
  -- tree with zeroes first, gives the hashes that stand in the file and the root hash of slot `i`.
  abbrev pub HasTree : PartHeader → ℕ → Type 0
  HasTree p i =
      (j : ℕ) × (t : ℕ) × (get_meta h id_merkle_salt p.id ≡ ok j)
      × (get_part h (part_id_to_hash_tree_id p.id) ≡ ok t)
      × (root_hash hash file_io file_io.rd zeroed (payload_offset h p data_offset) (part_size p)
            (payload_offset h (get_or h.parts t no_part) data_offset) (meta_bytes h j hash_bytes)
            false file
          ≡ some (done (meta_bytes h i hash_bytes), file))

  -- A part in use with a root hash.
  abbrev pub IsProtected : PartHeader → Type 0
  IsProtected p = p.id ≢ 0 → (i : ℕ) → get_meta h id_merkle_root_hash p.id ≡ ok i → HasTree p i

  module _ (reads : IsFile read file) where
    verify_part-HasTree :
        (p : PartHeader) (i : ℕ) (w w' : W)
        → verify_part hash read zeroed h data_offset p i w ≡ some (done tt, w')
        → HasTree p i
    unfolding verify_part raise
    verify_part-HasTree p i w w' run = by_salt (get_meta h id_merkle_salt p.id) refl run
      where
        with_salt : ℕ → Result ℕ → Run W (Unit {0})
        with_salt j r = elim r as (λ _. Run W (Unit {0})) [
          | err e ↦ raise e
          | ok t ↦
              verify_merkle_tree hash read zeroed (payload_offset h p data_offset) (part_size p)
                (payload_offset h (get_or h.parts t no_part) data_offset)
                (meta_bytes h i hash_bytes) (meta_bytes h j hash_bytes)
        ]

        by_tree :
            (j : ℕ) (r : Result ℕ)
            → get_meta h id_merkle_salt p.id ≡ ok j
            → get_part h (part_id_to_hash_tree_id p.id) ≡ r
            → with_salt j r w ≡ some (done tt, w')
            → HasTree p i
        by_tree j (err e) salt part run = absurd (cc run)
        by_tree j (ok t) salt part run = (
          j,
          t,
          salt,
          part,
          verify_merkle_tree-stored hash read file reads zeroed (payload_offset h p data_offset)
              (part_size p) (payload_offset h (get_or h.parts t no_part) data_offset)
              (meta_bytes h i hash_bytes) (meta_bytes h j hash_bytes) w w' run,
        )

        by_salt :
            (r : Result ℕ)
            → get_meta h id_merkle_salt p.id ≡ r
            → (elim r as (λ _. Run W (Unit {0})) [
              | err e ↦ raise missing_meta_data
              | ok j ↦ with_salt j (get_part h (part_id_to_hash_tree_id p.id))
            ])
                w
              ≡ some (done tt, w')
            → HasTree p i
        by_salt (err e) salt run = absurd (cc run)
        by_salt (ok j) salt run =
            by_tree j (get_part h (part_id_to_hash_tree_id p.id)) salt refl run

    -- The rest of the parts.
    abbrev Go : List PartHeader → Run W (Unit {0})
    Go ps = verify_parts hash read zeroed h data_offset ps

    step-IsProtected :
        (p : PartHeader) (ps : List PartHeader) (r : Result ℕ) (w w' : W)
        → ((w1 : W) → Go ps w1 ≡ some (done tt, w') → All IsProtected ps)
        → get_meta h id_merkle_root_hash p.id ≡ r
        → (elim r as (λ _. Run W (Unit {0})) [
          | err e ↦ Go ps
          | ok i ↦ verify_part hash read zeroed h data_offset p i >>= λ _. Go ps
        ])
            w
          ≡ some (done tt, w')
        → IsProtected p × All IsProtected ps
    step-IsProtected p ps (err e) w w' rest root run =
        (λ used i found. absurd (cc (sym root ∙ found)), rest w run)
    step-IsProtected p ps (ok i) w w' rest root run =
        let (u, w1, first, next) =
          bind_done (verify_part hash read zeroed h data_offset p i) (λ _. Go ps) w w' tt run in
        (
          λ used k found.
              subst (HasTree p) (ap (λ r. elim r [ ok x ↦ x | err e ↦ 0 ]) (sym root ∙ found))
                (verify_part-HasTree p i w w1 first),
          rest w1 next,
        )

    used-IsProtected :
        (p : PartHeader) (ps : List PartHeader) (b : Bool) (w w' : W)
        → ((w1 : W) → Go ps w1 ≡ some (done tt, w') → All IsProtected ps)
        → (p.id == 0) ≡ b
        → (elim b as (λ _. Run W (Unit {0})) [
          | true ↦ Go ps
          | false ↦ elim (get_meta h id_merkle_root_hash p.id) as (λ _. Run W (Unit {0})) [
            | err e ↦ Go ps
            | ok i ↦ verify_part hash read zeroed h data_offset p i >>= λ _. Go ps
          ]
        ])
            w
          ≡ some (done tt, w')
        → IsProtected p × All IsProtected ps
    used-IsProtected p ps true w w' rest unused run =
        (λ used. absurd (used (ground arith)), rest w run)
    used-IsProtected p ps false w w' rest used run =
        step-IsProtected p ps (get_meta h id_merkle_root_hash p.id) w w' rest refl run

    verify_parts-IsProtected :
        (ps : List PartHeader) (w w' : W) → Go ps w ≡ some (done tt, w') → All IsProtected ps
    unfolding verify_parts
    verify_parts-IsProtected [] w w' run = tt
    verify_parts-IsProtected (p ∷ ps) w w' run =
        used-IsProtected p ps (p.id == 0) w w' (λ w1. verify_parts-IsProtected ps w1 w') refl run

    -- If the callback reads a file and `bpak_verify_payload` accepts it, the header holds the payload hash that
    -- `bpak_verify_compute_payload_hash` computes, and every part in use with a root hash has a salt and a hash
    -- tree: computing the hashes again from the part's data and the salt, and writing them into the file
    -- without filling the tree with zeroes first, comes to that root hash and changes no byte. The bytes of a
    -- level behind its last hash are hashed as they stand.
    pub verify_payload-IsProtected :
        (w w' : W)
        → verify_payload hash read zeroed h data_offset w ≡ some (done tt, w')
        → (digest : List ℕ) × (w1 : W) × (payload_hash_of hash read zeroed h data_offset w
            ≡ some (done digest, w1))
          × (digest ≡ take (length digest) h.payload_hash)
          × All IsProtected h.parts
    unfolding verify_payload
    verify_payload-IsProtected w w' run =
        let (digest, w1, hashed, next) =
          bind_done (payload_hash_of hash read zeroed h data_offset)
            (λ digest.
              (if is_same digest (take (length digest) h.payload_hash)
                then pure tt
                else raise bad_payload_hash)
              >>= λ _. Go h.parts)
            w w' tt run in
        let (u, w2, same, trees) =
          bind_done
            (if is_same digest (take (length digest) h.payload_hash)
              then pure tt
              else raise bad_payload_hash)
            (λ _. Go h.parts) w1 w' tt next in
        (
          digest,
          w1,
          hashed,
          is_same-eq digest (take (length digest) h.payload_hash) (
              accepted bad_payload_hash (is_same digest (take (length digest) h.payload_hash)) w1 w2
                same),
          verify_parts-IsProtected h.parts w2 w' trees,
        )
