-- ===== src/Package/Open/Parsed.antt =====
-- The header that `bpak_pkg_open` reads is the header whose bytes were written.
use bpak.Prelude.{
  ℕ, ◌+◌, ◌≡◌, ◌<◌, ◌^◌, ◌*◌, refl, sym, ap, ap₂, ◌∙◌, List, [], ◌∷◌, ◌++◌, All, length, take, drop,
  take-append, drop-append, append_assoc, drop-add, arith,
}
use bpak.Header.{
  MetaHeader, PartHeader, Header, max_meta, max_parts, metadata_bytes, signature_max_bytes,
}
use bpak.Header.Bytes.{
  le_bytes, meta_header_bytes, part_header_bytes, array_bytes, hash_and_keys, signature_bytes,
  signed_bytes, header_bytes,
}
use bpak.Verify.HeaderHash.{
  IsPacked, length-array_bytes, length-meta_header_bytes, length-part_header_bytes,
}
use bpak.Transport.{le_value}
use bpak.Package.Open.{field, meta_header_of, part_header_of, array_of, header_of}

-- The numbers fit the fields of the structs.
abbrev pub Fits : MetaHeader → Type 0
Fits m =
    (m.id < 2 ^ 32)
    × (m.size < 2 ^ 16)
    × (m.offset < 2 ^ 16)
    × (m.part_id_ref < 2 ^ 32)
    × (m.pad < 2 ^ 32)

abbrev pub PartFits : PartHeader → Type 0
PartFits p =
    (p.id < 2 ^ 32)
    × (p.size < 2 ^ 64)
    × (p.offset < 2 ^ 64)
    × (p.transport_size < 2 ^ 64)
    × (p.pad_bytes < 2 ^ 16)
    × (p.flags < 2 ^ 8)
    × (p.pad < 2 ^ 8)

byte_back : (x : ℕ) → x < 2 ^ 8 → le_value (le_bytes 1 x) ≡ x
unfolding le_value le_bytes
byte_back x small = omega arith

short_back : (x : ℕ) → x < 2 ^ 16 → le_value (le_bytes 2 x) ≡ x
unfolding le_value le_bytes
short_back x small = omega arith

word_back : (x : ℕ) → x < 2 ^ 32 → le_value (le_bytes 4 x) ≡ x
unfolding le_value le_bytes
word_back x small = omega arith

long_back : (x : ℕ) → x < 2 ^ 64 → le_value (le_bytes 8 x) ≡ x
unfolding le_value le_bytes
long_back x small = omega arith

meta_header_of-meta_header_bytes :
    (m : MetaHeader) → Fits m → meta_header_of (meta_header_bytes m) ≡ m
unfolding meta_header_of meta_header_bytes field le_bytes
meta_header_of-meta_header_bytes m (a, b, c, d, e) = rw (word_back m.id a) (
    rw (short_back m.size b)
      (rw (short_back m.offset c) (rw (word_back m.part_id_ref d) (rw (word_back m.pad e) refl))))

part_header_of-part_header_bytes :
    (p : PartHeader) → PartFits p → part_header_of (part_header_bytes p) ≡ p
unfolding part_header_of part_header_bytes field le_bytes
part_header_of-part_header_bytes p (a, b, c, d, e, f, g) = rw (word_back p.id a) (
    rw (long_back p.size b) (
      rw (long_back p.offset c) (
        rw (long_back p.transport_size d) (
          rw (short_back p.pad_bytes e) (rw (byte_back p.flags f) (rw (byte_back p.pad g) refl))))))

take_front : (n : ℕ) (xs ys : List ℕ) → length xs ≡ n → take n (xs ++ ys) ≡ xs
take_front n xs ys e = ap (λ k. take k (xs ++ ys)) (sym e) ∙ take-append xs ys

drop_front : (n : ℕ) (xs ys : List ℕ) → length xs ≡ n → drop n (xs ++ ys) ≡ ys
drop_front n xs ys e = ap (λ k. drop k (xs ++ ys)) (sym e) ∙ drop-append xs ys

module _ {A : Type 0} (P : A → Type 0) (f : List ℕ → A) (g : A → List ℕ) (size : ℕ)
    (long : (a : A) → length (g a) ≡ size) (back : (a : A) → P a → f (g a) ≡ a) where
  array_of-array_bytes :
      (xs : List A) (rest : List ℕ)
      → All P xs
      → array_of f size (length xs) (array_bytes g xs ++ rest) ≡ xs
  unfolding array_of array_bytes
  array_of-array_bytes [] rest all = refl
  array_of-array_bytes (x ∷ xs) rest (here, there) =
      let tail = array_bytes g xs ++ rest in
      let shape : (g x ++ array_bytes g xs) ++ rest ≡ g x ++ tail =
        append_assoc (g x) (array_bytes g xs) rest in
      ap₂ (λ y ys. y ∷ ys)
        (ap f (ap (take size) shape ∙ take_front size (g x) tail (long x)) ∙ back x here)
        (ap (array_of f size (length xs))
            (ap (drop size) shape ∙ drop_front size (g x) tail (long x))
          ∙ array_of-array_bytes xs rest there)

-- The numbers of a header fit their fields.
pub record IsInRange (h : Header) : Type 0 where
  pub magic : h.magic < 2 ^ 32
  pub pad0 : h.pad0 < 2 ^ 32
  pub meta : All Fits h.meta
  pub parts : All PartFits h.parts
  pub hash_kind : h.hash_kind < 2 ^ 8
  pub signature_kind : h.signature_kind < 2 ^ 8
  pub alignment : h.alignment < 2 ^ 16
  pub key_id : h.key_id < 2 ^ 32
  pub keystore_id : h.keystore_id < 2 ^ 32
  pub signature_sz : h.signature_sz < 2 ^ 16

field_from : (k j n : ℕ) (bytes t : List ℕ) → drop k bytes ≡ t → field (k + j) n bytes ≡ field j n t
unfolding field
field_from k j n bytes t e =
    ap (λ xs. le_value (take n xs)) (sym (drop-add k j bytes) ∙ ap (drop j) e)

drop_on :
    (k n : ℕ) (bytes xs ys : List ℕ)
    → drop k bytes ≡ xs ++ ys
    → length xs ≡ n
    → drop (k + n) bytes ≡ ys
drop_on k n bytes xs ys e long = sym (drop-add k n bytes) ∙ ap (drop n) e ∙ drop_front n xs ys long

module _ (h : Header) (packed : IsPacked h) (range : IsInRange h) where
  abbrev signature_end : List ℕ
  signature_end = signature_bytes h

  abbrev ids_end : List ℕ
  ids_end = (le_bytes 4 h.key_id ++ (le_bytes 4 h.keystore_id ++ h.pad1)) ++ signature_end

  abbrev keys_end : List ℕ
  keys_end = hash_and_keys h ++ signature_end

  abbrev parts_end : List ℕ
  parts_end = array_bytes part_header_bytes h.parts ++ (h.metadata ++ keys_end)

  at_meta : drop 8 (header_bytes h) ≡ array_bytes meta_header_bytes h.meta ++ parts_end
  unfolding header_bytes signed_bytes le_bytes
  at_meta =
      let m = array_bytes meta_header_bytes h.meta in
      let p = array_bytes part_header_bytes h.parts in
      append_assoc m (p ++ (h.metadata ++ hash_and_keys h)) signature_end
      ∙ ap (λ t. m ++ t)
          (append_assoc p (h.metadata ++ hash_and_keys h) signature_end
            ∙ ap (λ t. p ++ t) (append_assoc h.metadata (hash_and_keys h) signature_end))

  at_parts : drop 520 (header_bytes h) ≡ parts_end
  at_parts =
      drop_on 8 512 (header_bytes h) (array_bytes meta_header_bytes h.meta) parts_end at_meta (
        length-array_bytes meta_header_bytes 16 h.meta length-meta_header_bytes
        ∙ ap (λ k. 16 * k) packed.sized.meta_slots)

  at_metadata : drop 1544 (header_bytes h) ≡ h.metadata ++ keys_end
  at_metadata =
      drop_on 520 1024 (header_bytes h) (array_bytes part_header_bytes h.parts)
        (h.metadata ++ keys_end) at_parts
        (length-array_bytes part_header_bytes 32 h.parts length-part_header_bytes
          ∙ ap (λ k. 32 * k) packed.sized.part_slots)

  at_keys : drop 3464 (header_bytes h) ≡ keys_end
  at_keys =
      drop_on 1544 1920 (header_bytes h) h.metadata keys_end at_metadata packed.sized.data_bytes

  at_hash : drop 3468 (header_bytes h) ≡ h.payload_hash ++ ids_end
  unfolding hash_and_keys le_bytes
  at_hash =
      sym (drop-add 3464 4 (header_bytes h))
      ∙ ap (drop 4) at_keys
      ∙ append_assoc h.payload_hash (le_bytes 4 h.key_id ++ (le_bytes 4 h.keystore_id ++ h.pad1))
          signature_end

  at_ids : drop 3532 (header_bytes h) ≡ ids_end
  at_ids = drop_on 3468 64 (header_bytes h) h.payload_hash ids_end at_hash packed.hash_room

  at_pad : drop 3540 (header_bytes h) ≡ h.pad1 ++ signature_end
  unfolding le_bytes
  at_pad = sym (drop-add 3532 8 (header_bytes h)) ∙ ap (drop 8) at_ids

  at_signature : drop 3582 (header_bytes h) ≡ h.signature ++ le_bytes 2 h.signature_sz
  unfolding signature_bytes
  at_signature = drop_on 3540 42 (header_bytes h) h.pad1 signature_end at_pad packed.pad_room

  at_end : drop 4094 (header_bytes h) ≡ le_bytes 2 h.signature_sz
  at_end =
      drop_on 3582 512 (header_bytes h) h.signature (le_bytes 2 h.signature_sz) at_signature
        packed.sized.signature_room

  number :
      (k j n x : ℕ) (t : List ℕ)
      → drop k (header_bytes h) ≡ t
      → field j n t ≡ x
      → field (k + j) n (header_bytes h) ≡ x
  number k j n x t e same = field_from k j n (header_bytes h) t e ∙ same

  -- A header whose arrays have their C lengths and whose numbers fit their fields is read back from its bytes.
  pub header_of-header_bytes : header_of (header_bytes h) ≡ h
  unfolding header_of field header_bytes signed_bytes hash_and_keys le_bytes
  header_of-header_bytes =
      let magic : field 0 4 (header_bytes h) ≡ h.magic = word_back h.magic range.magic in
      let pad0 : field 4 4 (header_bytes h) ≡ h.pad0 = word_back h.pad0 range.pad0 in
      let meta : array_of meta_header_of 16 max_meta (drop 8 (header_bytes h)) ≡ h.meta =
        ap₂ (λ n t. array_of meta_header_of 16 n t) (sym packed.sized.meta_slots) at_meta
        ∙ array_of-array_bytes Fits meta_header_of meta_header_bytes 16 length-meta_header_bytes
            meta_header_of-meta_header_bytes h.meta parts_end range.meta in
      let parts : array_of part_header_of 32 max_parts (drop 520 (header_bytes h)) ≡ h.parts =
        ap₂ (λ n t. array_of part_header_of 32 n t) (sym packed.sized.part_slots) at_parts
        ∙ array_of-array_bytes PartFits part_header_of part_header_bytes 32 length-part_header_bytes
            part_header_of-part_header_bytes h.parts (h.metadata ++ keys_end) range.parts in
      let metadata : take metadata_bytes (drop 1544 (header_bytes h)) ≡ h.metadata =
        ap (take metadata_bytes) at_metadata
        ∙ take_front metadata_bytes h.metadata keys_end packed.sized.data_bytes in
      let hash_kind : field 3464 1 (header_bytes h) ≡ h.hash_kind =
        number 3464 0 1 h.hash_kind keys_end at_keys (byte_back h.hash_kind range.hash_kind) in
      let signature_kind : field 3465 1 (header_bytes h) ≡ h.signature_kind =
        number 3464 1 1 h.signature_kind keys_end at_keys
          (byte_back h.signature_kind range.signature_kind) in
      let alignment : field 3466 2 (header_bytes h) ≡ h.alignment =
        number 3464 2 2 h.alignment keys_end at_keys (short_back h.alignment range.alignment) in
      let payload_hash : take 64 (drop 3468 (header_bytes h)) ≡ h.payload_hash =
        ap (take 64) at_hash ∙ take_front 64 h.payload_hash ids_end packed.hash_room in
      let key_id : field 3532 4 (header_bytes h) ≡ h.key_id =
        number 3532 0 4 h.key_id ids_end at_ids (word_back h.key_id range.key_id) in
      let keystore_id : field 3536 4 (header_bytes h) ≡ h.keystore_id =
        number 3532 4 4 h.keystore_id ids_end at_ids (word_back h.keystore_id range.keystore_id) in
      let pad1 : take 42 (drop 3540 (header_bytes h)) ≡ h.pad1 =
        ap (take 42) at_pad ∙ take_front 42 h.pad1 signature_end packed.pad_room in
      let signature : take signature_max_bytes (drop 3582 (header_bytes h)) ≡ h.signature =
        ap (take signature_max_bytes) at_signature
        ∙ take_front signature_max_bytes h.signature (le_bytes 2 h.signature_sz)
            packed.sized.signature_room in
      let signature_sz : field 4094 2 (header_bytes h) ≡ h.signature_sz =
        number 4094 0 2 h.signature_sz (le_bytes 2 h.signature_sz) at_end
          (short_back h.signature_sz range.signature_sz) in
      λ i. record {
        magic = magic i;
        pad0 = pad0 i;
        meta = meta i;
        parts = parts i;
        metadata = metadata i;
        hash_kind = hash_kind i;
        signature_kind = signature_kind i;
        alignment = alignment i;
        payload_hash = payload_hash i;
        key_id = key_id i;
        keystore_id = keystore_id i;
        pad1 = pad1 i;
        signature = signature i;
        signature_sz = signature_sz i;
      }
