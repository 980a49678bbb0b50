-- ===== src/Header/Bytes.antt =====
-- The bytes of a `struct bpak_header` in memory (include/bpak/bpak.h): it is packed, and its numbers are
-- stored with the low byte first, as the supported machines do.
use bpak.Prelude.{ℕ, zero, suc, ◌/◌, ◌%◌, List, [], ◌∷◌, ◌++◌}
use bpak.Header.{MetaHeader, PartHeader, Header}

-- A number of `n` bytes.
unfoldable pub le_bytes : ℕ → ℕ → List ℕ
le_bytes zero x = []
le_bytes (suc n) x = (x % 256) ∷ le_bytes n (x / 256)

unfoldable pub meta_header_bytes : MetaHeader → List ℕ
unfolding le_bytes
meta_header_bytes m =
    le_bytes 4 m.id
    ++ (le_bytes 2 m.size
        ++ (le_bytes 2 m.offset ++ (le_bytes 4 m.part_id_ref ++ le_bytes 4 m.pad)))

unfoldable pub part_header_bytes : PartHeader → List ℕ
unfolding le_bytes
part_header_bytes p =
    le_bytes 4 p.id
    ++ (le_bytes 8 p.size
        ++ (le_bytes 8 p.offset
            ++ (le_bytes 8 p.transport_size
                ++ (le_bytes 2 p.pad_bytes ++ (le_bytes 1 p.flags ++ le_bytes 1 p.pad)))))

-- The elements of an array, one behind the other.
unfoldable pub array_bytes : {A : Type 0} → (A → List ℕ) → List A → List ℕ
array_bytes f [] = []
array_bytes f (x ∷ xs) = f x ++ array_bytes f xs

-- The fields behind `metadata`, and among them those in front of the signature.
unfoldable pub hash_and_keys : Header → List ℕ
unfolding le_bytes
hash_and_keys h =
    le_bytes 1 h.hash_kind
    ++ (le_bytes 1 h.signature_kind
        ++ (le_bytes 2 h.alignment
            ++ (h.payload_hash ++ (le_bytes 4 h.key_id ++ (le_bytes 4 h.keystore_id ++ h.pad1)))))

unfoldable pub signature_bytes : Header → List ℕ
unfolding le_bytes
signature_bytes h = h.signature ++ le_bytes 2 h.signature_sz

unfoldable pub behind_metadata : Header → List ℕ
unfolding hash_and_keys signature_bytes
behind_metadata h = hash_and_keys h ++ signature_bytes h

-- Everything in front of the signature.
unfoldable pub signed_bytes : Header → List ℕ
unfolding le_bytes meta_header_bytes part_header_bytes array_bytes hash_and_keys
signed_bytes h =
    le_bytes 4 h.magic
    ++ (le_bytes 4 h.pad0
        ++ (array_bytes meta_header_bytes h.meta
            ++ (array_bytes part_header_bytes h.parts ++ (h.metadata ++ hash_and_keys h))))

unfoldable pub header_bytes : Header → List ℕ
unfolding signed_bytes signature_bytes
header_bytes h = signed_bytes h ++ signature_bytes h
