-- ===== src/Examples/Ids.antt =====
-- Identifiers of names, and the theorems on them at the parts of the sample header.
use native.Mathlib.Omega.{arith}
use bpak.Hex.{bin2hex, hex_loop, hex_digit, bin2hex_lem}
use bpak.Prelude.{
  leb, min, true, length, ◌*◌, ◌+◌, ◌≡◌, refl, List, [], ◌∷◌, ℕ, zero, suc, All, replicate,
}
use bpak.Header.{no_part}
use bpak.Crc.{crc32, id_of, part_id_to_hash_tree_id, hash_tree_id_to_part_id}
use bpak.Crc.Serial.{serial_crc, crc32_lem}
use bpak.Crc.Trees.{HasWordId, hash_tree_id_to_part_id_lem}
use bpak.Examples.{rootfs, sample}

-- "kernel"
abbrev kernel_name : List ℕ
kernel_name = 107 ∷ 101 ∷ 114 ∷ 110 ∷ 101 ∷ 108 ∷ []

-- "bpak-transport", whose id is BPAK_ID_BPAK_TRANSPORT.
transport_id :
    id_of (98 ∷ 112 ∷ 97 ∷ 107 ∷ 45 ∷ 116 ∷ 114 ∷ 97 ∷ 110 ∷ 115 ∷ 112 ∷ 111 ∷ 114 ∷ 116 ∷ [])
    ≡ 0x2d44_bbfb
unfolding id_of crc32
transport_id = refl

crc32_lem_example : crc32 7 (200 ∷ 3 ∷ []) ≡ serial_crc 7 (200 ∷ 3 ∷ [])
crc32_lem_example = crc32_lem 7 (200 ∷ 3 ∷ []) (omega arith) (omega arith, (omega arith, tt))

free_word_ids : (n : ℕ) → All HasWordId (replicate n no_part)
free_word_ids zero = tt
free_word_ids (suc n) = (omega arith, free_word_ids n)

hash_tree_id_to_part_id_lem_example : hash_tree_id_to_part_id sample (part_id_to_hash_tree_id 2) ≡ 2
hash_tree_id_to_part_id_lem_example =
    hash_tree_id_to_part_id_lem sample 1 {p = rootfs} (omega arith, (omega arith, free_word_ids 30))
      refl (omega arith)

abbrev two_bytes : List ℕ
two_bytes = 0x1f ∷ 0xa0 ∷ []

bin2hex_lem_example :
    ((bin2hex two_bytes 4).0 ≡ leb (2 * length two_bytes) 4)
    × (length (bin2hex two_bytes 4).1 ≡ min (2 * length two_bytes) 4 + 1)
bin2hex_lem_example = bin2hex_lem two_bytes 4

-- "1fa0" and the zero, in a buffer of four bytes.
hex_run : bin2hex two_bytes 4 ≡ (true, 49 ∷ 102 ∷ 97 ∷ 48 ∷ 0 ∷ [])
unfolding bin2hex hex_loop hex_digit
hex_run = refl
