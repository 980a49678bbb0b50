-- ===== src/Crc/Trees.antt =====
-- Ids of hash tree parts against the names and the ids of the parts they belong to.
use native.Mathlib.Omega.{arith}
use native.Mathlib.Nat.{mod-eq_of_lt}
use bpak.Prelude.{
  take-all, length-append, some_eq, get_or, bit_and, bit_xor, ◌/◌, ℕ, zero, suc, ◌+◌, ◌^◌, ◌<◌, ◌≡◌,
  refl, sym, ap, ◌∙◌, List, [], ◌∷◌, ◌++◌, All, some, length, get_elem?, take, inl, inr, Bool-cases,
  ◌==◌, ==_iff,
}
use bpak.Header.{PartHeader, Header}
use bpak.Crc.{
  crc32_table, crc32, id_of, hash_tree_suffix, part_id_to_hash_tree_id, part_name_to_hash_tree_id,
  find_part_id, hash_tree_id_to_part_id,
}
use bpak.Crc.Serial.{IsByte, crc32_lem, serial_crc_injective}

-- The CRC of a string in two pieces.
crc32-append : (xs ys : List ℕ) (crc : ℕ) → crc32 crc (xs ++ ys) ≡ crc32 (crc32 crc xs) ys
unfolding crc32
crc32-append [] ys crc = refl
crc32-append (x ∷ xs) ys crc =
    crc32-append xs ys (bit_xor (get_or crc32_table (bit_and (bit_xor crc x) 0xff) 0) (crc / 2 ^ 8))

id_of-short : (str : List ℕ) → length str < 2 ^ 32 → id_of str ≡ crc32 0 str
unfolding id_of
id_of-short str h = ap (crc32 0) (ap (λ n. take n str) (mod-eq_of_lt h) ∙ take-all str)

-- The hash tree id of a part is the id of the part's name with "-hash-tree" behind it, if the name is
-- shorter than 2^32 - 10 bytes.
pub part_name_to_hash_tree_id_lem :
    (name : List ℕ)
    → length name + 10 < 2 ^ 32
    → part_name_to_hash_tree_id name ≡ id_of (name ++ hash_tree_suffix)
unfolding part_name_to_hash_tree_id part_id_to_hash_tree_id
part_name_to_hash_tree_id_lem name h =
    let len = length-append name hash_tree_suffix in
    ap (λ t. crc32 t hash_tree_suffix) (id_of-short name (omega arith))
    ∙ sym (crc32-append name hash_tree_suffix 0)
    ∙ sym (id_of-short (name ++ hash_tree_suffix) (omega (arith, len)))

-- An id is a 32 bit number.
abbrev pub HasWordId : PartHeader → Type 0
HasWordId p = p.id < 2 ^ 32

suffix_bytes : All IsByte hash_tree_suffix
suffix_bytes = (
  omega arith,
  (
    omega arith,
    (
      omega arith,
      (
        omega arith,
        (
          omega arith,
          (omega arith, (omega arith, (omega arith, (omega arith, (omega arith, tt))))),
        ),
      ),
    ),
  ),
)

part_id_to_hash_tree_id_injective :
    (a b : ℕ)
    → a < 2 ^ 32
    → b < 2 ^ 32
    → crc32 a hash_tree_suffix ≡ crc32 b hash_tree_suffix
    → a ≡ b
part_id_to_hash_tree_id_injective a b p q e =
    serial_crc_injective a b hash_tree_suffix p q suffix_bytes (
      sym (crc32_lem a hash_tree_suffix p suffix_bytes)
      ∙ e
      ∙ crc32_lem b hash_tree_suffix q suffix_bytes)

find_part_id-tree :
    (ps : List PartHeader) (i : ℕ) {p : PartHeader}
    → All HasWordId ps
    → p.id < 2 ^ 32
    → get_elem? ps i ≡ some p
    → find_part_id ps (crc32 p.id hash_tree_suffix) ≡ p.id
unfolding find_part_id
find_part_id-tree [] i words w e = cc
find_part_id-tree (q ∷ ps) zero {p} (word, words) w e =
    let same : q.id ≡ p.id = ap (λ (t : PartHeader). t.id) (some_eq e) in rw same (ground arith)
find_part_id-tree (q ∷ ps) (suc i) {p} (word, words) w e =
    let rest = find_part_id-tree ps i {p = p} words w e in
    elim (Bool-cases (crc32 q.id hash_tree_suffix == crc32 p.id hash_tree_suffix)) [
      | inl same ↦
          rw same (part_id_to_hash_tree_id_injective q.id p.id word w ((==_iff _ _).0 same))
      | inr other ↦ rw other rest
    ]

-- In a header whose part ids are 32 bit numbers, the part that a hash tree id leads to is the part that the
-- id was made for: no other part in the table has the same hash tree id.
pub hash_tree_id_to_part_id_lem :
    (h : Header) (i : ℕ) {p : PartHeader}
    → All HasWordId h.parts
    → get_elem? h.parts i ≡ some p
    → p.id < 2 ^ 32
    → hash_tree_id_to_part_id h (part_id_to_hash_tree_id p.id) ≡ p.id
unfolding hash_tree_id_to_part_id part_id_to_hash_tree_id
hash_tree_id_to_part_id_lem h i {p} words e w = find_part_id-tree h.parts i {p = p} words w e
