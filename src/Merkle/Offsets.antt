-- ===== src/Merkle/Offsets.antt =====
-- The layout of the hash tree: where the levels stand, and what they have room for.
use native.Mathlib.Omega.{arith}
use native.Mathlib.Decide.{ℕ_discrete}
use native.Mathlib.Nat.{pow-suc}
use bpak.Prelude.{
  ℕ, zero, suc, ◌+◌, ◌*◌, ◌/◌, ◌%◌, ◌^◌, ◌≤◌, ◌<◌, ◌≡◌, refl, ◌≢◌, some, List, [], ◌∷◌, subst,
}
use bpak.Status.{ok}
use bpak.Merkle.{block_sz, salt_bytes, Layout, init_layout}
use bpak.Merkle.Sizes.{up, tree_blocks, level_lengths, level_offsets, layout_of, init_layout_lem}

-- The first level ends at `end`, each further one where the one before it starts, and the last starts
-- at 0.
abbrev pub Contiguous : ℕ → List ℕ → List ℕ → Type 0
Contiguous end [] [] = end ≡ 0
Contiguous end [] (l ∷ ls) = ⊥
Contiguous end (o ∷ os) [] = ⊥
Contiguous end (o ∷ os) (l ∷ ls) = (o + l ≡ end) × Contiguous o os ls

-- Above data of this length stand levels that are whole blocks and hold a 32 byte hash of each block
-- below; the last is one block.
abbrev pub HoldsHashes : ℕ → List ℕ → Type 0
HoldsHashes below [] = below ≡ block_sz
HoldsHashes below (l ∷ ls) = (32 * (below / block_sz) ≤ l) × (l % block_sz ≡ 0) × HoldsHashes l ls

-- The levels fill the hash tree, and each holds the hashes of the one below.
pub record IsLaidOut (input_data_length : ℕ) (l : Layout) : Type 0 where
  pub contiguous : Contiguous l.hash_tree_length l.level_offset l.level_length
  pub holds : HoldsHashes input_data_length l.level_length

top_level :
    (k n : ℕ)
    → up n ≡ 1
    → (tree_blocks (suc k) n ≡ 1)
      × (level_offsets (suc k) n ≡ 0 ∷ [])
      × (level_lengths (suc k) n ≡ 4096 ∷ [])
unfolding tree_blocks level_offsets level_lengths
top_level k n e = (ground arith, ground arith, ground arith)

lower_level :
    (k n : ℕ)
    → up n ≢ 1
    → (tree_blocks (suc k) n ≡ up n + tree_blocks k (up n))
      × (level_offsets (suc k) n ≡ (4096 * tree_blocks k (up n)) ∷ level_offsets k (up n))
      × (level_lengths (suc k) n ≡ (4096 * up n) ∷ level_lengths k (up n))
unfolding tree_blocks level_offsets level_lengths
lower_level k n e = (ground arith, ground arith, ground arith)

levels-Contiguous :
    (k n : ℕ) → Contiguous (4096 * tree_blocks k n) (level_offsets k n) (level_lengths k n)
levels-Contiguous zero n = unfold tree_blocks level_offsets level_lengths in refl
levels-Contiguous (suc k) n = elim (ℕ_discrete (up n) 1) [
  | yes top ↦ let (t, o, l) = top_level k n top in rw (t, o, l) (omega arith, refl)
  | no more ↦
      let (t, o, l) = lower_level k n more in rw (t, o, l) (omega arith, levels-Contiguous k (up n))
]

levels_hold : (k n : ℕ) → 0 < n → n ≤ 128 ^ k → 0 < k → HoldsHashes (4096 * n) (level_lengths k n)
levels_hold zero n pos small h = absurd (omega arith)
levels_hold (suc zero) n pos small h =
    let top : up n ≡ 1 = omega arith in
    let (t, o, l) = top_level 0 n top in rw l (omega arith, refl, refl)
levels_hold (suc (suc k)) n pos small h = elim (ℕ_discrete (up n) 1) [
  | yes top ↦ let (t, o, l) = top_level (suc k) n top in rw l (omega arith, refl, refl)
  | no more ↦
      let (t, o, l) = lower_level (suc k) n more in
      let power : 128 ^ suc (suc k) ≡ 128 ^ suc k * 128 = pow-suc 128 (suc k) in
      rw l (
        omega arith,
        omega arith,
        levels_hold (suc k) (up n) (omega arith) (omega arith) (omega arith),
      )
]

init_layout-salt :
    (length salt_length : ℕ) {l : Layout}
    → init_layout length salt_length ≡ some (ok l)
    → salt_length ≤ salt_bytes
unfolding init_layout
init_layout-salt length salt_length e = ground arith

-- For data of whole blocks, below 2^64 bytes, the levels that `bpak_merkle_init` lays out when it succeeds
-- fill the hash tree without gap or overlap, the top level first and one block long, and each has room
-- for a 32 byte hash of every block below it.
pub init_layout-IsLaidOut :
    (n salt_length : ℕ) {l : Layout}
    → n < 2 ^ 52
    → init_layout (4096 * n) salt_length ≡ some (ok l)
    → IsLaidOut (4096 * n) l
init_layout-IsLaidOut n salt_length {l} small e =
    let closed = init_layout_lem n salt_length small (init_layout-salt (4096 * n) salt_length e) in
    let pos : 0 < n = ground arith in
    let fits : n ≤ 128 ^ 3 = ground arith in
    let same : layout_of n ≡ l = ground arith in
    subst (IsLaidOut (4096 * n)) same (record {
      contiguous = levels-Contiguous 3 n;
      holds = levels_hold 3 n pos fits (omega arith);
    })
