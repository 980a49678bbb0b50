-- ===== src/Patch/Pieces.antt =====
-- The format of a patch, record by record, and what the records mean.
use bpak.Prelude.{ℕ, ◌+◌, ◌≤◌, ◌<◌, ◌^◌, ◌≡◌, List, [], ◌∷◌, ◌++◌, length, take, drop}
use bpak.Int.{ℤ, pos, negsuc, ◌+ℤ◌, pos_part, neg_part}
use bpak.Offt.{offtout}
use bpak.Patch.{add_bytes}

-- A callback that appends to what stands from the offset `base` on.
pub record IsAppend {W : Type 0} (write_output : ℤ → List ℕ → W → ℤ × W) (base : ℤ)
    (contents : W → List ℕ) : Type 0 where
  pub append :
      (w : W) (bytes : List ℕ)
      → (w' : W) × (write_output (base +ℤ pos (length (contents w))) bytes w
          ≡ (pos (length bytes), w'))
        × (contents w' ≡ contents w ++ bytes)

-- A record of a patch: bytes to add to the origin's, bytes of their own, and where the origin goes on.
pub record Piece : Type 0 where
  pub diff : List ℕ
  pub extra : List ℕ
  pub adjust : ℤ

unfoldable pub encode : Piece → List ℕ
encode p =
    (offtout (pos (length p.diff)) ++ (offtout (pos (length p.extra)) ++ offtout p.adjust))
    ++ (p.diff ++ p.extra)

unfoldable pub stream : List Piece → List ℕ
stream [] = []
stream (p ∷ ps) = encode p ++ stream ps

unfoldable pub window : List ℕ → ℤ → ℕ → List ℕ
window origin (pos k) n = take n (drop k origin)
window origin (negsuc k) n = []

-- What the records make of the origin from a position on.
unfoldable pub patched : List ℕ → ℤ → List Piece → List ℕ
unfolding window
patched origin position [] = []
patched origin position (p ∷ ps) =
    add_bytes (window origin position (length p.diff)) p.diff
    ++ (p.extra ++ patched origin (position +ℤ pos (length p.diff) +ℤ p.adjust) ps)

-- The records read the origin inside its bounds, and their numbers fit the control numbers of a patch.
abbrev pub AreApplicable : List ℕ → ℤ → List Piece → Type 0
AreApplicable origin position [] = Unit
AreApplicable origin position (p ∷ ps) =
    ((k : ℕ) × (position ≡ pos k) × (k + length p.diff ≤ length origin))
    × ((length p.diff < 2 ^ 63) × (length p.extra < 2 ^ 63))
    × ((pos_part p.adjust < 2 ^ 63) × (neg_part p.adjust < 2 ^ 63))
    × AreApplicable origin (position +ℤ pos (length p.diff) +ℤ p.adjust) ps
