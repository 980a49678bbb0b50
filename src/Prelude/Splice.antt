-- ===== src/Prelude/Splice.antt =====
-- Writing a run of elements over an array, with the laws of reading it back.
use Prim.Native.Nat.{ℕ, zero, suc, ◌+◌, ◌-◌, ◌<◌, ◌≤◌}
use mathlib.Core.Path.{◌≡◌, refl, ap, ◌∙◌}
use mathlib.Core.Logic.{◌⊎◌}
use mathlib.Core.List.{List, [], ◌∷◌}
use native.Mathlib.Omega.{arith}
use bpak.Prelude.Lists.{length, get_or}

module _ {ℓ} {A : Type ℓ} where
  -- `overlay xs bs` is `bs` with its first elements replaced by `xs`; it never grows.
  unfoldable pub overlay : List A → List A → List A
  overlay [] bs = bs
  overlay (x ∷ xs) [] = []
  overlay (x ∷ xs) (b ∷ bs) = x ∷ overlay xs bs

  -- `splice k xs bs` writes `xs` over `bs` from index `k` on.
  unfoldable pub splice : ℕ → List A → List A → List A
  unfolding overlay
  splice zero xs bs = overlay xs bs
  splice (suc k) xs [] = []
  splice (suc k) xs (b ∷ bs) = b ∷ splice k xs bs

  pub length-overlay : (xs bs : List A) → length (overlay xs bs) ≡ length bs
  unfolding overlay
  length-overlay [] bs = refl
  length-overlay (x ∷ xs) [] = refl
  length-overlay (x ∷ xs) (b ∷ bs) = ap suc (length-overlay xs bs)

  pub length-splice : (k : ℕ) (xs bs : List A) → length (splice k xs bs) ≡ length bs
  unfolding splice
  length-splice zero xs bs = length-overlay xs bs
  length-splice (suc k) xs [] = refl
  length-splice (suc k) xs (b ∷ bs) = ap suc (length-splice k xs bs)

  get_or-overlay_in :
      (xs bs : List A) (j : ℕ) (d : A)
      → j < length xs
      → j < length bs
      → get_or (overlay xs bs) j d ≡ get_or xs j d
  unfolding overlay
  get_or-overlay_in [] bs j d h k = absurd (omega arith)
  get_or-overlay_in (x ∷ xs) [] j d h k = absurd (omega arith)
  get_or-overlay_in (x ∷ xs) (b ∷ bs) zero d h k = refl
  get_or-overlay_in (x ∷ xs) (b ∷ bs) (suc j) d h k =
      get_or-overlay_in xs bs j d (omega arith) (omega arith)

  get_or-overlay_out :
      (xs bs : List A) (j : ℕ) (d : A) → length xs ≤ j → get_or (overlay xs bs) j d ≡ get_or bs j d
  unfolding overlay
  get_or-overlay_out [] bs j d h = refl
  get_or-overlay_out (x ∷ xs) [] j d h = refl
  get_or-overlay_out (x ∷ xs) (b ∷ bs) zero d h = absurd (omega arith)
  get_or-overlay_out (x ∷ xs) (b ∷ bs) (suc j) d h = get_or-overlay_out xs bs j d (omega arith)

  -- Inside the run, what was written is read.
  pub get_or-splice_in :
      (k : ℕ) (xs bs : List A) (i : ℕ) (d : A)
      → k ≤ i
      → i < k + length xs
      → i < length bs
      → get_or (splice k xs bs) i d ≡ get_or xs (i - k) d
  unfolding splice
  get_or-splice_in zero xs bs i d p q r =
      get_or-overlay_in xs bs i d (omega arith) r ∙ ap (λ t. get_or xs t d) (omega arith)
  get_or-splice_in (suc k) xs [] i d p q r = absurd (omega arith)
  get_or-splice_in (suc k) xs (b ∷ bs) zero d p q r = absurd (omega arith)
  get_or-splice_in (suc k) xs (b ∷ bs) (suc i) d p q r =
      get_or-splice_in k xs bs i d (omega arith) (omega arith) (omega arith)
      ∙ ap (λ t. get_or xs t d) (omega arith)

  -- Outside the run nothing changes.
  pub get_or-splice_out :
      (k : ℕ) (xs bs : List A) (i : ℕ) (d : A)
      → (i < k) ⊎ (k + length xs ≤ i)
      → get_or (splice k xs bs) i d ≡ get_or bs i d
  unfolding splice
  get_or-splice_out zero xs bs i d h = get_or-overlay_out xs bs i d (omega arith)
  get_or-splice_out (suc k) xs [] i d h = refl
  get_or-splice_out (suc k) xs (b ∷ bs) zero d h = refl
  get_or-splice_out (suc k) xs (b ∷ bs) (suc i) d h = get_or-splice_out k xs bs i d (omega arith)
