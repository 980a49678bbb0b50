-- ===== src/Prelude/Trial.antt =====
-- Deciding a fact about a range of numbers by trying each.
use native.Mathlib.Omega.{arith}
use native.Mathlib.Decide.{ℕ_discrete}
use Prim.Native.Nat.{ℕ, zero, suc, ◌+◌, ◌≤◌, ◌<◌}
use mathlib.Core.Path.{◌≡◌, subst}
use mathlib.Core.Bool.{Bool, true, false}
use bpak.Prelude.Compare.{if◌then◌else◌}

-- A Boolean fact about each of the numbers from `k` on, so many of them, is decided by trying.
module _ (q : ℕ → Bool) where
  unfoldable pub try_from : ℕ → ℕ → Bool
  try_from k zero = true
  try_from k (suc more) = if q k then try_from (suc k) more else false

  pub try_from-get :
      (k more : ℕ) → try_from k more ≡ true → (x : ℕ) → k ≤ x → x < k + more → q x ≡ true
  unfolding try_from
  try_from-get k zero e x low high = absurd (omega arith)
  try_from-get k (suc more) e x low high = elim (ℕ_discrete k x) [
    | yes same ↦ subst (λ t. q t ≡ true) same (ground arith)
    | no other ↦ try_from-get (suc k) more (ground arith) x (omega arith) (omega arith)
  ]
