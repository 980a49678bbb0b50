-- ===== src/Run.antt =====
-- Functions that use callbacks: they change the callbacks' state, and return a value or the negative
-- number that the code returns. `none` is a loop that ran out of its fuel.
use mathlib.Core.Path.{fun_ext}
use native.Mathlib.Omega.{arith}
use bpak.Prelude.{ℕ, ◌-◌, ◌≡◌, refl, ap, Option, none, some, ◌==◌, if◌then◌else◌}
use bpak.Int.{ℤ, pos, negsuc}
use bpak.Status
use bpak.Status.{Error, code, Result, ok, err}

pub data Rc (A : Type 0) : Type 0 where
  done : A → Rc A
  fail : ℤ → Rc A

abbrev pub Run : Type 0 → Type 0 → Type 0
Run W A = W → Option (Rc A × W)

-- `-BPAK_...`
unfoldable pub minus : Error → ℤ
unfolding code
minus e = negsuc (code e - 1)

module _ {W A : Type 0} where
  abbrev pub pure : A → Run W A
  pure a w = some (done a, w)

  abbrev pub return_code : ℤ → Run W A
  return_code rc w = some (fail rc, w)

  unfoldable pub raise : Error → Run W A
  unfolding minus
  raise e w = some (fail (minus e), w)

  abbrev pub out_of_fuel : Run W A
  out_of_fuel w = none

  unfoldable pub lift : Result A → Run W A
  unfolding raise
  lift (ok a) = pure a
  lift (err e) = raise e

infixl 5 ◌>>=◌ ◌>>◌
abbrev pub ◌>>=◌ : {W A B : Type 0} → Run W A → (A → Run W B) → Run W B
◌>>=◌ m f w = elim (m w) [
  | none ↦ none
  | some (done a, w') ↦ f a w'
  | some (fail rc, w') ↦ some (fail rc, w')
]

abbrev pub ◌>>◌ : {W B : Type 0} → Run W (Unit {0}) → Run W B → Run W B
m >> k = m >>= λ _. k

-- A `ssize_t` that has to be `n`: `if (r < 0) return r; if (r != n) return -BPAK_...;`
unfoldable pub expect : {W : Type 0} → ℤ → ℕ → Error → Run W (Unit {0})
unfolding raise
expect (negsuc r) n e = return_code (negsuc r)
expect (pos r) n e = if r == n then pure tt else raise e

pub >>=-assoc :
    {W A B C : Type 0} (m : Run W A) (f : A → Run W B) (g : B → Run W C)
    → ((m >>= f) >>= g) ≡ (m >>= λ a. f a >>= g)
>>=-assoc m f g = fun_ext λ w. ground arith

pub >>=-pure : {W A : Type 0} (m : Run W A) → (m >>= pure) ≡ m
>>=-pure m = fun_ext λ w. ground arith

pub >>=-cong :
    {W A B : Type 0} (m : Run W A) (f g : A → Run W B)
    → ((a : A) → f a ≡ g a)
    → (m >>= f) ≡ (m >>= g)
>>=-cong m f g h = ap (λ k. m >>= k) (fun_ext h)

-- Lifting a result, then a function of results.
pub lift-bind :
    {W A B : Type 0} (r : Result A) (f : A → Result B)
    → lift {W = W} (Status.◌>>=◌ r f) ≡ (lift r >>= λ a. lift (f a))
unfolding lift
lift-bind (ok a) f = refl
lift-bind (err e) f = refl
