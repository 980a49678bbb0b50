-- ===== src/Package/Remove/Bytes.antt =====
-- What a cut and a write leave of a file's bytes, at places inside and outside of them.
use bpak.Prelude.{
  ℕ, zero, suc, ◌+◌, ◌-◌, ◌≤◌, ◌≡◌, refl, ap, ◌∙◌, List, [], ◌∷◌, ◌++◌, length, take, drop,
  replicate, length-take, length-drop, length-append, length-replicate, arith,
}
use bpak.Package.Stream.{place, place_at}
use bpak.Package.Remove.Moved.{resized}

take_cut : (m k n : ℕ) (bs : List ℕ) → k + n ≤ m → take n (drop k (take m bs)) ≡ take n (drop k bs)
take_cut m zero zero bs le = refl
take_cut zero zero (suc n) bs le = absurd (omega arith)
take_cut (suc m) zero (suc n) [] le = refl
take_cut (suc m) zero (suc n) (b ∷ bs) le = ap (λ t. b ∷ t) (take_cut m zero n bs (omega arith))
take_cut zero (suc k) n bs le = absurd (omega arith)
take_cut (suc m) (suc k) n [] le = refl
take_cut (suc m) (suc k) n (b ∷ bs) le = take_cut m k n bs (omega arith)

take_first :
    (k n : ℕ) (xs ys : List ℕ) → k + n ≤ length xs → take n (drop k (xs ++ ys)) ≡ take n (drop k xs)
take_first zero zero xs ys le = refl
take_first zero (suc n) [] ys le = absurd (omega arith)
take_first zero (suc n) (x ∷ xs) ys le = ap (λ t. x ∷ t) (take_first zero n xs ys (omega arith))
take_first (suc k) zero [] ys le = refl
take_first (suc k) (suc n) [] ys le = absurd (omega arith)
take_first (suc k) n (x ∷ xs) ys le = take_first k n xs ys (omega arith)

pub length-resized : (m : ℕ) (bs : List ℕ) → length (resized m bs) ≡ m
length-resized m bs =
    length-append (take m bs) (replicate (m - length bs) 0)
    ∙ omega (arith, length-take {0} m bs, length-replicate {A = ℕ} (m - length bs) 0)

pub take-resized :
    (m k n : ℕ) (bs : List ℕ)
    → k + n ≤ m
    → m ≤ length bs
    → take n (drop k (resized m bs)) ≡ take n (drop k bs)
take-resized m k n bs le inside =
    take_first k n (take m bs) (replicate (m - length bs) 0) (omega (arith, length-take {0} m bs))
    ∙ take_cut m k n bs le

place-long : (k : ℕ) (xs bs : List ℕ) → length bs ≤ length (place k xs bs)
unfolding place
place-long zero xs bs =
    omega (arith, length-append xs (drop (length xs) bs), length-drop {0} (length xs) bs)
place-long (suc k) xs [] = omega arith
place-long (suc k) xs (b ∷ bs) = omega (arith, place-long k xs bs)

pub place_at-long : (k : ℕ) (xs bs : List ℕ) → length bs ≤ length (place_at k xs bs)
unfolding place_at
place_at-long k [] bs = omega arith
place_at-long k (x ∷ xs) bs = place-long k (x ∷ xs) bs

place-inside :
    (k d n : ℕ) (xs bs : List ℕ)
    → d + n ≤ length xs
    → take n (drop (k + d) (place k xs bs)) ≡ take n (drop d xs)
unfolding place
place-inside zero d n xs bs le =
    let e : 0 + d ≡ d = omega arith in
    ap (λ m. take n (drop m (xs ++ drop (length xs) bs))) e
    ∙ take_first d n xs (drop (length xs) bs) le
place-inside (suc k) d n xs [] le =
    let e : suc k + d ≡ suc (k + d) = omega arith in rw e (place-inside k d n xs [] le)
place-inside (suc k) d n xs (b ∷ bs) le =
    let e : suc k + d ≡ suc (k + d) = omega arith in rw e (place-inside k d n xs bs le)

-- The bytes inside a write.
pub place_at-inside :
    (k d n : ℕ) (xs bs : List ℕ)
    → d + n ≤ length xs
    → take n (drop (k + d) (place_at k xs bs)) ≡ take n (drop d xs)
unfolding place_at
place_at-inside k d n [] bs le = let none : n ≡ 0 = omega arith in rw none refl
place_at-inside k d n (x ∷ xs) bs le = place-inside k d n (x ∷ xs) bs le
