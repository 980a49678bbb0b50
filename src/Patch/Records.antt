-- ===== src/Patch/Records.antt =====
-- Lemmas on the numbers of a control record and on a diff in parts.
use native.Mathlib.Omega.{arith}
use bpak.Prelude.{
  drop-append, ℕ, suc, ◌+◌, ◌%◌, ◌^◌, ◌≤◌, ◌<◌, ◌≡◌, refl, sym, ap, ap₂, ◌∙◌, List, [], ◌∷◌, ◌++◌,
  ◌==◌, true, length, take, drop, overlay, length-append, length-take, length-drop, take-add,
  drop-add, take-drop,
}
use bpak.Int.{ℤ, pos, negsuc, pos_part, neg_part, ◌+ℤ◌, int_laws}
use bpak.Offt.{offtin, offtout, offtin-offtout}
use bpak.Patch.{add_bytes}

pub length-add_bytes :
    (xs ys : List ℕ) → length xs ≡ length ys → length (add_bytes xs ys) ≡ length ys
unfolding add_bytes
length-add_bytes [] [] h = refl
length-add_bytes [] (y ∷ ys) h = absurd (omega arith)
length-add_bytes (x ∷ xs) [] h = absurd (omega arith)
length-add_bytes (x ∷ xs) (y ∷ ys) h = ap suc (length-add_bytes xs ys (omega arith))

pub add_bytes-append :
    (xs xs' ys ys' : List ℕ)
    → length xs ≡ length ys
    → add_bytes (xs ++ xs') (ys ++ ys') ≡ add_bytes xs ys ++ add_bytes xs' ys'
unfolding add_bytes
add_bytes-append [] xs' [] ys' h = refl
add_bytes-append [] xs' (y ∷ ys) ys' h = absurd (omega arith)
add_bytes-append (x ∷ xs) xs' [] ys' h = absurd (omega arith)
add_bytes-append (x ∷ xs) xs' (y ∷ ys) ys' h =
    ap (λ t. ((x + y) % 256) ∷ t) (add_bytes-append xs xs' ys ys' (omega arith))

pub overlay-all : (xs bs : List ℕ) → length xs ≡ length bs → overlay xs bs ≡ xs
unfolding overlay
overlay-all [] [] h = refl
overlay-all [] (b ∷ bs) h = absurd (omega arith)
overlay-all (x ∷ xs) [] h = absurd (omega arith)
overlay-all (x ∷ xs) (b ∷ bs) h = ap (λ t. x ∷ t) (overlay-all xs bs (omega arith))

pub length-offtout : (x : ℤ) → length (offtout x) ≡ 8
unfolding offtout
length-offtout (pos y) = refl
length-offtout (negsuc y) = refl

-- Only the first eight bytes are read.
pub offtin-append : (x : ℤ) (rest : List ℕ) → offtin (offtout x ++ rest) ≡ offtin (offtout x)
unfolding offtin offtout
offtin-append (pos y) rest = refl
offtin-append (negsuc y) rest = refl

pub pos-add : (a b : ℕ) → pos a +ℤ pos b ≡ pos (a + b)
pos-add a b = omega int_laws

-- A diff in two parts.
pub split_diff :
    (origin diff : List ℕ) (k n : ℕ)
    → n ≤ length diff
    → k + length diff ≤ length origin
    → add_bytes (take n (drop k origin)) (take n diff)
        ++ add_bytes (take (length (drop n diff)) (drop (k + n) origin)) (drop n diff)
      ≡ add_bytes (take (length diff) (drop k origin)) diff
split_diff origin diff k n h fits =
    let first : length (take n (drop k origin)) ≡ length (take n diff) = omega (
      arith,
      length-take {0} n (drop k origin),
      length-drop {0} k origin,
      length-take {0} n diff,
    ) in
    let sum : n + length (drop n diff) ≡ length diff = omega (arith, length-drop {0} n diff) in
    sym (
      add_bytes-append (take n (drop k origin)) (take (length (drop n diff)) (drop (k + n) origin))
        (take n diff) (drop n diff) first)
    ∙ ap
        (λ t.
          add_bytes (take n (drop k origin) ++ take (length (drop n diff)) t)
            (take n diff ++ drop n diff))
        (sym (drop-add k n origin))
    ∙ ap (λ t. add_bytes t (take n diff ++ drop n diff))
        (sym (take-add n (length (drop n diff)) (drop k origin)))
    ∙ ap₂ (λ m t. add_bytes (take m (drop k origin)) t) sum (take-drop n diff)

pub same_count : (n : ℕ) → (n == n) ≡ true
same_count n = ground arith

-- The three numbers of a control record.
abbrev pub triple : ℤ → ℤ → ℤ → List ℕ
triple a b c = offtout a ++ (offtout b ++ offtout c)

pub drop-offtout : (x : ℤ) (rest : List ℕ) → drop 8 (offtout x ++ rest) ≡ rest
drop-offtout x rest =
    ap (λ n. drop n (offtout x ++ rest)) (sym (length-offtout x)) ∙ drop-append (offtout x) rest

pub length-triple : (a b c : ℤ) → length (triple a b c) ≡ 24
length-triple a b c = omega (
  arith,
  length-append {0} (offtout a) (offtout b ++ offtout c),
  length-append {0} (offtout b) (offtout c),
  length-offtout a,
  length-offtout b,
  length-offtout c,
)

abbrev pub IsShort : ℤ → Type 0
IsShort x = (pos_part x < 2 ^ 63) × (neg_part x < 2 ^ 63)

pub first_number : (a b c : ℤ) → IsShort a → offtin (triple a b c) ≡ a
first_number a b c h = offtin-append a (offtout b ++ offtout c) ∙ offtin-offtout a h.0 h.1

pub second_number : (a b c : ℤ) → IsShort b → offtin (drop 8 (triple a b c)) ≡ b
second_number a b c h =
    ap offtin (drop-offtout a (offtout b ++ offtout c))
    ∙ offtin-append b (offtout c)
    ∙ offtin-offtout b h.0 h.1

pub third_number : (a b c : ℤ) → IsShort c → offtin (drop 16 (triple a b c)) ≡ c
third_number a b c h =
    ap offtin (
      sym (drop-add 8 8 (triple a b c))
      ∙ ap (λ t. drop 8 t) (drop-offtout a (offtout b ++ offtout c))
      ∙ drop-offtout b (offtout c))
    ∙ offtin-offtout c h.0 h.1
