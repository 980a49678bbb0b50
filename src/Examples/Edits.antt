-- ===== src/Examples/Edits.antt =====
-- `bpak_add_meta` and `bpak_del_meta` where there is no room: an entry that does not fit the byte array,
-- and a table with no free slot.
use native.Mathlib.Omega.{arith}
use bpak.Prelude.{
  ℕ, zero, suc, ◌+◌, ◌*◌, ◌≤◌, ◌<◌, ◌≡◌, refl, ◌≢◌, inl, inr, List, [], ◌∷◌, some, get_elem?,
  length, subst,
}
use bpak.Status.{ok, err, no_space_left, size_error, not_found}
use bpak.Header.{MetaHeader, Header, IsSized, init_header}
use bpak.Meta.{add_meta, del_meta, get_meta, get_meta_int, clear_past_end}
use bpak.Meta.Layout.{IsValid, Packed, Absent, Unique, round8, next_offset, count_used}
use bpak.Meta.Delete.{del_meta-some, del_meta-full}
use bpak.Valid.{valid_header}
use bpak.Valid.Failure.{add_meta-overflow, add_meta-valid_header}
use bpak.Examples.{sample, sample-IsSized, sample-IsValid}

sample_accepted : valid_header sample ≡ ok tt
unfolding valid_header init_header
sample_accepted = refl

twelve_absent : get_meta sample 12 1 ≡ err not_found
unfolding get_meta get_meta_int
twelve_absent = refl

room_left : count_used sample.meta < 32
unfolding count_used
room_left = omega arith

too_long : 1920 < next_offset 0 sample.meta + 1900
unfolding next_offset
too_long = omega arith

add_meta-overflow_example :
    ((add_meta sample 12 1 1900).0 ≡ err no_space_left)
    × (valid_header (add_meta sample 12 1 1900).1 ≡ err size_error)
add_meta-overflow_example =
    add_meta-overflow sample 12 1 1900 sample-IsValid sample-IsSized sample_accepted (omega arith)
      twelve_absent room_left too_long

fits : (add_meta sample 12 1 100).0 ≡ ok 2
unfolding add_meta
fits = refl

add_meta-valid_header_example : valid_header (add_meta sample 12 1 100).1 ≡ ok tt
add_meta-valid_header_example =
    add_meta-valid_header sample 12 1 100 2 sample-IsValid sample_accepted (omega arith) fits

-- Entries of eight bytes, one behind the other.
slot : ℕ → MetaHeader
slot k = record { id = k + 1; size = 8; offset = 8 * k; part_id_ref = 0; pad = 0 }

slots : ℕ → ℕ → List MetaHeader
unfolding slot
slots zero k = []
slots (suc n) k = slot k ∷ slots n (k + 1)

slots-Packed : (n k : ℕ) → k + n ≤ 32 → Packed (8 * k) (slots n k)
unfolding slots
slots-Packed zero k h = tt
slots-Packed (suc n) k h =
    let next : 8 * (k + 1) ≡ round8 (8 * k + 8) = omega arith in
    inr (
      omega arith,
      refl,
      omega arith,
      subst (λ t. Packed t (slots n (k + 1))) next (slots-Packed n (k + 1) (omega arith)),
    )

slots-Absent : (n k j : ℕ) → j < k → Absent (j + 1) 0 (slots n k)
unfolding slots
slots-Absent zero k j h = tt
slots-Absent (suc n) k j h = (inl (omega arith), slots-Absent n (k + 1) j (omega arith))

slots-Unique : (n k : ℕ) → Unique (slots n k)
unfolding slots
slots-Unique zero k = tt
slots-Unique (suc n) k = (inr (slots-Absent n (k + 1) k (omega arith)), slots-Unique n (k + 1))

slots-count : (n k : ℕ) → (count_used (slots n k) ≡ n) × (length (slots n k) ≡ n)
unfolding slots count_used
slots-count zero k = (refl, refl)
slots-count (suc n) k = let ih = slots-count n (k + 1) in (ground (arith, ih), ground (arith, ih))

full : Header
full = record sample { meta = slots 32 0 }

full-IsValid : IsValid full
unfolding full
full-IsValid = record { packed = slots-Packed 32 0 (omega arith); unique = slots-Unique 32 0 }

full-IsSized : IsSized full
unfolding full
full-IsSized = record {
  meta_slots = (slots-count 32 0).1;
  part_slots = refl;
  data_bytes = sample-IsSized.data_bytes;
  signature_room = sample-IsSized.signature_room;
}

first_slot : get_elem? full.meta 0 ≡ some (slot 0)
unfolding full slots
first_slot = refl

first_used : (slot 0).id ≢ 0
unfolding slot
first_used = omega arith

no_room : count_used full.meta ≡ 32
unfolding full
no_room = (slots-count 32 0).0

full_deletes : (h' : Header) × (del_meta full 0 ≡ some h')
full_deletes = del_meta-some full-IsValid full-IsSized 0 {m = slot 0} first_slot first_used

del_meta-full_example :
    (full_deletes.0.parts ≡ clear_past_end full.parts) × (count_used full_deletes.0.meta ≡ 32)
del_meta-full_example =
    del_meta-full full-IsValid full-IsSized 0 {m = slot 0} first_slot first_used full_deletes.1
      no_room
