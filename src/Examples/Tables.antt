-- ===== src/Examples/Tables.antt =====
-- The theorems on the two tables of a header at a header with two metadata entries and two parts, the
-- second of them encoded for transport.
use native.Mathlib.Omega.{arith}
use bpak.Prelude.{◌↔◌, suc, ◌<◌, ◌≡◌, refl, some, length, get_or}
use bpak.Status.{ok, err, exists}
use bpak.Valid.{valid_header}
use bpak.Valid.Meaning.{IsWellFormed, valid_header_iff}
use bpak.Header.{init_header, Header, IsSized}
use bpak.Meta.{add_meta, del_meta, get_meta}
use bpak.Meta.Layout
use bpak.Meta.Layout.{Packed-disjoint, IsValid, round8, next_offset}
use bpak.Meta.Added.{outcome}
use bpak.Meta.Add.{add_meta-outcome, add_meta-IsValid, get_meta-add_meta, Wrote, add_meta-Wrote}
use bpak.Meta.Delete.{reindex, del_meta-IsValid, get_meta-del_meta, del_meta-data}
use bpak.Part.{add_part, get_part, del_part}
use bpak.Part.Table
use bpak.Part.Table.{IsFilled, add_part-outcome, add_part-IsFilled, get_part-add_part}
use bpak.Part.Delete
use bpak.Part.Delete.{del_part-IsFilled, get_part-del_part}
use bpak.Examples.{
  salt_entry, hash_entry, kernel, sample, sample-IsSized, sample-IsValid, sample-IsFilled,
}

add_runs : (add_meta sample 12 1 100).0 ≡ ok 2
unfolding add_meta
add_runs = refl

add_meta-outcome_example : (add_meta sample 12 1 100).0 ≡ outcome 0 sample.meta 12 1 100
add_meta-outcome_example = add_meta-outcome sample-IsValid 12 1 100 (omega arith)

add_meta-IsValid_example : IsValid (add_meta sample 12 1 100).1
add_meta-IsValid_example = add_meta-IsValid sample-IsValid 12 1 100 (omega arith) 2 add_runs

get_meta-add_meta_example : get_meta (add_meta sample 12 1 100).1 12 1 ≡ ok 2
get_meta-add_meta_example =
    get_meta-add_meta sample-IsValid 12 1 100 (omega arith) 2 add_runs 12 1 (omega arith)

add_meta-Wrote_example : Wrote sample-IsValid 12 1 100 (omega arith) 2 add_runs
add_meta-Wrote_example = add_meta-Wrote sample-IsValid 12 1 100 (omega arith) 2 add_runs

add_again : (add_meta sample 10 1 8).0 ≡ err exists
unfolding add_meta
add_again = refl

entry_free : Layout.count_used sample.meta < 32
unfolding Layout.count_used
entry_free = omega arith

deletes :
    (h' : Header) × (del_meta sample 0 ≡ some h')
    × IsValid h'
    × IsSized h'
    × (h'.parts ≡ sample.parts)
deletes =
    del_meta-IsValid sample-IsValid sample-IsSized 0 {m = salt_entry} refl (omega arith) entry_free

del_meta-IsValid_example :
    (h' : Header) × (del_meta sample 0 ≡ some h')
    × IsValid h'
    × IsSized h'
    × (h'.parts ≡ sample.parts)
del_meta-IsValid_example =
    del_meta-IsValid sample-IsValid sample-IsSized 0 {m = salt_entry} refl (omega arith) entry_free

get_meta-del_meta_example : get_meta deletes.0 11 1 ≡ reindex 0 (get_meta sample 11 1)
get_meta-del_meta_example =
    get_meta-del_meta sample-IsValid sample-IsSized 0 {m = salt_entry} refl (omega arith) deletes.1
      entry_free 11 1 (omega arith)

-- The tenth byte of the second entry, which moves by 8.
del_meta-data_example : get_or deletes.0.metadata 9 0 ≡ 0
del_meta-data_example =
    del_meta-data sample-IsValid sample-IsSized 0 {m = salt_entry} refl (omega arith) deletes.1 1 9
      {n = hash_entry} (omega arith) refl (omega arith) (omega arith)

deletes_second :
    (h' : Header) × (del_meta sample 1 ≡ some h')
    × IsValid h'
    × IsSized h'
    × (h'.parts ≡ sample.parts)
deletes_second =
    del_meta-IsValid sample-IsValid sample-IsSized 1 {m = hash_entry} refl (omega arith) entry_free

add_part_runs : (add_part sample 7).0 ≡ ok 2
unfolding add_part
add_part_runs = refl

add_part-IsFilled_example : IsFilled (add_part sample 7).1.parts
add_part-IsFilled_example = add_part-IsFilled sample sample-IsFilled 7 (omega arith) 2 add_part_runs

get_part-add_part_example : get_part (add_part sample 7).1 7 ≡ ok 2
get_part-add_part_example =
    get_part-add_part sample sample-IsFilled 7 (omega arith) 2 add_part_runs 7 (omega arith)

del_part-IsFilled_example :
    IsFilled (del_part sample 0).parts
    × (suc (Table.count_used (del_part sample 0).parts) ≡ Table.count_used sample.parts)
    × (length (del_part sample 0).parts ≡ 32)
del_part-IsFilled_example =
    del_part-IsFilled sample 0 {p = kernel} sample-IsFilled refl (omega arith)

get_part-del_part_example : get_part (del_part sample 0) 2 ≡ Delete.reindex 0 (get_part sample 2)
get_part-del_part_example =
    get_part-del_part sample 0 {p = kernel} sample-IsFilled refl (omega arith) 2 (omega arith)

-- The second part starts 512 bytes behind the header.
accepted : valid_header sample ≡ ok tt
unfolding valid_header init_header
accepted = refl

valid_header_iff_example : (valid_header sample ≡ ok tt) ↔ IsWellFormed sample
valid_header_iff_example = valid_header_iff sample

accepted_meaning : IsWellFormed sample
accepted_meaning = (valid_header_iff sample).0 accepted
