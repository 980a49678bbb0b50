-- ===== src/Examples.antt =====
-- Headers and inputs that the examples run on, and the theorems at them.
mod Tables
mod Edits
mod Streams
mod Ids
mod Payloads
mod Keys
mod Trees
mod Patches
mod Verified
mod Signatures
mod Files
mod Changes
mod Opened
use native.Mathlib.Omega.{arith}
use bpak.Prelude.{ℕ, zero, suc, ◌≡◌, ◌≢◌, refl, sym, inl, inr, List, ◌∷◌, [], replicate, length}
use bpak.Header.{MetaHeader, PartHeader, Header, IsSized, no_meta, no_part, init_header}
use bpak.Meta.Layout.{IsValid, AllFree, AllFree-Packed, Absent, Unique}
use bpak.Part.Table

abbrev pub salt_entry : MetaHeader
salt_entry = record { id = 10; size = 4; offset = 0; part_id_ref = 1; pad = 0 }

abbrev pub hash_entry : MetaHeader
hash_entry = record { id = 11; size = 20; offset = 8; part_id_ref = 1; pad = 0 }

abbrev pub kernel : PartHeader
kernel = record {
  id = 1;
  size = 500;
  offset = 4096;
  transport_size = 0;
  pad_bytes = 12;
  flags = 0;
  pad = 0;
}

abbrev pub rootfs : PartHeader
rootfs = record {
  id = 2;
  size = 1000;
  offset = 4608;
  transport_size = 300;
  pad_bytes = 24;
  flags = 2;
  pad = 0;
}

abbrev pub sample : Header
sample = record init_header {
  meta = salt_entry ∷ hash_entry ∷ replicate 30 no_meta;
  parts = kernel ∷ rootfs ∷ replicate 30 no_part;
}

pub sample-IsSized : IsSized sample
unfolding init_header
sample-IsSized = record {
  meta_slots = refl;
  part_slots = refl;
  data_bytes = refl;
  signature_room = refl;
}

free_slots : (n : ℕ) → AllFree (replicate n no_meta)
free_slots zero = tt
free_slots (suc n) = (refl, free_slots n)

free_keys : (n id ref : ℕ) → id ≢ 0 → Absent id ref (replicate n no_meta)
free_keys zero id ref h = tt
free_keys (suc n) id ref h = (inl (λ e. h (sym e)), free_keys n id ref h)

free-Unique : (n : ℕ) → Unique (replicate n no_meta)
free-Unique zero = tt
free-Unique (suc n) = (inl refl, free-Unique n)

pub free_parts : (n : ℕ) → Table.AllFree (replicate n no_part)
free_parts zero = tt
free_parts (suc n) = (refl, free_parts n)

pub free_ids : (n id : ℕ) → id ≢ 0 → Table.Absent id (replicate n no_part)
free_ids zero id h = tt
free_ids (suc n) id h = ((λ e. h (sym e)), free_ids n id h)

pub sample-IsValid : IsValid sample
sample-IsValid = record {
  packed = inr (
    omega arith,
    refl,
    omega arith,
    inr (omega arith, refl, omega arith, AllFree-Packed 32 (replicate 30 no_meta) (free_slots 30)),
  );
  unique = (
    inr (inl (omega arith), free_keys 30 10 1 (omega arith)),
    (inr (free_keys 30 11 1 (omega arith)), free-Unique 30),
  );
}

pub sample-IsFilled : Table.IsFilled sample.parts
sample-IsFilled = inr (
  omega arith,
  (omega arith, free_ids 30 1 (omega arith)),
  inr (omega arith, free_ids 30 2 (omega arith), inl (refl, free_parts 29)),
)
