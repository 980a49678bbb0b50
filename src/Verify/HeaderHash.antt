-- ===== src/Verify/HeaderHash.antt =====
-- lib/verify.c, `bpak_verify_compute_header_hash`: the header without its signature is hashed.
use bpak.Prelude.{
  ℕ, zero, suc, ◌+◌, ◌-◌, ◌*◌, ◌/◌, ◌≡◌, refl, sym, ap, ap₂, ◌∙◌, Option, none, some, List, [], ◌∷◌,
  ◌++◌, length, take, replicate, length-append, take-append, arith,
}
use mathlib.Core.Path.{fun_ext}
use bpak.Status.{Result, ok, err, ◌>>=◌}
use bpak.Header.{MetaHeader, PartHeader, Header, IsSized, header_size, signature_max_bytes}
use bpak.Header.Bytes.{
  le_bytes, meta_header_bytes, part_header_bytes, array_bytes, hash_and_keys, signature_bytes,
  signed_bytes, header_bytes,
}
use bpak.Payload.{Hash}
use bpak.Payload.Meaning.{IsStreaming}

-- sizeof(header->signature) + sizeof(header->signature_sz)
abbrev pub signature_room : ℕ
signature_room = signature_max_bytes + 2

module _ {S : Type 0} (hash : Hash S) where
  -- The loop that hashes one zero `n` times.
  unfoldable pub update_zeroes : ℕ → S → Result S
  update_zeroes zero s = ok s
  update_zeroes (suc n) s = hash.update s (0 ∷ []) >>= update_zeroes n

  -- What is hashed, up to the call of `bpak_hash_final`, with the room `size` for the hash.
  unfoldable pub hash_header : Header → ℕ → S → Result (List ℕ)
  unfolding update_zeroes
  hash_header h size s =
      hash.update s (take (header_size - signature_room) (header_bytes h))
      >>= update_zeroes signature_room
      >>= λ t. hash.final t size

  -- `bpak_verify_compute_header_hash`: only an error of the first call is returned; behind an error of a
  -- later one the output is not written.
  unfoldable pub compute_header_hash : Header → ℕ → Result (Option (List ℕ))
  unfolding hash_header
  compute_header_hash h size = hash.init h.hash_kind >>= λ s. elim (hash_header h size s) [
    | err e ↦ ok none
    | ok digest ↦ ok (some digest)
  ]

-- The arrays of a header, and the two that are not tables, have their C lengths.
pub record IsPacked (h : Header) : Type 0 where
  pub sized : IsSized h
  pub hash_room : length h.payload_hash ≡ 64
  pub pad_room : length h.pad1 ≡ 42

pub length-le_bytes : (n x : ℕ) → length (le_bytes n x) ≡ n
unfolding le_bytes
length-le_bytes zero x = refl
length-le_bytes (suc n) x = ap suc (length-le_bytes n (x / 256))

pub length-array_bytes :
    {A : Type 0} (f : A → List ℕ) (n : ℕ) (xs : List A)
    → ((x : A) → length (f x) ≡ n)
    → length (array_bytes f xs) ≡ n * length xs
unfolding array_bytes
length-array_bytes f n [] each = omega arith
length-array_bytes f n (x ∷ xs) each =
    omega
      (arith, each x, length-append {0} (f x) (array_bytes f xs), length-array_bytes f n xs each)

pub length-meta_header_bytes : (m : MetaHeader) → length (meta_header_bytes m) ≡ 16
unfolding meta_header_bytes le_bytes
length-meta_header_bytes m = refl

pub length-part_header_bytes : (p : PartHeader) → length (part_header_bytes p) ≡ 32
unfolding part_header_bytes le_bytes
length-part_header_bytes p = refl

length-hash_and_keys : (h : Header) → IsPacked h → length (hash_and_keys h) ≡ 118
unfolding hash_and_keys
length-hash_and_keys h packed =
    omega (arith, length-append {0} {A = ℕ}, length-le_bytes, packed.hash_room, packed.pad_room)

pub length-signed_bytes :
    (h : Header) → IsPacked h → length (signed_bytes h) ≡ header_size - signature_room
unfolding signed_bytes
length-signed_bytes h packed = omega (
  arith,
  length-append {0} {A = ℕ},
  length-le_bytes,
  length-array_bytes meta_header_bytes 16 h.meta length-meta_header_bytes,
  length-array_bytes part_header_bytes 32 h.parts length-part_header_bytes,
  length-hash_and_keys h packed,
  packed.sized.meta_slots,
  packed.sized.part_slots,
  packed.sized.data_bytes,
)

-- The header without its signature.
abbrev pub unsigned : Header → Header
unsigned h = record h { signature = replicate signature_max_bytes 0; signature_sz = 0 }

signature_bytes-unsigned : (h : Header) → signature_bytes (unsigned h) ≡ replicate signature_room 0
unfolding signature_bytes le_bytes
signature_bytes-unsigned h = refl

signed_bytes-unsigned : (h : Header) → signed_bytes (unsigned h) ≡ signed_bytes h
unfolding signed_bytes hash_and_keys
signed_bytes-unsigned h = refl

written : {A : Type 0} → Result A → Result (Option A)
written r = elim r [ err e ↦ ok none | ok digest ↦ ok (some digest) ]

module _ {S : Type 0} (hash : Hash S) (streaming : IsStreaming hash) where
  update_zeroes-replicate : (n : ℕ) (s : S) → update_zeroes hash n s ≡ hash.update s (replicate n 0)
  unfolding update_zeroes
  update_zeroes-replicate zero s = sym (streaming.update-nil s)
  update_zeroes-replicate (suc n) s =
      ap (λ k. hash.update s (0 ∷ []) >>= k) (fun_ext (update_zeroes-replicate n))
      ∙ sym (streaming.update-append s (0 ∷ []) (replicate n 0))

  hash_header-unsigned :
      (h : Header) (size : ℕ) (s : S)
      → IsPacked h
      → hash_header hash h size s
        ≡ (hash.update s (header_bytes (unsigned h)) >>= λ t. hash.final t size)
  unfolding hash_header header_bytes
  hash_header-unsigned h size s packed =
      let front : take (header_size - signature_room) (header_bytes h) ≡ signed_bytes h =
        ap (λ n. take n (header_bytes h)) (sym (length-signed_bytes h packed))
        ∙ take-append (signed_bytes h) (signature_bytes h) in
      let all : header_bytes (unsigned h) ≡ signed_bytes h ++ replicate signature_room 0 =
        ap₂ (λ x y. x ++ y) (signed_bytes-unsigned h) (signature_bytes-unsigned h) in
      ap (λ (r : Result S). r >>= λ t. hash.final t size)
        (ap (λ t. hash.update s t >>= update_zeroes hash signature_room) front
          ∙ ap (λ k. hash.update s (signed_bytes h) >>= k)
              (fun_ext (update_zeroes-replicate signature_room))
          ∙ sym (streaming.update-append s (signed_bytes h) (replicate signature_room 0))
          ∙ ap (hash.update s) (sym all))

  -- With a streaming hash, the header hash is the hash of the 4096 bytes of the header with a signature of
  -- zeroes and size 0, so it does not depend on the signature. An error of `bpak_hash_update` or
  -- `bpak_hash_final` is not returned: there is no hash then.
  pub compute_header_hash_lem :
      (h : Header) (size : ℕ)
      → IsPacked h
      → compute_header_hash hash h size ≡ (
          hash.init h.hash_kind >>= λ s.
          elim (hash.update s (header_bytes (unsigned h)) >>= λ t. hash.final t size) [
            | err e ↦ ok none
            | ok digest ↦ ok (some digest)
          ])
  unfolding compute_header_hash written
  compute_header_hash_lem h size packed =
      ap (λ (k : S → Result (Option (List ℕ))). hash.init h.hash_kind >>= k)
        (fun_ext λ s. ap written (hash_header-unsigned h size s packed))
