-- ===== src/Examples/Signatures.antt =====
-- Signing and verifying a package in a file of sevens, with keys that put their number in front.
use bpak.Prelude.{
  ℕ, ◌+◌, ◌≡◌, ◌≢◌, ◌≤◌, refl, ap, subst, length-take, true, none, some, List, [], ◌∷◌, ◌==◌,
  length, get_or, take, drop, replicate, splice, arith,
}
use bpak.Run.{done, lift}
use bpak.Patch.{is_count}
use bpak.Status.{ok, err}
use bpak.Header.{Header, init_header, header_size, signature_max_bytes, part_size}
use bpak.Header.Bytes.{header_bytes}
use bpak.Payload.{compute_payload_hash}
use bpak.Verify.{verify_payload}
use bpak.Verify.HeaderHash.{compute_header_hash, hash_header, update_zeroes}
use bpak.Package.{Stdio, Crypto, read_payload, with_signature, pkg_sign, pkg_verify}
use bpak.Package.Signed.{IsPair, pkg_verify-pkg_sign}
use bpak.Examples.{sample}
use bpak.Examples.Payloads.{keep, keep-IsStreaming}
use bpak.Examples.Verified.{sample-IsPacked}

-- A position and a file.
abbrev stdio : Stdio (ℕ × List ℕ)
stdio = record {
  fseek = λ offset w. (true, (offset, w.1));
  fread = λ n w. (take n (drop w.0 w.1), (w.0 + length (take n (drop w.0 w.1)), w.1));
  fwrite = λ bytes w. (length bytes, (w.0 + length bytes, splice w.0 bytes w.1));
}

abbrev crypto : Crypto ℕ
crypto = record {
  load_private_key = λ name. ok 5;
  sign = λ digest kind key room. ok (key ∷ take 3 digest);
  verify = λ signature digest kind key. ok (get_or signature 0 0 == key);
}

length-take_three : (xs : List ℕ) → length (take 3 xs) ≤ 3
length-take_three xs = omega (arith, length-take {0} 3 xs)

five-IsPair : IsPair stdio keep crypto 5 5
five-IsPair digest s kind e =
    let same : 5 ∷ take 3 digest ≡ s = ap (λ r. elim r [ ok t ↦ t | err x ↦ [] ]) e in
    subst (λ s. (length s ≤ signature_max_bytes) × (crypto.verify s digest kind 5 ≡ ok true)) same
      (omega (arith, length-take_three digest), refl)

keep_computes : (g : Header) → compute_header_hash keep g 64 ≢ ok none
unfolding compute_header_hash hash_header update_zeroes
keep_computes g e = absurd (cc e)

abbrev signed : Header
signed =
    with_signature (5 ∷ take 3 (header_bytes sample))
      (record sample { payload_hash = replicate 64 7 })

abbrev sevens : List ℕ
sevens = replicate 5000 7

signing_run :
    pkg_sign stdio keep crypto (replicate 64 0) [] (sample, (0, sevens))
    ≡ some (done tt, (signed, (4096, splice 0 (header_bytes signed) sevens)))
unfolding pkg_sign init_header compute_payload_hash part_size is_count read_payload lift
    compute_header_hash header_bytes splice
signing_run = refl

pkg_verify-pkg_sign_example :
    pkg_verify stdio keep crypto (replicate 64 1) [] 5 signed (0, sevens)
    ≡ verify_payload keep (read_payload stdio) [] signed header_size (0, sevens)
pkg_verify-pkg_sign_example =
    pkg_verify-pkg_sign stdio keep crypto (replicate 64 0) (replicate 64 1) [] 5 5 [] sample signed
      (0, sevens) (4096, splice 0 (header_bytes signed) sevens) (0, sevens) keep-IsStreaming
      keep_computes five-IsPair sample-IsPacked refl refl signing_run
