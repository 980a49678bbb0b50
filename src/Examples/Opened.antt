-- ===== src/Examples/Opened.antt =====
-- Opening a package whose file starts with the sample's header.
use bpak.Prelude.{
  ℕ, zero, suc, ◌+◌, ◌≡◌, refl, true, none, some, All, List, [], ◌∷◌, ◌++◌, length, take, drop,
  replicate, arith,
}
use bpak.Run.{done}
use bpak.Status.{ok}
use bpak.Header.{init_header, header_size, no_meta, no_part}
use bpak.Header.Bytes.{header_bytes}
use bpak.Valid.{valid_header}
use bpak.Package.{Stdio}
use bpak.Package.Stream.{IsStream, place_at}
use bpak.Package.Extract.{Host}
use bpak.Package.Open.{pkg_open}
use bpak.Package.Open.Parsed.{Fits, PartFits, IsInRange}
use bpak.Package.Open.Loaded.{pkg_open-header_bytes}
use bpak.Examples.{sample}
use bpak.Examples.Payloads.{keep}
use bpak.Examples.Verified.{sample-IsPacked}

abbrev File : Type 0
File = ℕ × List ℕ

abbrev fp : Stdio File
fp = record {
  fseek = λ offset w. (true, (offset, w.1));
  fread = λ n w. (take n (drop w.0 w.1), (w.0 + length (take n (drop w.0 w.1)), w.1));
  fwrite = λ xs w. (length xs, (w.0 + length xs, place_at w.0 xs w.1));
}

fp-IsStream : IsStream {O = Unit {0}} fp (λ w. w.1) (λ w. w.0) (λ w. tt)
fp-IsStream = record {
  seek = λ o w. (refl, refl, refl, refl);
  read = λ n w. (refl, refl, refl, refl);
  write = λ xs w. (refl, refl, refl, refl);
}

abbrev host : Host File
host = record { stat = λ name w. none; fopen = λ name mode w. (some fp, (0, w.1)); stdout = fp }

free_meta-Fits : (n : ℕ) → All Fits (replicate n no_meta)
free_meta-Fits zero = tt
free_meta-Fits (suc n) =
    ((omega arith, omega arith, omega arith, omega arith, omega arith), free_meta-Fits n)

free_parts-PartFits : (n : ℕ) → All PartFits (replicate n no_part)
free_parts-PartFits zero = tt
free_parts-PartFits (suc n) = (
  (omega arith, omega arith, omega arith, omega arith, omega arith, omega arith, omega arith),
  free_parts-PartFits n,
)

sample-IsInRange : IsInRange sample
unfolding init_header
sample-IsInRange = record {
  magic = omega arith;
  pad0 = omega arith;
  meta = (
    (omega arith, omega arith, omega arith, omega arith, omega arith),
    ((omega arith, omega arith, omega arith, omega arith, omega arith), free_meta-Fits 30),
  );
  parts = (
    (omega arith, omega arith, omega arith, omega arith, omega arith, omega arith, omega arith),
    (
      (omega arith, omega arith, omega arith, omega arith, omega arith, omega arith, omega arith),
      free_parts-PartFits 30,
    ),
  );
  hash_kind = omega arith;
  signature_kind = omega arith;
  alignment = omega arith;
  key_id = omega arith;
  keystore_id = omega arith;
  signature_sz = omega arith;
}

abbrev package_file : List ℕ
package_file = header_bytes sample ++ replicate 812 7

sample_accepted : valid_header sample ≡ ok tt
unfolding valid_header init_header
sample_accepted = refl

package_starts : take header_size package_file ≡ header_bytes sample
unfolding header_bytes init_header
package_starts = refl

pkg_open-header_bytes_example :
    (w' : File) × (pkg_open keep host [] (some (114 ∷ [])) (0, package_file)
      ≡ some (done (fp, sample), w'))
    × (w'.1 ≡ package_file)
    × (w'.0 ≡ 0)
pkg_open-header_bytes_example =
    pkg_open-header_bytes keep host fp (λ w. w.1) (λ w. w.0) (λ w. tt) fp-IsStream sample []
      (114 ∷ []) (0, package_file) sample-IsPacked sample-IsInRange sample_accepted refl
      package_starts
