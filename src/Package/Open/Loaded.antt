-- ===== src/Package/Open/Loaded.antt =====
-- `bpak_pkg_open` of a file that starts with a header.
use bpak.Prelude.{
  ℕ, ◌≡◌, refl, ap, ◌∙◌, ◌==◌, true, some, List, length, take, drop, length-append, arith,
}
use bpak.Run.{done, lift, ◌>>=◌}
use bpak.Status.{ok}
use bpak.Header.{Header, header_size}
use bpak.Header.Bytes.{le_bytes, signature_bytes, signed_bytes, header_bytes}
use bpak.Valid.{valid_header}
use bpak.Payload.{Hash}
use bpak.Verify.HeaderHash.{IsPacked, length-signed_bytes, length-le_bytes}
use bpak.Package.{Stdio}
use bpak.Package.Stream.{IsStream}
use bpak.Package.Extract.{Host}
use bpak.Package.Create.{seek_to}
use bpak.Package.Open.{header_of, read_header, pkg_open}
use bpak.Package.Open.Parsed.{IsInRange, header_of-header_bytes}

length-header_bytes : (h : Header) → IsPacked h → length (header_bytes h) ≡ header_size
unfolding header_bytes signature_bytes
length-header_bytes h packed = omega (
  arith,
  length-append (signed_bytes h) (signature_bytes h),
  length-append h.signature (le_bytes 2 h.signature_sz),
  length-signed_bytes h packed,
  length-le_bytes 2 h.signature_sz,
  packed.sized.signature_room,
)

module _ {W O S : Type 0} (hash : Hash S) (host : Host W) (fp : Stdio W) (bytes : W → List ℕ)
    (at : W → ℕ) (other : W → O) (stream : IsStream fp bytes at other) where
  seek_to_run :
      (offset : ℕ) (w : W)
      → (w' : W) × (seek_to fp offset w ≡ some (done tt, w'))
        × (bytes w' ≡ bytes w)
        × (at w' ≡ offset)
  unfolding seek_to
  seek_to_run offset w =
      let (found, kept, there, _) = stream.seek offset w in
      ((fp.fseek offset w).1, rw found refl, kept, there)

  -- If the file can be opened and starts with the bytes of a header that `bpak_valid_header` accepts, whose
  -- arrays have their C lengths and whose numbers fit their fields, `bpak_pkg_open` succeeds with that header,
  -- and leaves the file as it is, at its start.
  pub pkg_open-header_bytes :
      (h : Header) (filename mode : List ℕ) (w : W)
      → IsPacked h
      → IsInRange h
      → valid_header h ≡ ok tt
      → (host.fopen filename mode w).0 ≡ some fp
      → take header_size (bytes (host.fopen filename mode w).1) ≡ header_bytes h
      → (w' : W) × (pkg_open hash host filename (some mode) w ≡ some (done (fp, h), w'))
        × (bytes w' ≡ bytes (host.fopen filename mode w).1)
        × (at w' ≡ 0)
  unfolding pkg_open read_header lift
  pkg_open-header_bytes h filename mode w packed range valid opened starts =
      let w1 = (host.fopen filename mode w).1 in
      let (w2, sought, file2, start2) = seek_to_run 0 w1 in
      let (got, file3, _, _) = stream.read header_size w2 in
      let w3 = (fp.fread header_size w2).1 in
      let read : (fp.fread header_size w2).0 ≡ header_bytes h =
        got
        ∙ ap (λ k. take header_size (drop k (bytes w2))) start2
        ∙ ap (take header_size) file2
        ∙ starts in
      let long : (length (fp.fread header_size w2).0 == header_size) ≡ true =
        ground (arith, ap length read, length-header_bytes h packed) in
      let parsed : header_of (fp.fread header_size w2).0 ≡ h =
        ap header_of read ∙ header_of-header_bytes h packed range in
      let accepted : valid_header (header_of (fp.fread header_size w2).0) ≡ ok tt =
        ap valid_header parsed ∙ valid in
      let (w4, back, file4, start4) = seek_to_run 0 w3 in
      let loaded : read_header hash fp w2 ≡ some (done h, w4) =
        rw (long, read_header)
          (rw (accepted, read_header) (rw (back, ◌>>=◌) (ap (λ g. some (done g, w4)) parsed))) in
      (
        w4,
        rw (opened, pkg_open) (rw (sought, ◌>>=◌) (rw (loaded, ◌>>=◌) refl)),
        file4 ∙ file3 ∙ file2,
        start4,
      )
