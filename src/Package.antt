-- ===== src/Package.antt =====
-- lib/pkg.c, lib/pkg_sign.c and lib/pkg_verify.c: the hashes, the signature and the header of a package file.
-- The stream and the functions of include/bpak/crypto.h are parameters.
pub mod Signed
pub mod Stream
pub mod Extract
pub mod Digest
pub mod Create
pub mod Remove
pub mod Kept
pub mod Open
pub mod Tree
use bpak.Prelude.{
  ℕ, ◌+◌, ◌%◌, ◌^◌, Bool, true, false, Option, none, some, List, [], ◌==◌, if◌then◌else◌, length,
  take, replicate, overlay,
}
use bpak.Int.{ℤ, pos}
use bpak.Run.{Rc, Run, done, fail, minus, pure, lift, raise, ◌>>=◌, ◌>>◌}
use bpak.Status.{Result, ok, err, seek_error, read_error, write_error, verify_fail}
use bpak.Header.{Header, header_size, signature_max_bytes}
use bpak.Header.Bytes.{header_bytes}
use bpak.Patch.{ReadResult}
use bpak.Payload.{Hash, compute_payload_hash}
use bpak.Verify.{hash_max_length, verify_payload}
use bpak.Verify.HeaderHash.{compute_header_hash}

-- `fseek` to an offset from the start, `fread` and `fwrite` on the package's `FILE`.
pub record Stdio (W : Type 0) : Type 0 where
  pub fseek : ℕ → W → Bool × W
  pub fread : ℕ → W → List ℕ × W
  pub fwrite : List ℕ → W → ℕ × W

-- `bpak_crypto_load_private_key`, `bpak_crypto_sign` with the room for the signature, and `bpak_crypto_verify`.
pub record Crypto (K : Type 0) : Type 0 where
  pub load_private_key : List ℕ → Result K
  pub sign : List ℕ → ℕ → K → ℕ → Result (List ℕ)
  pub verify : List ℕ → List ℕ → ℕ → K → Result Bool

-- The buffer for a hash behind `bpak_verify_compute_header_hash`, and the size: where no hash is written both
-- are as before.
unfoldable pub hash_output : List ℕ → Option (List ℕ) → List ℕ
hash_output buffer none = buffer
hash_output buffer (some digest) = digest

-- The header with a signature.
unfoldable pub with_signature : List ℕ → Header → Header
with_signature signature h = record h {
  signature = overlay signature (replicate signature_max_bytes 0);
  signature_sz = length signature % 2 ^ 16;
}

module _ {W : Type 0} (stdio : Stdio W) where
  -- `pkg_read_payload`, and `verify_payload_read`, which does the same.
  unfoldable pub read_payload : ℕ → ℕ → W → ReadResult × W
  unfolding minus
  read_payload offset n w =
      let (found, w') = stdio.fseek offset w in
      let (bytes, w'') = stdio.fread n w' in
      elim found as (λ _. ReadResult × W) [
        | false ↦ (record { count = minus seek_error; bytes = [] }, w')
        | true ↦ elim (length bytes == n) as (λ _. ReadResult × W) [
          | false ↦ (record { count = minus read_error; bytes = bytes }, w'')
          | true ↦ (record { count = pos n; bytes = bytes }, w'')
        ]
      ]

  -- `bpak_pkg_write_header`
  unfoldable pub write_header : Run (Header × W) (Unit {0})
  unfolding raise
  write_header (h, w) =
      let (found, w') = stdio.fseek 0 w in
      let (written, w'') = stdio.fwrite (header_bytes h) w' in
      elim found as (λ _. Option (Rc (Unit {0}) × (Header × W))) [
        | false ↦ raise seek_error (h, w')
        | true ↦
            if written == header_size then some (done tt, (h, w'')) else raise write_error (h, w'')
      ]

  -- `bpak_pkg_write_raw_signature`, with a signature that fits.
  unfoldable pub write_raw_signature : List ℕ → Run (Header × W) (Unit {0})
  unfolding with_signature write_header
  write_raw_signature signature (h, w) = write_header (with_signature signature h, w)

  module _ {S : Type 0} (hash : Hash S) where
    -- `bpak_pkg_update_hash` with `output` and `size` NULL: the payload hash is stored into the header.
    unfoldable pub update_payload_hash : Run (Header × W) (Unit {0})
    unfolding raise
    update_payload_hash (h, w) = elim (compute_payload_hash hash read_payload h header_size 64 w) [
      | none ↦ none
      | some (err e, w') ↦ raise e (h, w')
      | some (ok digest, w') ↦
          some (done tt, (record h { payload_hash = overlay digest h.payload_hash }, w'))
    ]

    -- `bpak_pkg_update_hash` with the caller's buffer: the header hash.
    unfoldable pub update_hash : List ℕ → Run (Header × W) (List ℕ)
    unfolding update_payload_hash hash_output
    update_hash buffer = update_payload_hash >>= λ _ (h, w).
        (lift (compute_header_hash hash h (length buffer)) >>= λ r. pure (hash_output buffer r))
          (h, w)

    module _ {K : Type 0} (crypto : Crypto K) where
      -- The signature of a hash into the header, and the header into the file.
      unfoldable pub sign_header : K → List ℕ → Run (Header × W) (Unit {0})
      unfolding write_raw_signature
      sign_header key digest (h, w) =
          elim (crypto.sign digest h.hash_kind key signature_max_bytes) [
            | err e ↦ raise e (record h { signature = replicate signature_max_bytes 0 }, w)
            | ok signature ↦ write_raw_signature signature (h, w)
          ]

      -- `bpak_pkg_sign`; `buffer` is what the hash buffer holds at first.
      unfoldable pub pkg_sign : List ℕ → List ℕ → Run (Header × W) (Unit {0})
      unfolding update_hash sign_header
      pkg_sign buffer key_filename = do
        digest ← update_hash buffer
        key ← lift (crypto.load_private_key key_filename)
        sign_header key digest

      -- `bpak_pkg_verify` on the header of the package.
      unfoldable pub pkg_verify : List ℕ → S → K → Header → Run W (Unit {0})
      unfolding hash_output
      pkg_verify buffer zeroed key h = do
        r ← lift (compute_header_hash hash h (length buffer))
        header_verified ←
            lift (
              crypto.verify (take h.signature_sz h.signature) (hash_output buffer r) h.hash_kind
                key)
        if header_verified then pure tt else raise verify_fail
        verify_payload hash read_payload zeroed h header_size
