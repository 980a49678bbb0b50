-- ===== src/Status.antt =====
-- include/bpak/bpak.h, `enum bpak_errors`, and `bpak_error_string` of lib/bpak.c. A function returns
-- BPAK_OK or the negated value of an error; here that is a `Result`.
use Prim.Native.String.{String}
use bpak.Prelude.{ℕ, zero, suc, ◌+◌, ◌==◌, if◌then◌else◌}
use bpak.Int.{ℤ, pos, negsuc}

pub data Error : Type 0 where
  failed not_found size_error no_space_left bad_alignment seek_error not_supported : Error
  needs_more_data write_error decompressor_error compressor_error : Error
  patch_read_origin_error patch_write_error read_error bad_magic : Error
  unsupported_hash_alg buffer_too_small file_not_found key_decode verify_fail sign_fail : Error
  unsupported_key bad_root_hash bad_payload_hash missing_meta_data : Error
  package_uuid_mismatch unsupported_compression key_not_found : Error
  keystore_id_mismatch exists : Error

-- `ok` is BPAK_OK with what the function hands out.
pub data Result {ℓ} (A : Type ℓ) : Type ℓ where
  ok : A → Result A
  err : Error → Result A

infixl 5 ◌>>=◌
abbrev pub ◌>>=◌ {ℓ κ} : {A : Type ℓ} {B : Type κ} → Result A → (A → Result B) → Result B
ok a >>= f = f a
err e >>= f = err e

-- The value of the enumerator; C returns its negation.
unfoldable pub code : Error → ℕ
code failed = 1
code not_found = 2
code size_error = 3
code no_space_left = 4
code bad_alignment = 5
code seek_error = 6
code not_supported = 7
code needs_more_data = 8
code write_error = 9
code decompressor_error = 10
code compressor_error = 11
code patch_read_origin_error = 12
code patch_write_error = 13
code read_error = 14
code bad_magic = 15
code unsupported_hash_alg = 16
code buffer_too_small = 17
code file_not_found = 18
code key_decode = 19
code verify_fail = 20
code sign_fail = 21
code unsupported_key = 22
code bad_root_hash = 23
code bad_payload_hash = 24
code missing_meta_data = 25
code package_uuid_mismatch = 26
code unsupported_compression = 27
code key_not_found = 28
code keystore_id_mismatch = 29
code exists = 30

-- The `case -n` labels of the switch.
negative_string : ℕ → String
negative_string n =
    if n == 1
    then "Failed"
    else if n == 2
    then "Not found"
    else if n == 3
    then "Size error"
    else if n == 4
    then "No space left"
    else if n == 5
    then "Bad alignment"
    else if n == 6
    then "Seek error"
    else if n == 7
    then "Not supported"
    else if n == 8
    then "Needs more data"
    else if n == 9
    then "Write error"
    else if n == 10
    then "Decompressor error"
    else if n == 11
    then "Compressor error"
    else if n == 12
    then "Patch read origin error"
    else if n == 13
    then "Patch write error"
    else if n == 14
    then "Read error"
    else if n == 15
    then "Bad magic"
    else if n == 16
    then "Unsupported hash algorithm"
    else if n == 17
    then "Buffer too small"
    else if n == 18
    then "File not found"
    else if n == 19
    then "Could not decode key"
    else if n == 20
    then "Verification failed"
    else if n == 21
    then "Signing failed"
    else if n == 22
    then "Unsupported key"
    else if n == 23
    then "Bad root hash"
    else if n == 24
    then "Bad payload hash"
    else if n == 25
    then "Missing meta data"
    else if n == 26
    then "Package UUID mismatch"
    else if n == 27
    then "Unsupported compression method"
    else if n == 28
    then "Key not found"
    else if n == 29
    then "Keystore id mismatch"
    else if n == 30
    then "Object exists"
    else "Unknown"

unfoldable pub error_string : ℤ → String
unfolding negative_string
error_string (pos zero) = "OK"
error_string (pos (suc n)) = "Unknown"
error_string (negsuc n) = negative_string (n + 1)
