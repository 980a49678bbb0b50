-- ===== src/Keystore/Load.antt =====
-- lib/keystore_load_from_file.c: a key is loaded from a part of a key store's package. The parser of keys and
-- the caller's check of the header are parameters.
use bpak.Prelude.{
  ℕ, zero, Option, none, some, List, [], ◌∷◌, ltb, ◌==◌, if◌then◌else◌, length, get_or,
}
use bpak.Int.{ℤ, pos}
use bpak.Run.{Run, fail, pure, raise, lift, ◌>>=◌, ◌>>◌}
use bpak.Status.{Result, read_error, keystore_id_mismatch}
use bpak.Header.{Header, PartHeader, no_part, part_size_wo_pad}
use bpak.Meta.{get_meta}
use bpak.Part.{get_part, part_offset}
use bpak.Payload.{Hash}
use bpak.Verify.{meta_bytes}
use bpak.Transport.{le_value}
use bpak.Package.{Stdio}
use bpak.Package.Extract.{Host}
use bpak.Package.Create.{seek_to}
use bpak.Package.Open.{pkg_open}
use bpak.Keystore.{Key}

-- BPAK_ID_KEYSTORE_PROVIDER_ID
abbrev pub id_keystore_provider_id : ℕ
id_keystore_provider_id = 0xfb367d9a

-- The mode "rb".
abbrev pub read_binary : List ℕ
read_binary = 114 ∷ 98 ∷ []

-- sizeof(key_buffer)
abbrev pub key_buffer_size : ℕ
key_buffer_size = 512

module _ {W : Type 0} (parse_public_key : List ℕ → Result Key) where
  -- The key in a part: `none` is a key that is longer than the buffer.
  unfoldable pub read_key : Stdio W → Header → ℕ → PartHeader → Run W Key
  unfolding seek_to raise lift
  read_key fp h key_id p = seek_to fp (part_offset h p) >>= λ _ w.
      let key_length = part_size_wo_pad p in
      let (bytes, w') = fp.fread key_length w in
      if ltb key_buffer_size key_length
      then none
      else if length bytes == key_length
      then (lift (parse_public_key bytes) >>= λ key. pure (record key { id = key_id })) w'
      else raise read_error w'

  -- Behind the check of the header.
  unfoldable pub find_and_read : Stdio W → Header → ℕ → ℕ → Run W Key
  unfolding read_key meta_bytes le_value raise lift
  find_and_read fp h keystore_id key_id = do
    i ← lift (get_meta h id_keystore_provider_id 0)
    if le_value (meta_bytes h i 4) == keystore_id then pure tt else raise keystore_id_mismatch
    j ← lift (get_part h key_id)
    read_key fp h key_id (get_or h.parts j no_part)

  -- `bpak_keystore_load_key_from_file`; `check_header` gives 0 or the caller's return code, and is `none`
  -- where there is none.
  unfoldable pub load_key_from_file :
      {S : Type 0} → Hash S → Host W → Option (Header → ℤ) → List ℕ → ℕ → ℕ → Run W Key
  unfolding pkg_open find_and_read
  load_key_from_file hash host check_header filename keystore_id key_id =
      pkg_open hash host filename (some read_binary) >>= λ (fp, h).
      let checked : ℤ = elim check_header [ none ↦ pos 0 | some check ↦ check h ] in
      elim checked as (λ _. Run W Key) [
        | pos zero ↦ find_and_read fp h keystore_id key_id
        | rc ↦ λ w. some (fail rc, w)
      ]
