-- ===== src/Examples/Keys.antt =====
-- A key store with two keys of one id.
use bpak.Prelude.{◌≡◌, true, [], ◌∷◌, refl}
use bpak.Status.{ok}
use bpak.Keystore.{Key, Keystore, keystore_get, keystore_get_iff}

abbrev first_key : Key
first_key = record { kind = 2; size = 1; id = 5; rz = []; bytes = 9 ∷ [] }

abbrev store : Keystore
store = record { id = 1; verified = true; keys = first_key ∷ record first_key { kind = 3 } ∷ [] }

gets_first : keystore_get store 5 ≡ ok first_key
gets_first = (keystore_get_iff store 5 first_key).1 (refl, (0, refl, refl, tt))
