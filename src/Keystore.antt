-- ===== src/Keystore.antt =====
-- lib/keystore.c: a key is looked up in a key store, an array of pointers to keys.
pub mod Load
use native.Mathlib.Omega.{arith}
use native.Mathlib.Decide.{ℕ_discrete}
use bpak.Prelude.{
  ℕ, zero, suc, ◌≡◌, ◌≢◌, ap, ◌↔◌, Bool, true, List, [], ◌∷◌, ◌==◌, if◌then◌else◌, some, get_elem?,
  take, All, sym, ◌∙◌,
}
use bpak.Status.{Result, ok, err, failed, key_not_found}

-- `struct bpak_key`; `kind` is the number of its `enum bpak_key_kind`, `bytes` is its `data`.
pub record Key : Type 0 where
  pub kind : ℕ
  pub size : ℕ
  pub id : ℕ
  pub rz : List ℕ
  pub bytes : List ℕ

-- `struct bpak_keystore`; `no_of_keys` is the length of `keys`.
pub record Keystore : Type 0 where
  pub id : ℕ
  pub verified : Bool
  pub keys : List Key

find_key : List Key → ℕ → Result Key
find_key [] id = err key_not_found
find_key (k ∷ ks) id = let rest = find_key ks id in if k.id == id then ok k else rest

-- `bpak_keystore_get`
unfoldable pub keystore_get : Keystore → ℕ → Result Key
unfolding find_key
keystore_get ks id = if ks.verified then find_key ks.keys id else err failed

-- The key is the first with this id.
abbrev pub IsFirst : List Key → ℕ → Key → Type 0
IsFirst ks id k =
    (i : ℕ) × (get_elem? ks i ≡ some k) × (k.id ≡ id) × All (λ (t : Key). t.id ≢ id) (take i ks)

find_key-IsFirst : (ks : List Key) (id : ℕ) {k : Key} → find_key ks id ≡ ok k → IsFirst ks id k
unfolding find_key
find_key-IsFirst [] id e = cc
find_key-IsFirst (q ∷ ks) id {k} e = elim (ℕ_discrete q.id id) [
  | yes same ↦
      let first : q ≡ k = ground arith in
      (0, ap some first, ap (λ (t : Key). t.id) (sym first) ∙ same, tt)
  | no other ↦
      let (i, at, match, before) = find_key-IsFirst ks id {k = k} (ground arith) in
      (suc i, at, match, (other, before))
]

first-find_key :
    (ks : List Key) (id i : ℕ) {k : Key}
    → get_elem? ks i ≡ some k
    → k.id ≡ id
    → All (λ (t : Key). t.id ≢ id) (take i ks)
    → find_key ks id ≡ ok k
unfolding find_key
first-find_key [] id i e same before = cc
first-find_key (q ∷ ks) id zero {k} e same before =
    let first : q ≡ k = cc in
    let match : q.id ≡ id = ap (λ (t : Key). t.id) first ∙ same in ground (arith, match, first)
first-find_key (q ∷ ks) id (suc i) {k} e same (other, before) =
    ground (arith, first-find_key ks id i {k = k} e same before)

-- A key is handed out exactly if the key store is verified and it is the first with this id.
pub keystore_get_iff :
    (ks : Keystore) (id : ℕ) (k : Key)
    → (keystore_get ks id ≡ ok k) ↔ ((ks.verified ≡ true) × IsFirst ks.keys id k)
unfolding keystore_get
keystore_get_iff ks id k = (
  λ e.
      let verified : ks.verified ≡ true = ground arith in
      (verified, find_key-IsFirst ks.keys id {k = k} (ground arith)),
  λ (verified, (i, at, same, before)).
      rw verified (first-find_key ks.keys id i {k = k} at same before),
)
