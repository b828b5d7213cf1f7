-- ===== src/Tool/Cng/Handles.antt =====
-- tools/decrypt_state_bundle.py: the handles of the provider and of the key, as the calls use them.
use py_auth.Prelude.{
  ℕ, ◌≡◌, refl, true, false, Option, none, some, List, [], ◌∷◌, length, drop, ltb, ◌==◌, Bool-cases,
  Option-cases, inl, inr, take, ◌||◌, not, if_both,
}
use py_auth.Client.Storage.{nonce_len}
use py_auth.Tool.Cng.{
  Bcrypt, Call, open_algorithm, set_property, get_property, generate_key, decrypt, destroy_key,
  close_algorithm, with_algorithm, with_length, with_key, decrypt_aes_gcm_windows_cng, without_tag,
  tag_of,
}

-- Which handles are open: none, that of the provider, or that of the provider and that of a key.
pub data Handles : Type 0 where
  closed : Handles
  provider : Handles
  keyed : Handles

-- what a call makes of the handles; `none` is a call with a handle that is not open, or one that would
-- lose an open handle
abbrev step : Call → Handles → Option Handles
step (open_algorithm true) closed = some provider
step (open_algorithm false) closed = some closed
step set_property provider = some provider
step get_property provider = some provider
step (generate_key true) provider = some keyed
step (generate_key false) provider = some provider
step decrypt keyed = some keyed
step destroy_key keyed = some provider
step close_algorithm provider = some closed
step _ _ = none

abbrev pub run : List Call → Handles → Option Handles
run [] h = some h
run (c ∷ calls) h = elim (step c h) [ none ↦ none | some h' ↦ run calls h' ]

with_length-run :
    (b : Bcrypt) (size : ℕ) (key nonce ciphertext tag : List ℕ)
    → run (with_length b size key nonce ciphertext tag).1 provider ≡ some closed
unfolding with_length with_key
with_length-run b size key nonce ciphertext tag = elim (Bool-cases (b.makes_key size key)) [
  | inl e ↦ rw e refl
  | inr e ↦ rw e refl
]

with_algorithm-run :
    (b : Bcrypt) (key nonce ciphertext tag : List ℕ)
    → run (with_algorithm b key nonce ciphertext tag).1 provider ≡ some closed
unfolding with_algorithm
with_algorithm-run b key nonce ciphertext tag = elim (Bool-cases b.takes_mode) [
  | inl e ↦ elim (Option-cases b.object_length) [
    | inl f ↦ rw (e, f) refl
    | inr (size, f) ↦ rw (e, f) (with_length-run b size key nonce ciphertext tag)
  ]
  | inr e ↦ rw e refl
]

-- a part of the calls that ends with no open handle
abbrev IsBalanced : Option (List ℕ) × List Call → Type 0
IsBalanced r = run r.1 closed ≡ some closed

-- Whatever the calls of bcrypt.dll give, each is made with handles that are open, and in the end none
-- is open: the key is destroyed and the provider is closed on every path.
pub decrypt_aes_gcm_windows_cng-run :
    (b : Bcrypt) (raw key : List ℕ)
    → run (decrypt_aes_gcm_windows_cng b raw key).1 closed ≡ some closed
unfolding decrypt_aes_gcm_windows_cng
decrypt_aes_gcm_windows_cng-run b raw key =
    let body = drop nonce_len raw in
    let opened = with_algorithm-run b key (take nonce_len raw) (without_tag body) (tag_of body) in
    if_both IsBalanced (not b.is_windows) _ _ refl (
      if_both IsBalanced (not (length key == 32) || ltb (length raw) 29) _ _ refl (
        if_both IsBalanced (ltb (length body) 17) _ _ refl (
          if_both IsBalanced (not b.is_found) _ _ refl
            (if_both IsBalanced b.opens _ _ opened refl))))
