-- ===== src/Tool/Decrypt.antt =====
-- What the tool shows, and what the client reads from the same file.
use py_auth.Prelude.{
  ℕ, ◌+◌, String, ◌≡◌, refl, Option, none, some, List, length, ltb, take, drop, take-append-drop,
  Bool-cases, if_both, ◌++◌, ◌-◌, ◌==◌, ◌||◌, not, sym, Option-cases, inl, inr,
}
use py_auth.Json.{Json, Fields, null, bool, int, float, str, arr, obj, pop}
use py_auth.Client.Storage.{Library, derive_key, nonce_len, read_state_dict, state_of}
use py_auth.Client.Bundle.{normalize_server_url}
use py_auth.Tool.{decrypted, decrypt_raw, derive_bundle_key}
use py_auth.Tool.Cng.{
  Bcrypt, Call, tag_len, with_length, with_key, with_algorithm, without_tag, tag_of,
  decrypt_aes_gcm_windows_cng,
}
use py_auth.Tool

-- what the client makes of a value in its file
abbrev pub as_state : Option Json → Option Fields
as_state (some (obj d)) = some (pop "device_id" d)
as_state _ = none

same_key :
    (lib : Library) (server_url : String)
    → derive_bundle_key lib server_url ≡ derive_key lib server_url
unfolding derive_bundle_key derive_key Tool.normalize_server_url normalize_server_url
same_key lib server_url = refl

state_of-as_state : (v : Json) (raw : List ℕ) → (state_of v raw).0 ≡ as_state (some v)
unfolding state_of
state_of-as_state (obj d) raw = refl
state_of-as_state null raw = refl
state_of-as_state (bool b) raw = refl
state_of-as_state (int z) raw = refl
state_of-as_state (float z) raw = refl
state_of-as_state (str s) raw = refl
state_of-as_state (arr items) raw = refl

-- The two ways to decrypt agree: what bcrypt.dll gives for a cipher text and its tag, the library gives
-- for the two in a row.
pub record Agrees (lib : Library) (b : Bcrypt) : Type 0 where
  pub agrees :
      (key nonce ciphertext tag plain : List ℕ)
      → b.decrypts key nonce ciphertext tag ≡ some plain
      → lib.decrypt key nonce (ciphertext ++ tag) ≡ some plain

module _ (lib : Library) (b : Bcrypt) (a : Agrees lib b) (raw key : List ℕ) where
  -- what a part of the way through bcrypt.dll gives, the library gives
  abbrev IsRight : Option (List ℕ) × List Call → Type 0
  IsRight r =
      (plain : List ℕ)
      → r.0 ≡ some plain
      → lib.decrypt key (take nonce_len raw) (drop nonce_len raw) ≡ some plain

  refused-IsRight :
      (plain : List ℕ)
      → none ≡ some plain
      → lib.decrypt key (take nonce_len raw) (drop nonce_len raw) ≡ some plain
  refused-IsRight plain e = absurd (cc e)

  abbrev body : List ℕ
  body = drop nonce_len raw

  found-IsRight :
      (plain : List ℕ)
      → b.decrypts key (take nonce_len raw) (without_tag body) (tag_of body) ≡ some plain
      → lib.decrypt key (take nonce_len raw) (drop nonce_len raw) ≡ some plain
  found-IsRight plain e =
      let found = a.agrees key (take nonce_len raw) (without_tag body) (tag_of body) plain e in
      rw (take-append-drop (length body - tag_len) body) at found

  with_length-IsRight :
      (size : ℕ)
      → IsRight (with_length b size key (take nonce_len raw) (without_tag body) (tag_of body))
  unfolding with_length with_key
  with_length-IsRight size = elim (Bool-cases (b.makes_key size key)) [
    | inl e ↦ rw e found-IsRight
    | inr e ↦ rw e refused-IsRight
  ]

  with_algorithm-IsRight :
      IsRight (with_algorithm b key (take nonce_len raw) (without_tag body) (tag_of body))
  unfolding with_algorithm
  with_algorithm-IsRight = elim (Bool-cases b.takes_mode) [
    | inl e ↦ elim (Option-cases b.object_length) [
      | inl f ↦ rw (e, f) refused-IsRight
      | inr (size, f) ↦ rw (e, f) (with_length-IsRight size)
    ]
    | inr e ↦ rw e refused-IsRight
  ]

  cng-IsRight : IsRight (decrypt_aes_gcm_windows_cng b raw key)
  unfolding decrypt_aes_gcm_windows_cng
  cng-IsRight =
      let opened = with_algorithm-IsRight in
      let no = refused-IsRight in
      if_both IsRight (not b.is_windows) _ _ no (
        if_both IsRight (not (length key == 32) || ltb (length raw) 29) _ _ no (
          if_both IsRight (ltb (length body) 17) _ _ no
            (if_both IsRight (not b.is_found) _ _ no (if_both IsRight b.opens _ _ opened no))))

  decrypted-library :
      decrypted lib b raw key ≡ lib.decrypt key (take nonce_len raw) (drop nonce_len raw)
  unfolding decrypted
  decrypted-library = elim (Option-cases (decrypt_aes_gcm_windows_cng b raw key).0) [
    | inl e ↦ rw (decrypted, e) refl
    | inr (plain, e) ↦ rw (decrypted, e) (sym (cng-IsRight plain e))
  ]

-- On every file the tool and the client agree, where the two ways to decrypt do, and whatever the tool
-- finds of bcrypt.dll: the state that the client reads is the dict that the tool decrypts, less a
-- `device_id` at its root, and where the tool fails, or finds no dict, the client reads nothing.
pub read_state_dict-decrypt_raw :
    (lib : Library) (b : Bcrypt) (server_url : String) (raw : List ℕ)
    → Agrees lib b
    → (read_state_dict lib server_url (some raw)).0 ≡ as_state (decrypt_raw lib b server_url raw)
unfolding read_state_dict decrypt_raw
read_state_dict-decrypt_raw lib b server_url raw agrees =
    let key = derive_key lib server_url in
    let one = decrypted-library lib b agrees raw key in
    elim (Bool-cases (ltb (length raw) (nonce_len + 16 + 1))) [
      | inl e ↦ rw (same_key lib server_url, e) refl
      | inr e ↦ elim (Option-cases (lib.decrypt key (take nonce_len raw) (drop nonce_len raw))) [
        | inl f ↦ rw (same_key lib server_url, one, e, f) refl
        | inr (plain, f) ↦ elim (Option-cases (lib.loads plain)) [
          | inl g ↦ rw (same_key lib server_url, one, e, f, g) refl
          | inr (v, g) ↦ rw (same_key lib server_url, one, e, f, g) (state_of-as_state v raw)
        ]
      ]
    ]
