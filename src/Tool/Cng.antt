-- ===== src/Tool/Cng.antt =====
-- tools/decrypt_state_bundle.py: the decryption by bcrypt.dll of Windows, with the calls that it makes
-- of the library. What each call gives is an argument; a call that fails gives a status other than 0.
pub mod Handles
use py_auth.Prelude.{
  ℕ, ◌+◌, ◌-◌, Bool, true, false, not, ◌||◌, Option, none, some, List, [], ◌∷◌, length, take, drop,
  ltb, ◌==◌, if◌then◌else◌,
}
use py_auth.Client.Storage.{nonce_len}

abbrev pub tag_len : ℕ
tag_len = 16

-- What is there, and what the calls give: whether the library is found, whether the provider is
-- opened and takes the mode, the length of a key object, whether a key is made, and the decryption
-- of a key, a nonce, a cipher text and a tag.
pub record Bcrypt : Type 0 where
  pub is_windows : Bool
  pub is_found : Bool
  pub opens : Bool
  pub takes_mode : Bool
  pub object_length : Option ℕ
  pub makes_key : ℕ → List ℕ → Bool
  pub decrypts : List ℕ → List ℕ → List ℕ → List ℕ → Option (List ℕ)

-- the calls, with whether they succeed where the code asks
pub data Call : Type 0 where
  open_algorithm : Bool → Call
  set_property : Call
  get_property : Call
  generate_key : Bool → Call
  decrypt : Call
  destroy_key : Call
  close_algorithm : Call

-- from the key on
unfoldable pub with_key : Bcrypt → List ℕ → List ℕ → List ℕ → List ℕ → Option (List ℕ) × List Call
with_key b key nonce ciphertext tag =
    (b.decrypts key nonce ciphertext tag, decrypt ∷ destroy_key ∷ close_algorithm ∷ [])

-- from the length of a key object on
unfoldable pub with_length :
    Bcrypt → ℕ → List ℕ → List ℕ → List ℕ → List ℕ → Option (List ℕ) × List Call
unfolding with_key
with_length b size key nonce ciphertext tag =
    let (plain, calls) = with_key b key nonce ciphertext tag in
    if b.makes_key size key
    then (plain, generate_key true ∷ calls)
    else (none, generate_key false ∷ close_algorithm ∷ [])

-- from the open provider on
unfoldable pub with_algorithm :
    Bcrypt → List ℕ → List ℕ → List ℕ → List ℕ → Option (List ℕ) × List Call
unfolding with_length
with_algorithm b key nonce ciphertext tag =
    let measured : Option (List ℕ) × List Call = elim b.object_length [
      | none ↦ (none, get_property ∷ close_algorithm ∷ [])
      | some size ↦
          let (plain, calls) = with_length b size key nonce ciphertext tag in
          (plain, get_property ∷ calls)
    ] in
    if b.takes_mode
    then (measured.0, set_property ∷ measured.1)
    else (none, set_property ∷ close_algorithm ∷ [])

-- `body[:-_TAG_LEN]` and `body[-_TAG_LEN:]`, of a body that is long enough
abbrev pub without_tag : List ℕ → List ℕ
without_tag body = take (length body - tag_len) body

abbrev pub tag_of : List ℕ → List ℕ
tag_of body = drop (length body - tag_len) body

-- `_decrypt_aes_gcm_windows_cng`, and the calls that it made
unfoldable pub decrypt_aes_gcm_windows_cng : Bcrypt → List ℕ → List ℕ → Option (List ℕ) × List Call
unfolding with_algorithm
decrypt_aes_gcm_windows_cng b raw key =
    let body = drop nonce_len raw in
    let (plain, calls) =
      with_algorithm b key (take nonce_len raw) (without_tag body) (tag_of body) in
    if not b.is_windows
    then (none, [])
    else if not (length key == 32) || ltb (length raw) (nonce_len + tag_len + 1)
    then (none, [])
    else if ltb (length body) (tag_len + 1)
    then (none, [])
    else if not b.is_found
    then (none, [])
    else if b.opens
    then (plain, open_algorithm true ∷ calls)
    else (none, open_algorithm false ∷ [])
