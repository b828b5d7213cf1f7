-- ===== src/Client/Storage.antt =====
-- client/python/py_auth_client/state_bundle.py: the state file. Bytes are numbers. The file is
-- `none` where it does not exist. The Windows attribute calls are left out.
-- A file that is there can be read, and a write that fails leaves the file as it was: an error in the
-- middle of a write, which would leave a part of the new bytes, is not modelled.
pub mod Roundtrip
use py_auth.Prelude.{
  ℕ, ◌+◌, String, Bool, true, false, Option, none, some, List, [], ◌∷◌, ◌++◌, take, drop, length,
  ltb, if◌then◌else◌, ℤ,
}
use py_auth.Json.{Json, Fields, obj, pop}
use py_auth.Client.Bundle.{normalize_server_url}

-- What the client calls of `hashlib`, `cryptography` and `json`, and Python's `float` and `int` of a
-- text. `none` is an exception.
pub record Library : Type 0 where
  -- `sha256(text.encode("utf-8")).digest()`
  pub sha256 : String → List ℕ
  pub encrypt : List ℕ → List ℕ → List ℕ → List ℕ
  pub decrypt : List ℕ → List ℕ → List ℕ → Option (List ℕ)
  pub dumps : Json → Option (List ℕ)
  pub loads : List ℕ → Option Json
  pub parse_float : String → Option ℤ
  pub parse_int : String → Option ℤ

abbrev pub nonce_len : ℕ
nonce_len = 12

-- `_derive_key`
unfoldable pub derive_key : Library → String → List ℕ
unfolding normalize_server_url
derive_key lib server_url = lib.sha256 (normalize_server_url server_url)

-- a dict without the stray `device_id`; anything else is no state, and its file is deleted
unfoldable pub state_of : Json → List ℕ → Option Fields × Option (List ℕ)
unfolding pop
state_of (obj d) raw = (some (pop "device_id" d), some raw)
state_of _ raw = (none, none)

-- `read_state_dict`: the dict, and the file afterwards
unfoldable pub read_state_dict :
    Library → String → Option (List ℕ) → Option Fields × Option (List ℕ)
unfolding derive_key state_of
read_state_dict lib server_url none = (none, none)
read_state_dict lib server_url (some raw) =
    if ltb (length raw) (nonce_len + 16 + 1)
    then (none, some raw)
    else elim (lib.decrypt (derive_key lib server_url) (take nonce_len raw) (drop nonce_len raw)) [
      | none ↦ (none, some raw)
      | some plain ↦ elim (lib.loads plain) [
        | none ↦ (none, some raw)
        | some value ↦ state_of value raw
      ]
    ]

-- `write_state_dict`: whether it succeeded, and the file afterwards. `nonce` is drawn by
-- `os.urandom`, and `write_ok` is whether the operating system lets the file be written.
unfoldable pub write_state_dict :
    Library → String → List ℕ → Bool → Fields → Option (List ℕ) → Bool × Option (List ℕ)
unfolding derive_key
write_state_dict lib server_url nonce write_ok d file = elim (lib.dumps (obj d)) [
  | none ↦ (false, file)
  | some body ↦
      if write_ok
      then (true, some (nonce ++ lib.encrypt (derive_key lib server_url) nonce body))
      else (false, file)
]
