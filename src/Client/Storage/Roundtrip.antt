-- ===== src/Client/Storage/Roundtrip.antt =====
-- state_bundle.py: writing the state file and reading it back.
use py_auth.Prelude.{
  ℕ, ◌≤◌, String, ◌≡◌, refl, true, Option, some, List, [], ◌∷◌, ◌++◌, take, drop, length,
  length-append, arith, ap,
}
use py_auth.Json.{Fields, obj, pop}
use py_auth.Client.Storage.{
  Library, derive_key, nonce_len, read_state_dict, write_state_dict, state_of,
}

take-append : (xs ys : List ℕ) → take (length xs) (xs ++ ys) ≡ xs
take-append [] ys = refl
take-append (x ∷ xs) ys = ap (◌∷◌ x) (take-append xs ys)

drop-append : (xs ys : List ℕ) → drop (length xs) (xs ++ ys) ≡ ys
drop-append [] ys = refl
drop-append (x ∷ xs) ys = drop-append xs ys

-- What the libraries promise about one dict: the text that `json` makes of it is read back, the
-- cipher undoes itself, and its output is longer than its 16-byte tag.
pub record Faithful (lib : Library) (key nonce : List ℕ) (d : Fields) : Type 0 where
  pub body : List ℕ
  pub dumped : lib.dumps (obj d) ≡ some body
  pub loaded : lib.loads body ≡ some (obj d)
  pub deciphered : lib.decrypt key nonce (lib.encrypt key nonce body) ≡ some body
  pub tagged : 17 ≤ length (lib.encrypt key nonce body)
  pub nonce_length : length nonce ≡ nonce_len

-- A dict that was written is read back, less a key `device_id` at its root.
pub read-write :
    (lib : Library) (server_url : String) (nonce : List ℕ) (d : Fields) (file : Option (List ℕ))
    → Faithful lib (derive_key lib server_url) nonce d
    → ((write_state_dict lib server_url nonce true d file).0 ≡ true)
      × ((read_state_dict lib server_url (write_state_dict lib server_url nonce true d file).1).0
          ≡ some (pop "device_id" d))
unfolding read_state_dict write_state_dict state_of
read-write lib server_url nonce d file f =
    let key = derive_key lib server_url in
    let sealed = lib.encrypt key nonce f.body in
    let front : take nonce_len (nonce ++ sealed) ≡ nonce =
      rw (← f.nonce_length) (take-append nonce sealed) in
    let back : drop nonce_len (nonce ++ sealed) ≡ sealed =
      rw (← f.nonce_length) (drop-append nonce sealed) in
    (
      ground (arith, f.dumped),
      ground (
        arith,
        f.dumped,
        f.loaded,
        f.deciphered,
        f.tagged,
        f.nonce_length,
        front,
        back,
        length-append nonce sealed,
      ),
    )
