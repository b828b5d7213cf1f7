-- ===== src/Tool.antt =====
-- tools/decrypt_state_bundle.py: shows what a client keeps in its state file. The comments beside the
-- times are left out. Files and environment variables are arguments.
pub mod Cng
pub mod Decrypt
pub mod Redact
pub mod Dotenv
use Prim.Native.Char.{Char, code}
use py_auth.Prelude.{
  ℕ, zero, suc, ◌+◌, ◌≤◌, String, Bool, true, false, not, ◌&&◌, ◌||◌, Option, none, some, List, [],
  ◌∷◌, ◌++◌, length, ltb, leb, ◌==◌, take, drop, ◌is◌, if◌then◌else◌,
}
use py_auth.Json.{
  Json, Items, Fields, null, bool, int, float, str, arr, obj, nil, cons, end, field, get, put,
  update_fields,
}
use py_auth.Text.{strip, lstrip, rstrip, append, has_prefix, is_slash, split_at, is_line_end}
use py_auth.Client.Storage.{Library, nonce_len}
use py_auth.Tool.Cng.{Bcrypt, tag_len, decrypt_aes_gcm_windows_cng}

-- `_normalize_server_url`
unfoldable pub normalize_server_url : String → String
unfolding strip rstrip is_slash
normalize_server_url server_url = rstrip is_slash (strip server_url)

-- `_derive_bundle_key`
unfoldable pub derive_bundle_key : Library → String → List ℕ
unfolding normalize_server_url
derive_bundle_key lib server_url = lib.sha256 (normalize_server_url server_url)

-- the plain text, by bcrypt.dll or else by the library
unfoldable pub decrypted : Library → Bcrypt → List ℕ → List ℕ → Option (List ℕ)
unfolding decrypt_aes_gcm_windows_cng
decrypted lib b raw key = elim (decrypt_aes_gcm_windows_cng b raw key).0 [
  | some plain ↦ some plain
  | none ↦ lib.decrypt key (take nonce_len raw) (drop nonce_len raw)
]

-- `_decrypt_raw`; `none` is an exception
unfoldable pub decrypt_raw : Library → Bcrypt → String → List ℕ → Option Json
unfolding derive_bundle_key decrypted
decrypt_raw lib b server_url raw =
    if ltb (length raw) (nonce_len + tag_len + 1)
    then none
    else elim (decrypted lib b raw (derive_bundle_key lib server_url)) [
      | none ↦ none
      | some plain ↦ lib.loads plain
    ]

-- `_redact_device_info_snapshots_for_display`
unfoldable mutual
  pub redact : Json → Json
  redact (obj d) = obj (redact_fields d)
  redact (arr items) = arr (redact_items items)
  redact null = null
  redact (bool b) = bool b
  redact (int z) = int z
  redact (float z) = float z
  redact (str s) = str s

  pub redact_fields : Fields → Fields
  redact_fields end = end
  redact_fields (field k v d) =
      let shown = redact v in
      let rest = redact_fields d in
      field k (if k is "device_info_snapshot" then str "HIDE" else shown) rest

  pub redact_items : Items → Items
  redact_items nil = nil
  redact_items (cons v items) = cons (redact v) (redact_items items)

abbrev is_quote : Char → Bool
is_quote c = code c == b'"'

abbrev is_apostrophe : Char → Bool
is_apostrophe c = code c == 39

abbrev both_ends : (Char → Bool) → String → String
both_ends p s = rstrip p (lstrip p s)

abbrev first_then : Char → Option (String × String) → Option (String × String)
first_then c none = none
first_then c (some (k, v)) = some (String.◌∷◌ c k, v)

-- `s.partition("=")`, if there is one
unfoldable pub partition_eq : String → Option (String × String)
partition_eq String.[] = none
partition_eq (String.◌∷◌ c s) =
    let rest = partition_eq s in if code c == b'=' then some ("", s) else first_then c rest

-- one turn of the loop of `_parse_dotenv_file`
unfoldable pub parse_line : Fields → String → Fields
unfolding strip lstrip rstrip partition_eq put has_prefix
parse_line out line =
    let s = strip line in
    if (s is "") || has_prefix s "#" then out else elim (partition_eq s) [
      | none ↦ out
      | some (k, v) ↦
          if strip k is ""
          then out
          else put (strip k) (str (both_ends is_apostrophe (both_ends is_quote (strip v)))) out
    ]

unfoldable pub parse_lines : Fields → List String → Fields
unfolding parse_line
parse_lines out [] = out
parse_lines out (line ∷ lines) = parse_lines (parse_line out line) lines

-- `_parse_dotenv_file`, of the text of the file if it can be read
unfoldable pub parse_dotenv : Option String → Fields
unfolding parse_lines split_at
parse_dotenv none = end
parse_dotenv (some text) = parse_lines end (split_at is_line_end text)

-- `_merged_dotenv`: the file of the repository, and over it that of the working directory
unfoldable pub merged_dotenv : Option String → Option String → Fields
unfolding parse_dotenv update_fields
merged_dotenv repository cwd = update_fields (parse_dotenv repository) (parse_dotenv cwd)

-- a text of the environment file, empty where it is missing; its values are texts
abbrev pub text_or : String → String → Fields → String
text_or key default d = elim (get key d) [ some (str s) ↦ s | _ ↦ default ]

abbrev first_set : (String → String) → List String → Option String
first_set environ [] = none
first_set environ (key ∷ keys) =
    let rest = first_set environ keys in
    if strip (environ key) is "" then rest else some (strip (environ key))

-- `_resolve_server_url`. `environ` gives the empty text for a variable that is not set, which
-- `os.environ.get` does here; `is_digits` is `str.isdigit`.
unfoldable pub resolve_server_url : (String → Bool) → (String → String) → Fields → String
unfolding strip normalize_server_url get
resolve_server_url is_digits environ env_file =
    elim (first_set environ ("SERVER_URL" ∷ "AUTH_SERVER_URL" ∷ "PY_AUTH_SERVER_URL" ∷ [])) [
      | some v ↦ normalize_server_url v
      | none ↦
          if strip (text_or "SERVER_URL" "" env_file) is ""
          then (let port = strip (text_or "SERVICE_PORT" (environ "SERVICE_PORT") env_file) in
              if is_digits port
              then normalize_server_url (append "http://localhost:" port)
              else normalize_server_url "http://localhost:8000")
          else normalize_server_url (strip (text_or "SERVER_URL" "" env_file))
    ]

-- How `_resolve_encrypted_path` chooses the file, and the tag that it prints.
pub data Choice : Type 0 where
  cli : String → Choice
  hash : String → Choice
  single : String → Choice
  not_found : Choice
  ambiguous : List String → Choice

abbrev of_candidates : List String → Choice
of_candidates [] = not_found
of_candidates (path ∷ []) = single path
of_candidates (path ∷ other ∷ rest) = ambiguous (path ∷ other ∷ rest)

-- `_resolve_encrypted_path`: the positional argument, the path that belongs to the address and
-- whether it exists, and the state files of the directory in order
unfoldable pub resolve_encrypted_path : Option String → String → Bool → List String → Choice
resolve_encrypted_path (some path) expected exists candidates =
    if path is "" then (if exists then hash expected else of_candidates candidates) else cli path
resolve_encrypted_path none expected exists candidates =
    if exists then hash expected else of_candidates candidates

-- The arguments of `main`: whether everything is shown, and the positional ones, or an unknown option.
unfoldable pub parse_args : Bool → List String → List String → Option (Bool × List String)
unfolding has_prefix
parse_args detail positionals [] = some (detail, positionals)
parse_args detail positionals (a ∷ argv) =
    if a is "--detail"
    then parse_args true positionals argv
    else if has_prefix a "-"
    then none
    else parse_args detail (positionals ++ a ∷ []) argv
