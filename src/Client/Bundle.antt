-- ===== src/Client/Bundle.antt =====
-- client/python/py_auth_client/state_bundle.py: the dict in the state file. Its keys are the names
-- of the products that share the file, beside some reserved ones, and its values their rows.
-- A map of products is a dict whose values are dicts.
pub mod Names
pub mod Commit
pub mod Loaded
pub mod Stored
use py_auth.Prelude.{
  ℕ, suc, String, Bool, true, false, not, ◌&&◌, ◌||◌, Option, none, some, List, [], ◌∷◌, contains,
  ◌is◌, if◌then◌else◌, ℤ, pos, negsuc,
}
use py_auth.Json.{Json, Fields, str, obj, end, field, get, put, pop, millionths}
use py_auth.Text.{strip, rstrip, is_slash}

-- `_RESERVED_ROOT_KEYS`
abbrev pub reserved_root_keys : List String
reserved_root_keys = "apps" ∷ "heartbeat_times" ∷ "device_id" ∷ "last_success_at" ∷ []

-- `BUNDLE_ROOT_STRAY_KEYS`
abbrev pub root_stray_keys : List String
root_stray_keys = "heartbeat_times" ∷ "device_id" ∷ "last_success_at" ∷ []

-- `BUNDLE_PRODUCT_REVOKE_KEYS`
abbrev pub product_revoke_keys : List String
product_revoke_keys = "heartbeat_times" ∷ "last_success_at" ∷ "device_info_snapshot" ∷ []

-- one turn of the loop of `load_apps_map`
unfoldable pub load_one : Fields → String → Json → Fields
unfolding contains strip put pop
load_one out k (obj row) =
    if contains reserved_root_keys k || strip k is ""
    then out
    else put (strip k) (obj (pop "software_name" row)) out
load_one out k _ = out

unfoldable pub load_into : Fields → Fields → Fields
unfolding load_one
load_into out end = out
load_into out (field k v root) = load_into (load_one out k v) root

unfoldable pub load_apps_map : Fields → Fields
unfolding load_into
load_apps_map root = load_into end root

abbrev pub is_dict : Json → Bool
is_dict (obj _) = true
is_dict _ = false

abbrev pub is_some {ℓ} : {A : Type ℓ} → Option A → Bool
is_some none = false
is_some (some _) = true

-- The rows of products that the map does not have are deleted.
unfoldable pub drop_stale : Fields → Fields → Fields
unfolding contains get
drop_stale apps end = end
drop_stale apps (field k v root) =
    let rest = drop_stale apps root in
    if not (contains reserved_root_keys k) && is_dict v && not (is_some (get k apps))
    then rest
    else field k v rest

unfoldable pub put_all : Fields → Fields → Fields
unfolding put
put_all root end = root
put_all root (field name row apps) = put_all (put name row root) apps

-- `commit_apps_map`: the root after it
unfoldable pub commit_apps_map : Fields → Fields → Fields
unfolding drop_stale put_all pop
commit_apps_map root apps = put_all (drop_stale apps (pop "apps" root)) apps

-- `float(v)` in millionths; `parse_float` reads a text, and `none` is an exception
unfoldable pub to_float : (String → Option ℤ) → Json → Option ℤ
unfolding millionths
to_float parse_float (str s) = parse_float s
to_float parse_float v = millionths v

-- `row_last_success_ts`: a time after 1970 in millionths of a second
unfoldable pub row_last_success_ts : (String → Option ℤ) → Fields → Option ℕ
unfolding to_float get
row_last_success_ts parse_float row = elim (get "last_success_at" row) [
  | none ↦ none
  | some v ↦ elim (to_float parse_float v) [ some (pos (suc n)) ↦ some (suc n) | _ ↦ none ]
]

-- `row_device_id_str`
unfoldable pub row_device_id_str : Fields → Option String
unfolding get strip
row_device_id_str row = elim (get "device_id" row) [
  | some (str v) ↦ if strip v is "" then none else some (strip v)
  | _ ↦ none
]

-- `_normalize_server_url`
unfoldable pub normalize_server_url : String → String
unfolding strip rstrip is_slash
normalize_server_url server_url = rstrip is_slash (strip server_url)
