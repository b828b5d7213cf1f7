-- ===== src/Client/Cache.antt =====
-- client/python/py_auth_client/auth_client.py: `AuthCache`, the cached authorization of one product
-- in the state file. The methods take the file and give it back. Times are in millionths of a
-- second; a cached authorization is its time `cached_at`, since its other two entries are constant.
-- `now - cached_at < validity` is written as `now < cached_at + validity`, which no rounding of
-- floats disturbs, as natural numbers do not go below zero.
pub mod Saves
pub mod Clears
use py_auth.Prelude.{
  ℕ, suc, ◌+◌, ◌*◌, String, Bool, true, false, not, Option, none, some, List, ltb, leb,
  if◌then◌else◌, ℤ, pos, ◌is◌,
}
use py_auth.Text.{strip}
use py_auth.Json.{
  Json, Fields, null, int, float, str, obj, end, field, get, put, pop, pop_all, to_int,
}
use py_auth.Client.Bundle.{
  load_apps_map, commit_apps_map, row_last_success_ts, row_device_id_str, root_stray_keys,
  product_revoke_keys, is_some,
}
use py_auth.Client.Storage.{Library, read_state_dict, write_state_dict}

pub record AuthCache : Type 0 where
  pub server_url : String
  pub software_name : String
  pub device_id : String
  pub validity : ℕ
  pub check_interval : ℕ

-- `cache_validity_days * _SECONDS_PER_DAY` and `check_interval_days * _SECONDS_PER_DAY`
unfoldable pub new_cache : String → String → String → ℕ → ℕ → AuthCache
new_cache server_url software_name device_id validity_days interval_days = record {
  server_url = server_url;
  software_name = software_name;
  device_id = device_id;
  validity = validity_days * 86400 * 1000000;
  check_interval = interval_days * 86400 * 1000000;
}

-- What one call meets: the clock, the nonces that it draws, and which attempts to write succeed.
pub record Io : Type 0 where
  pub now : ℕ
  pub nonce : ℕ → List ℕ
  pub write_ok : ℕ → Bool

abbrev pub File : Type 0
File = Option (List ℕ)

-- `_write_bundle_with_retry`: two attempts, as outside Windows, where a first one that fails deletes
-- the file
unfoldable pub write_with_retry : Library → AuthCache → Io → Fields → File → Bool × File
unfolding write_state_dict
write_with_retry lib c io d file =
    let (first, file') = write_state_dict lib c.server_url (io.nonce 0) (io.write_ok 0) d file in
    if first
    then (true, file')
    else write_state_dict lib c.server_url (io.nonce 1) (io.write_ok 1) d file'

-- a dict as the value of a key, if it is one and not empty
abbrev pub nonempty_row : Option Json → Option Fields
nonempty_row (some (obj (field k v row))) = some (field k v row)
nonempty_row _ = none

abbrev pub row_in : String → Option Fields → Option Fields
row_in name none = none
row_in name (some d) = nonempty_row (get name (load_apps_map d))

-- `_read_row`, of what `_read_full` gave
unfoldable pub read_row : Library → AuthCache → File → Option Fields
unfolding read_state_dict load_apps_map get
read_row lib c file = row_in c.software_name (read_state_dict lib c.server_url file).0

-- `_cache_dict_from_row`
unfoldable pub cache_of_row : Library → Option Fields → Option ℕ
unfolding row_last_success_ts
cache_of_row lib none = none
cache_of_row lib (some row) = row_last_success_ts lib.parse_float row

-- `get_cache`
unfoldable pub get_cache : Library → AuthCache → File → Option ℕ
unfolding read_row cache_of_row
get_cache lib c file = cache_of_row lib (read_row lib c file)

-- `_is_cache_valid_dict`
unfoldable pub is_cache_valid_dict : AuthCache → ℕ → Option ℕ → Bool
is_cache_valid_dict c now none = false
is_cache_valid_dict c now (some cached_at) =
    if ltb 0 cached_at then ltb now (cached_at + c.validity) else false

-- `is_cache_valid`
unfoldable pub is_cache_valid : Library → AuthCache → ℕ → File → Bool
unfolding get_cache is_cache_valid_dict
is_cache_valid lib c now file = is_cache_valid_dict c now (get_cache lib c file)

-- `needs_check`
unfoldable pub needs_check : Library → AuthCache → ℕ → File → Bool
unfolding get_cache
needs_check lib c now file = elim (get_cache lib c file) [
  | none ↦ true
  | some cached_at ↦ if ltb 0 cached_at then leb (cached_at + c.check_interval) now else true
]

abbrev pub or_empty : Option Fields → Fields
or_empty none = end
or_empty (some d) = d

-- `dict(apps_m.get(self._software_name, {}))`
abbrev pub dict_or_empty : Option Json → Fields
dict_or_empty (some (obj row)) = row
dict_or_empty _ = end

-- the row that `save_cache` stores for a product
unfoldable pub saved_row : AuthCache → Bool → ℕ → Option ℕ → Option Fields → Fields → Fields
unfolding put pop_all
saved_row c false ts heartbeat_times snapshot row =
    put "device_id" (str c.device_id) (pop_all product_revoke_keys row)
saved_row c true ts heartbeat_times snapshot row =
    let row' = put "last_success_at" (float (pos ts)) (put "device_id" (str c.device_id) row) in
    let counted : Fields = elim heartbeat_times [
      | none ↦ row'
      | some n ↦ put "heartbeat_times" (int (pos n)) row'
    ] in
    elim snapshot [
      | none ↦ counted
      | some end ↦ counted
      | some (field k v d) ↦ put "device_info_snapshot" (obj (field k v d)) counted
    ]

-- the root that `save_cache` writes
unfoldable pub saved_root : AuthCache → Bool → ℕ → Option ℕ → Option Fields → Fields → Fields
unfolding saved_row load_apps_map commit_apps_map pop_all put get
saved_root c authorized ts heartbeat_times snapshot root =
    let d = pop_all root_stray_keys root in
    let apps = load_apps_map d in
    let row = pop "software_name" (dict_or_empty (get c.software_name apps)) in
    commit_apps_map d
      (put c.software_name (obj (saved_row c authorized ts heartbeat_times snapshot row)) apps)

-- `save_cache` without an explicit time
unfoldable pub save_cache :
    Library → AuthCache → Io → Bool → Option ℕ → Option Fields → File → Bool × File
unfolding read_state_dict saved_root write_with_retry
save_cache lib c io authorized heartbeat_times snapshot file =
    let (state, file') = read_state_dict lib c.server_url file in
    write_with_retry lib c io
      (saved_root c authorized io.now heartbeat_times snapshot (or_empty state)) file'

-- whether some row of the map has a device identifier
unfoldable pub any_device : Fields → Bool
unfolding row_device_id_str
any_device end = false
any_device (field name (obj row) apps) =
    let rest = any_device apps in if is_some (row_device_id_str row) then true else rest
any_device (field name _ apps) = any_device apps

-- the products after `clear_cache`
unfoldable pub cleared_apps : AuthCache → Fields → Fields
unfolding pop_all pop put get
cleared_apps c apps =
    put c.software_name
      (obj (
        put "device_id" (str c.device_id) (
          pop_all product_revoke_keys
            (pop "software_name" (dict_or_empty (get c.software_name apps))))))
      apps

-- `clear_cache` behind its read: the file goes with the last device identifier
unfoldable pub clear_state : Library → AuthCache → Io → Option Fields → File → Bool × File
unfolding any_device write_with_retry load_apps_map commit_apps_map cleared_apps
clear_state lib c io none file = (true, file)
clear_state lib c io (some end) file = (true, file)
clear_state lib c io (some (field k v root)) file =
    let d = pop_all root_stray_keys (field k v root) in
    let apps = cleared_apps c (load_apps_map d) in
    if not (any_device apps)
    then (true, none)
    else write_with_retry lib c io (commit_apps_map d apps) file

-- `clear_cache`: the product's authorization goes
unfoldable pub clear_cache : Library → AuthCache → Io → File → Bool × File
unfolding read_state_dict clear_state
clear_cache lib c io file =
    let (state, file') = read_state_dict lib c.server_url file in clear_state lib c io state file'

-- `_snapshot_auth_row`: the cached time, the number of heartbeats, and the file afterwards. A row
-- with a time and without a sound number is cleared, and a file without a dict is deleted.
unfoldable pub snapshot_auth_row : Library → AuthCache → Io → File → Option ℕ × ℕ × File
unfolding read_state_dict read_row cache_of_row clear_cache to_int get
snapshot_auth_row lib c io file =
    let row = read_row lib c file in
    let file' = (read_state_dict lib c.server_url file).1 in
    elim (cache_of_row lib row) [
      | none ↦ (none, 0, file')
      | some cached_at ↦
          let count : Option ℤ = elim (get "heartbeat_times" (or_empty row)) [
            | none ↦ some (pos 0)
            | some v ↦ elim v [ null ↦ some (pos 0) | w ↦ to_int lib.parse_int w ]
          ] in
          elim count [
            | some (pos (suc n)) ↦ (some cached_at, suc n, file')
            | _ ↦ (none, 0, (clear_cache lib c io file').1)
          ]
    ]

-- `load_device_info_snapshot`; a text is read as JSON
unfoldable pub load_device_info_snapshot :
    Library → (String → Option Json) → AuthCache → File → Option Fields
unfolding read_row get
load_device_info_snapshot lib loads_text c file =
    elim (get "device_info_snapshot" (or_empty (read_row lib c file))) [
      | none ↦ none
      | some v ↦ elim v [
        | str s ↦
            if strip s is "" then none else elim (loads_text s) [ some (obj d) ↦ some d | _ ↦ none ]
        | obj d ↦ some d
        | _ ↦ none
      ]
    ]

-- `get_stored_heartbeat_times`
unfoldable pub get_stored_heartbeat_times : Library → AuthCache → Io → File → ℕ × File
unfolding snapshot_auth_row
get_stored_heartbeat_times lib c io file =
    let (cached, count, file') = snapshot_auth_row lib c io file in (count, file')

-- `update_last_check`, whose explicit time is the clock
unfoldable pub update_last_check : Library → AuthCache → Io → File → Bool × File
unfolding get_cache save_cache
update_last_check lib c io file = elim (get_cache lib c file) [
  | none ↦ (false, file)
  | some cached_at ↦ save_cache lib c io true none none file
]
