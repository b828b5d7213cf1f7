-- ===== src/App/Ws/Batch.antt =====
-- app/routers/ws.py: the message `delete_devices`.
use py_auth.Prelude.{
  ℕ, String, Bool, true, false, not, ◌&&◌, Option, none, some, List, [], ◌∷◌, ◌++◌, map, length,
  select, contains, leb, ◌is◌, if◌then◌else◌, pos,
}
use py_auth.Json.{Json, Items, Fields, null, int, str, arr, nil, cons, end, field, get_or}
use py_auth.Text.{strip}
use py_auth.App.Models.{Device, Db, Env, add_operation_log}
use py_auth.App.Heartbeat.{Network}
use py_auth.App.Ws.Act.{Act, ◌>>=◌, ◌>>◌, ensure, require, read_db, commit_db, send, announce}
use py_auth.App.Ws.Values.{Python, py_str, request_id_of}

-- The loop over the received identifiers: stripped, without empty ones, each once, in order.
unfoldable pub collect_ids : Python → List String → Items → List String
unfolding py_str strip contains
collect_ids py ids nil = ids
collect_ids py ids (cons x rest) =
    let s = strip (py_str py x) in
    collect_ids py (if not (s is "") && not (contains ids s) then ids ++ s ∷ [] else ids) rest

abbrev as_list : Json → Option Items
as_list (arr items) = some items
as_list _ = none

abbrev pub is_nil : List String → Bool
is_nil [] = true
is_nil (_ ∷ _) = false

-- the identifiers among the given ones that the table has, in the table's order
unfoldable pub existing_ids : List String → Db → List String
unfolding contains select
existing_ids ids db =
    map (λ (d : Device). d.device_id) (select (λ (d : Device). contains ids d.device_id) db.devices)

-- one audit entry for each deleted device
unfoldable pub log_deletions : Env → String → List String → Db → Db
unfolding add_operation_log
log_deletions env actor [] db = db
log_deletions env actor (did ∷ ids) db =
    log_deletions env actor ids
      (add_operation_log env actor "delete_device" "device" (some did) none db)

-- the tables that `delete_devices` commits
unfoldable pub store_deletions : Env → String → List String → Db → Db
unfolding log_deletions
store_deletions env actor ids db =
    log_deletions env actor ids
      (record db { devices = select (λ (d : Device). not (contains ids d.device_id)) db.devices })

unfoldable pub strings : List String → Items
strings [] = nil
strings (s ∷ ss) = cons (str s) (strings ss)

-- the `try` block of `delete_devices`
unfoldable pub delete_devices : Python → Env → Network → String → ℕ → Fields → Act Unit
unfolding collect_ids existing_ids store_deletions strings send announce commit_db
delete_devices py env net actor me message = do
  raw ← require (as_list (get_or "device_ids" null message)) "device_ids 须为非空数组"
  ensure (not (is_nil (collect_ids py [] raw))) "device_ids 须为非空数组"
  ensure (leb (length (collect_ids py [] raw)) 200) "一次最多删除 200 台设备"
  db ← read_db
  ensure (not (is_nil (existing_ids (collect_ids py [] raw) db))) "没有可删除的设备"
  commit_db env (store_deletions env actor (existing_ids (collect_ids py [] raw) db) db)
  send net me (
      field "type" (str "devices_deleted") (
        field "request_id" (request_id_of message) (
          field "device_ids" (arr (strings (existing_ids (collect_ids py [] raw) db))) (
            field "deleted_count" (int (pos (length (existing_ids (collect_ids py [] raw) db))))
              end))))
  announce net (
      field "type" (str "devices_changed") (
        field "action" (str "deleted")
          (field "device_ids" (arr (strings (existing_ids (collect_ids py [] raw) db))) end)))
