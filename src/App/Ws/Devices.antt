-- ===== src/App/Ws/Devices.antt =====
-- app/routers/ws.py: the messages `get_devices`, `update_device` and `delete_device`.
-- `order` is what the database gives for `ORDER BY` a column, ascending or not.
use py_auth.Prelude.{
  ℕ, String, Bool, true, false, not, Option, none, some, List, length, select, update, ◌==◌, ◌is◌,
  if◌then◌else◌, pos, at_least_one,
}
use py_auth.Json.{Json, Fields, int, str, arr, end, field, get, get_or, truthy}
use py_auth.Text.{lower, same_codes, codes}
use py_auth.App.Models.{Device, Db, Env, add_operation_log, find_device}
use py_auth.App.Heartbeat.{Network}
use py_auth.App.Paging.{page_of, clamp_size}
use py_auth.App.Ws.Act.{Act, ◌>>=◌, ◌>>◌, ensure, require, read_db, commit_db, send, announce}
use py_auth.App.Ws.Values.{
  Python, py_int, device_id_of, request_id_of, update_of, allowed_of, remark_after, device_response,
  device_responses,
}

pub data SortField : Type 0 where
  created_at updated_at last_check device_id software_name is_authorized : SortField

unfoldable pub sort_field : Json → SortField
sort_field (str s) =
    if s is "created_at"
    then created_at
    else if s is "updated_at"
    then updated_at
    else if s is "last_check"
    then last_check
    else if s is "device_id"
    then device_id
    else if s is "software_name"
    then software_name
    else if s is "is_authorized"
    then is_authorized
    else updated_at
sort_field _ = updated_at

-- `sort_order.lower() == "asc"`; a value that is no text has no `lower`
unfoldable pub is_ascending : Json → Option Bool
unfolding lower same_codes
is_ascending (str s) = some (same_codes (lower s) (codes "asc"))
is_ascending _ = none

module _ (py : Python) (order : SortField → Bool → List Device → List Device) where
  -- the answer to `get_devices`
  unfoldable pub devices_list : ℕ → ℕ → SortField → Bool → Json → Db → Fields
  unfolding page_of device_responses
  devices_list page page_size by ascending request_id db = field "type" (str "devices_list") (
      field "request_id" request_id (
        field "total" (int (pos (length db.devices))) (
          field "devices"
            (arr (device_responses py (page_of page page_size (order by ascending db.devices))))
            end)))

  unfoldable pub get_devices : Network → ℕ → Fields → Act Unit
  unfolding devices_list send py_int sort_field is_ascending request_id_of get_or clamp_size
  get_devices net me message = do
    page ← require (py_int py (get_or "page" (int (pos 1)) message)) "page"
    page_size ← require (py_int py (get_or "page_size" (int (pos 50)) message)) "page_size"
    ascending ← require (is_ascending (get_or "sort_order" (str "desc") message)) "sort_order"
    db ← read_db
    send net me (
        devices_list (at_least_one page) (clamp_size page_size)
          (sort_field (get_or "sort_by" (str "updated_at") message)) ascending
          (request_id_of message) db)

unfoldable pub is_no_field : Fields → Bool
is_no_field end = true
is_no_field (field _ _ _) = false

-- the row after an update by the console, with what the database makes of the remark
unfoldable pub updated_device : Env → Fields → Option String → Device → Device
unfolding get truthy
updated_device env allowed remark device = record device {
  remark = remark;
  is_authorized = elim (get "is_authorized" allowed) [
    | none ↦ device.is_authorized
    | some v ↦ truthy v
  ];
  updated_at = env.now;
  created_at = device.created_at;
}

-- the tables that `update_device` commits
unfoldable pub store_update : Env → String → Fields → Option String → Device → Db → Db
unfolding updated_device add_operation_log
store_update env actor allowed remark device db =
    add_operation_log env actor "update_device" "device" (some device.device_id) (some allowed)
      (record db {
        devices =
            update (λ (d : Device). d.id == device.id) (updated_device env allowed remark)
              db.devices;
      })

unfoldable pub change_notice : String → String → Fields
change_notice action target =
    field "type" (str "devices_changed")
      (field "action" (str action) (field "device_id" (str target) end))

-- the `try` block of `update_device`
unfoldable pub update_device : Python → Env → Network → String → ℕ → Fields → Act Unit
unfolding store_update send announce commit_db device_id_of update_of allowed_of is_no_field
    remark_after
update_device py env net actor me message = do
  ensure (not (device_id_of py message is "")) "缺少 device_id"
  raw_update ← require (update_of message) "data 格式错误"
  ensure (not (is_no_field (allowed_of raw_update))) "缺少可更新字段"
  db ← read_db
  device ← require (find_device (device_id_of py message) db) "设备不存在"
  remark ← require (remark_after py (allowed_of raw_update) device.remark) "commit failed"
  commit_db env (store_update env actor (allowed_of raw_update) remark device db)
  send net me (
      field "type" (str "device_updated") (
        field "request_id" (request_id_of message) (
          field "device"
            (device_response py (updated_device env (allowed_of raw_update) remark device)) end)))
  announce net (change_notice "updated" (device_id_of py message))

-- the tables that `delete_device` commits
unfoldable pub store_delete : Env → String → String → Db → Db
unfolding add_operation_log
store_delete env actor target db =
    add_operation_log env actor "delete_device" "device" (some target) none
      (record db { devices = select (λ (d : Device). not (d.device_id is target)) db.devices })

-- how many rows a deletion by `device_id` deletes
unfoldable pub deleted_count : String → Db → ℕ
unfolding select
deleted_count target db = length (select (λ (d : Device). d.device_id is target) db.devices)

-- the `try` block of `delete_device`
unfoldable pub delete_device : Python → Env → Network → String → ℕ → Fields → Act Unit
unfolding store_delete deleted_count send announce commit_db device_id_of
delete_device py env net actor me message = do
  ensure (not (device_id_of py message is "")) "缺少 device_id"
  db ← read_db
  ensure (not (deleted_count (device_id_of py message) db == 0)) "设备不存在"
  commit_db env (store_delete env actor (device_id_of py message) db)
  send net me (
      field "type" (str "device_deleted") (
        field "request_id" (request_id_of message)
          (field "device_id" (str (device_id_of py message)) end)))
  announce net (change_notice "deleted" (device_id_of py message))
