-- ===== src/App/Heartbeat.antt =====
-- app/routers/auth.py: `POST /api/auth/heartbeat`. A device is registered at its first heartbeat
-- under the configured default, and refreshed at the later ones.
-- The clock is read once for a request, where the code reads it up to three times.
pub mod Rows
pub mod Replies
pub mod Progress
use py_auth.Prelude.{
  ℕ, String, Bool, true, false, not, ◌||◌, Option, none, some, List, [], ◌∷◌, ◌++◌, map, update,
  ◌==◌, ◌is◌, if◌then◌else◌,
}
use py_auth.Json.{Json, Fields, bool, str, obj, end, field, truthy, equal}
use py_auth.App.Coerce.{coerce_boolish}
use py_auth.App.Models.{
  Device, Config, Db, Env, Response, done, fail, internal_error, commit, find_device, find_config,
}
use py_auth.App.Services.{Services, DeviceAuthRequest}
use py_auth.App.Auth.{decrypt_request_data, encrypt_response_data}
use py_auth.App.Manager.{Manager, Outcome, Change, broadcast}

-- `request.software_name is not None and request.software_name != device.software_name`
unfoldable pub name_changed : Option String → Option String → Bool
name_changed none old = false
name_changed (some new) none = true
name_changed (some new) (some old) = not (new is old)

-- `request.device_info is not None and request.device_info != device.device_info`
unfoldable pub info_changed : Option Fields → Option Fields → Bool
info_changed none old = false
info_changed (some new) none = true
info_changed (some new) (some old) = not (equal (obj new) (obj old))

-- the row of a known device after a heartbeat
unfoldable pub refresh : Env → DeviceAuthRequest → Device → Device
unfolding name_changed info_changed
refresh env request device =
    let name = name_changed request.software_name device.software_name in
    let info = info_changed request.device_info device.device_info in
    record device {
      software_name = if name then request.software_name else device.software_name;
      device_info = if info then request.device_info else device.device_info;
      updated_at = if name || info then env.now else device.updated_at;
      last_check = some env.now;
    }

-- whether a new device is authorized
unfoldable pub default_authorization : Db → Bool
unfolding coerce_boolish
default_authorization db = elim (find_config "default_authorization" db) [
  | none ↦ true
  | some config ↦ coerce_boolish config.value true
]

-- the row of a new device
unfoldable pub register : Env → DeviceAuthRequest → Db → Device
unfolding default_authorization
register env request db = record {
  id = env.next_id (map (λ (d : Device). d.id) db.devices);
  device_id = request.device_id;
  software_name = request.software_name;
  device_info = request.device_info;
  remark = none;
  is_authorized = default_authorization db;
  created_at = env.now;
  updated_at = env.now;
  last_check = some env.now;
}

-- `_process_device`: the device and whether it is new
unfoldable pub process_device : Env → DeviceAuthRequest → Db → Response (Device × Bool) × Db
process_device env request db = elim (find_device request.device_id db) [
  | some device ↦
      commit env db
        (record db {
          devices = update (λ (d : Device). d.id == device.id) (refresh env request) db.devices;
        })
        (refresh env request device, false)
  | none ↦
      let device = register env request db in
      commit env db (record db { devices = db.devices ++ device ∷ [] }) (device, true)
]

-- What the server process holds: the tables, the open sockets, and the messages sent to sockets.
pub record World : Type 0 where
  pub db : Db
  pub manager : Manager
  pub sent : List (ℕ × Json)

-- What a broadcast meets: the sockets whose send succeeds, the order in which the set yields its
-- elements, and the changes that other tasks make meanwhile.
pub record Network : Type 0 where
  pub alive : ℕ → Bool
  pub order : List ℕ
  pub turns : List (List Change)

-- `device_ws_manager.broadcast(message)`: whether it raised, and the world after it
unfoldable pub send_all : Network → Fields → World → Bool × World
unfolding broadcast
send_all net message w =
    let out = broadcast net.alive net.order net.turns w.manager in
    (
      out.raised,
      record w {
        manager = out.manager;
        sent = w.sent ++ map (λ c. (c, obj message)) out.delivered;
      },
    )

unfoldable pub changed_message : String → String → Fields
changed_message action device_id =
    field "type" (str "devices_changed")
      (field "action" (str action) (field "device_id" (str device_id) end))

unfoldable pub authorization_response : Device → Fields
authorization_response device =
    field "authorized" (bool device.is_authorized)
      (field "message" (str (if device.is_authorized then "设备已授权" else "设备未授权")) end)

-- the part of `heartbeat` behind `_process_device`
unfoldable pub respond :
    Services → String → Option String → Network → Device → Bool → World → Response String × World
unfolding send_all changed_message authorization_response encrypt_response_data
respond sv secret cached net device created w =
    let (raised, w') =
      send_all net (changed_message (if created then "created" else "heartbeat") device.device_id)
        w in
    if raised
    then (internal_error, w')
    else elim (encrypt_response_data sv secret cached (authorization_response device)) [
      | none ↦ (fail 500 "加密响应失败", w')
      | some text ↦ (done text, w')
    ]

unfoldable pub answer :
    Services
    → String
    → Option String
    → Network
    → World
    → Response (Device × Bool) × Db
    → Response String × World
unfolding respond
answer sv secret cached net w (fail status detail, db) = (fail status detail, record w { db = db })
answer sv secret cached net w (done (device, created), db) =
    respond sv secret cached net device created (record w { db = db })

-- `heartbeat`. A payload that the request model refuses is answered with status 500, since the
-- model is built inside the handler.
unfoldable pub heartbeat :
    Services → String → Option String → Env → Network → String → World → Response String × World
unfolding decrypt_request_data process_device answer
heartbeat sv secret cached env net encrypted_data w =
    elim (decrypt_request_data sv secret cached encrypted_data) [
      | none ↦ (fail 403 "解密失败，无法验证设备", w)
      | some payload ↦
          if not (truthy payload)
          then (fail 403 "解密失败，无法验证设备", w)
          else elim (sv.device_auth_request payload) [
            | none ↦ (internal_error, w)
            | some request ↦ answer sv secret cached net w (process_device env request w.db)
          ]
    ]
