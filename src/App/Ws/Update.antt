-- ===== src/App/Ws/Update.antt =====
-- What `update_device` stores.
use py_auth.Prelude.{
  ℕ, ◌+◌, String, ◌≡◌, ◌≢◌, refl, Bool, true, false, Option, none, some, length, arith, ◌is◌,
  is_iff, ◌==◌, ==_iff, find-update, update, ◌∙◌, ap,
}
use py_auth.Json.{Json, Fields, truthy, get, put, field, str, end}
use py_auth.App.Models.{Device, Db, Env, find_device, add_operation_log}
use py_auth.App.Audit
use py_auth.App.Heartbeat.{World, Network, send_all}
use py_auth.App.Ws.Act.{Act, Attempt, ok, raise, continue, ◌>>◌, commit_db, send, announce}
use py_auth.App.Ws.Values.{
  Python, device_id_of, update_of, allowed_of, request_id_of, device_response, remark_after,
  text_column,
}
use py_auth.App.Ws.Devices.{update_device, store_update, updated_device, is_no_field, change_notice}

-- what the steps behind the commit leave in the tables
announce-db : (net : Network) (message : Fields) (w : World) → (announce net message w).1.db ≡ w.db
unfolding announce send_all
announce-db net message w = ground arith

send-db :
    (net : Network) (me : ℕ) (message : Fields) (w : World) → (send net me message w).1.db ≡ w.db
unfolding send
send-db net me message w = ground arith

continue-db :
    (r : Attempt Unit) (f : Unit → Act Unit) (w : World)
    → ((v : World) → (f tt v).1.db ≡ v.db)
    → (continue r f w).1.db ≡ w.db
continue-db (ok tt) f w h = h w
continue-db (raise text) f w h = refl

pub notify-db :
    (net : Network) (me : ℕ) (reply notice : Fields) (w : World)
    → ((send net me reply >> announce net notice) w).1.db ≡ w.db
notify-db net me reply notice w =
    continue-db (send net me reply w).0 (λ _. announce net notice) (send net me reply w).1
      (announce-db net notice)
    ∙ send-db net me reply w

stored-find :
    (env : Env) (actor : String) (allowed : Fields) (remark : Option String) (device : Device)
    (db : Db) (target : String)
    → find_device target db ≡ some device
    → find_device target (store_update env actor allowed remark device db)
      ≡ some (updated_device env allowed remark device)
unfolding store_update add_operation_log find_device updated_device
stored-find env actor allowed remark device db target found =
    find-update (λ (d : Device). d.device_id is target) (λ (d : Device). d.id == device.id)
      (updated_device env allowed remark) db.devices device (λ d. refl) found
      ((==_iff device.id device.id).1 refl)

logs-store_update :
    (env : Env) (actor : String) (allowed : Fields) (remark : Option String) (device : Device)
    (db : Db)
    → length (store_update env actor allowed remark device db).logs ≡ length db.logs + 1
unfolding store_update
logs-store_update env actor allowed remark device db =
    Audit.length-add env actor "update_device" "device" (some device.device_id) (some allowed)
      (record db {
        devices =
            update (λ (d : Device). d.id == device.id) (updated_device env allowed remark)
              db.devices;
      })

allowed_remark : (raw : Fields) → get "remark" (allowed_of raw) ≡ get "remark" raw
unfolding allowed_of get put ◌is◌
allowed_remark raw = ground arith

allowed_authorized : (raw : Fields) → get "is_authorized" (allowed_of raw) ≡ get "is_authorized" raw
unfolding allowed_of get put ◌is◌
allowed_authorized raw = ground arith

remark_after-allowed :
    (py : Python) (raw : Fields) (old : Option String)
    → remark_after py (allowed_of raw) old
      ≡ elim (get "remark" raw) [ none ↦ some old | some v ↦ text_column py v ]
unfolding remark_after
remark_after-allowed py raw old = rw (remark_after, allowed_remark raw) refl

-- The tables after `update_device` are those that it found or those that `store_update` makes from
-- them, whatever is sent and to whom.
pub update_device-db :
    (py : Python) (env : Env) (net : Network) (actor : String) (me : ℕ) (message : Fields)
    (w : World) (raw : Fields) (device : Device) (remark : Option String)
    → device_id_of py message ≢ ""
    → update_of message ≡ some raw
    → is_no_field (allowed_of raw) ≡ false
    → find_device (device_id_of py message) w.db ≡ some device
    → elim (get "remark" raw) [ none ↦ some device.remark | some v ↦ text_column py v ]
      ≡ some remark
    → env.commit_ok ≡ true
    → (update_device py env net actor me message w).1.db
      ≡ store_update env actor (allowed_of raw) remark device w.db
unfolding update_device commit_db
update_device-db py env net actor me message w raw device remark named sent some_field found kept
      committed =
    ground (
      arith,
      is_iff (device_id_of py message) "",
      remark_after-allowed py raw device.remark ∙ kept,
      notify-db net me
          (field "type" (str "device_updated") (
            field "request_id" (request_id_of message) (
              field "device"
                (device_response py (updated_device env (allowed_of raw) remark device)) end)))
          (change_notice "updated" (device_id_of py message))
          (record w { db = store_update env actor (allowed_of raw) remark device w.db }),
    )

pub update_device-find :
    (py : Python) (env : Env) (net : Network) (actor : String) (me : ℕ) (message : Fields)
    (w : World) (raw : Fields) (device : Device) (remark : Option String)
    → device_id_of py message ≢ ""
    → update_of message ≡ some raw
    → is_no_field (allowed_of raw) ≡ false
    → find_device (device_id_of py message) w.db ≡ some device
    → elim (get "remark" raw) [ none ↦ some device.remark | some v ↦ text_column py v ]
      ≡ some remark
    → env.commit_ok ≡ true
    → (d : Device) × (find_device
          (device_id_of py message)
          (update_device py env net actor me message w).1.db
        ≡ some d)
      × (d.is_authorized
          ≡ elim (get "is_authorized" raw) [ none ↦ device.is_authorized | some v ↦ truthy v ])
      × (d.remark ≡ remark)
      × (d.updated_at ≡ env.now)
      × (d.created_at ≡ device.created_at)
      × (d.software_name ≡ device.software_name)
      × (d.device_info ≡ device.device_info)
      × (length (update_device py env net actor me message w).1.db.logs ≡ length w.db.logs + 1)
update_device-find py env net actor me message w raw device remark named sent some_field found kept
      committed =
    rw
      (update_device-db py env net actor me message w raw device remark named sent some_field found
        kept committed)
      (
        updated_device env (allowed_of raw) remark device,
        stored-find env actor (allowed_of raw) remark device w.db (device_id_of py message) found,
        unfold updated_device in
            ap
              (λ (o : Option Json). elim o as (λ _. Bool) [
                | none ↦ device.is_authorized
                | some v ↦ truthy v
              ])
              (allowed_authorized raw),
        unfold updated_device in refl,
        unfold updated_device in refl,
        unfold updated_device in refl,
        unfold updated_device in refl,
        unfold updated_device in refl,
        logs-store_update env actor (allowed_of raw) remark device w.db,
      )
