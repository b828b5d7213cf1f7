-- ===== src/App/Heartbeat/Rows.antt =====
-- The rows of the device table under a heartbeat.
use py_auth.Prelude.{
  ◌≡◌, refl, String, Option, Bool, true, false, none, some, [], ◌∷◌, ◌++◌, map, ◌==◌, ◌is◌, is_refl,
  find-append_none, arith, ==_iff, find-update, Option-cases, inl, inr,
}
use py_auth.App.Models.{Device, Db, Env, done, find_device}
use py_auth.App.Invariant.{
  IsValid, IsFresh, add_device-IsValid, update_devices-IsValid, commit-IsValid, device_key,
}
use py_auth.App.Services.{DeviceAuthRequest}
use py_auth.App.Heartbeat.{refresh, register, process_device, default_authorization}

-- An unknown device is registered once, authorized by the configured default, and is the device
-- that the next look-up of its identifier finds.
pub process_device-new :
    (env : Env) (request : DeviceAuthRequest) (db : Db)
    → find_device request.device_id db ≡ none
    → env.commit_ok ≡ true
    → (d : Device) × ((process_device env request db).0 ≡ done (d, true))
      × (d.is_authorized ≡ default_authorization db)
      × (find_device request.device_id (process_device env request db).1 ≡ some d)
      × ((process_device env request db).1.devices ≡ db.devices ++ d ∷ [])
unfolding process_device register find_device
process_device-new env request db missing ok = (
  register env request db,
  ground arith,
  refl,
  ground (
    arith,
    is_refl request.device_id,
    find-append_none (λ (d : Device). d.device_id is request.device_id) db.devices
        (register env request db) missing,
  ),
  ground arith,
)

registered_name :
    (env : Env) (request : DeviceAuthRequest) (db : Db)
    → (register env request db).device_id ≡ request.device_id
unfolding register
registered_name env request db = refl

-- A heartbeat keeps every key and every identifier unique, whatever its outcome.
pub process_device-IsValid :
    (env : Env) (request : DeviceAuthRequest) {db : Db}
    → IsFresh env
    → IsValid db
    → IsValid (process_device env request db).1
unfolding process_device
process_device-IsValid env request {db} fresh v =
    elim (Option-cases (find_device request.device_id db)) [
      | inl e ↦
          rw (e, process_device)
            (commit-IsValid env _ v (
              add_device-IsValid v (register env request db) (unfold register in e)
                (unfold register in fresh (map device_key db.devices))))
      | inr (device, e) ↦
          rw (e, process_device)
            (commit-IsValid env _ v (
              update_devices-IsValid v _ (refresh env request) (λ d. unfold refresh in refl)
                (λ d. unfold refresh in refl)))
    ]

find-registered :
    (env : Env) (request : DeviceAuthRequest) (db : Db) (device : Device) (created : Bool)
    → find_device request.device_id db ≡ none
    → (process_device env request db).0 ≡ done (device, created)
    → find_device request.device_id (process_device env request db).1 ≡ some device
unfolding process_device find_device
find-registered env request db device created e h = ground (
  arith,
  registered_name env request db,
  is_refl request.device_id,
  find-append_none (λ (d : Device). d.device_id is request.device_id) db.devices
      (register env request db) e,
)

find-refreshed :
    (env : Env) (request : DeviceAuthRequest) (db : Db) (old device : Device) (created : Bool)
    → find_device request.device_id db ≡ some old
    → (process_device env request db).0 ≡ done (device, created)
    → find_device request.device_id (process_device env request db).1 ≡ some device
unfolding process_device find_device
find-refreshed env request db old device created e h = ground (
  arith,
  find-update (λ (d : Device). d.device_id is request.device_id) (λ (d : Device). d.id == old.id)
      (refresh env request) db.devices old (λ d. unfold refresh in refl) e
      ((==_iff old.id old.id).1 refl),
)

-- Whether the device was known or not, the row that the heartbeat goes on with is the one that the
-- tables hold for its identifier afterwards.
pub process_device-find :
    (env : Env) (request : DeviceAuthRequest) (db : Db) (device : Device) (created : Bool)
    → (process_device env request db).0 ≡ done (device, created)
    → find_device request.device_id (process_device env request db).1 ≡ some device
unfolding process_device
process_device-find env request db device created h =
    elim (Option-cases (find_device request.device_id db)) [
      | inl e ↦ find-registered env request db device created e h
      | inr (old, e) ↦ find-refreshed env request db old device created e h
    ]

-- the name that a device has after it sent one, or none
abbrev pub sent_or : Option String → Option String → Option String
sent_or none old = old
sent_or (some new) old = some new

-- a commit that succeeds gives a device to go on with
pub process_device_committed :
    (env : Env) (request : DeviceAuthRequest) (db : Db)
    → env.commit_ok ≡ true
    → (device : Device) × (created : Bool) × ((process_device env request db).0
        ≡ done (device, created))
unfolding process_device
process_device_committed env request db ok =
    elim (Option-cases (find_device request.device_id db)) [
      | inl e ↦ (register env request db, true, ground arith)
      | inr (device, e) ↦ (refresh env request device, false, ground arith)
    ]
