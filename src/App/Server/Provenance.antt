-- ===== src/App/Server/Provenance.antt =====
-- What can change the authorization of a device.
use py_auth.Prelude.{
  ℕ, true, false, String, ◌≡◌, ◌≢◌, refl, Bool, Option, none, some, [], ◌∷◌, ◌++◌, arith,
  Option-cases, Bool-cases, inl, inr, ap, update, find-append_hit, find-update_any, if◌then◌else◌,
  ◌is◌, ◌==◌,
}
use py_auth.App.Models.{
  Device, User, Db, Env, Response, done, fail, find_device, find_user, commit, add_operation_log,
}
use py_auth.App.Services.{Services, DeviceAuthRequest}
use py_auth.App.Heartbeat.{World, Network, heartbeat, process_device, refresh, register}
use py_auth.Json.{end, truthy}
use py_auth.App.Auth.{decrypt_request_data, init_admin_user, create_user}
use py_auth.App.Deps.{run_with, as_user, as_admin}
use py_auth.App.Users.{change_password, change_password_of}
use py_auth.App.Admin.Config.{update_configs, normalize, update_configs_by}
use py_auth.App.Admin.Accounts
use py_auth.App.Admin.Accounts.{
  update_user, delete_user, create_user_by, update_user_by, delete_user_by, find_user_by_id,
}
use py_auth.App.Admin.Logs.{cleanup_operation_logs, cleanup_by}
use py_auth.App.Ws.Entry.{open_socket-db}
use py_auth.App.Ws.Session.{open_socket}
use py_auth.App.Main.{init_database}
use py_auth.App.Server.{
  Server, System, Event, Route, sends, starts, beats, requests, opens, handle, serve, put_password,
  put_config, post_user, put_user, remove_user, remove_logs, opened, session_of,
}
use py_auth.App.Server.Validity.{answer-db, store_configs-same}

-- the device that the tables held for an identifier is still there, with its authorization
abbrev pub Preserves : Db → Db → Type 0
Preserves db db' =
    (x : String) (d : Device)
    → find_device x db ≡ some d
    → (d' : Device) × (find_device x db' ≡ some d') × (d'.is_authorized ≡ d.is_authorized)

same-Preserves : (db db' : Db) → db'.devices ≡ db.devices → Preserves db db'
unfolding find_device
same-Preserves db db' same x d found = (d, rw same found, refl)

refl-Preserves : (db : Db) → Preserves db db
refl-Preserves db = same-Preserves db db refl

commit-Preserves {ℓ} :
    {A : Type ℓ} (env : Env) (old new : Db) (a : A)
    → Preserves old new
    → Preserves old (commit env old new a).1
commit-Preserves env old new a p = elim (Bool-cases env.commit_ok) [
  | inl e ↦ rw e p
  | inr e ↦ rw e (refl-Preserves old)
]

append-Preserves :
    (db : Db) (d : Device) → Preserves db (record db { devices = db.devices ++ d ∷ [] })
unfolding find_device
append-Preserves db d x old found =
    (old, find-append_hit (λ (y : Device). y.device_id is x) db.devices (d ∷ []) old found, refl)

refresh-Preserves :
    (env : Env) (request : DeviceAuthRequest) (q : Device → Bool) (db : Db)
    → Preserves db (record db { devices = update q (refresh env request) db.devices })
unfolding find_device refresh
refresh-Preserves env request q db x d found = (
  if q d then refresh env request d else d,
  find-update_any (λ (y : Device). y.device_id is x) q (refresh env request) db.devices d
      (λ y. refl) found,
  ground (arith, Bool-cases (q d)),
)

process_device-Preserves :
    (env : Env) (request : DeviceAuthRequest) (db : Db)
    → Preserves db (process_device env request db).1
unfolding process_device
process_device-Preserves env request db = elim (Option-cases (find_device request.device_id db)) [
  | inl e ↦
      rw (e, process_device)
        (commit-Preserves env db _ _ (append-Preserves db (register env request db)))
  | inr (known, e) ↦
      rw (e, process_device)
        (commit-Preserves env db _ _
          (refresh-Preserves env request (λ (d : Device). d.id == known.id) db))
]

pub heartbeat-Preserves :
    (sv : Services) (secret : String) (cached : Option String) (env : Env) (net : Network)
    (text : String) (w : World)
    → Preserves w.db (heartbeat sv secret cached env net text w).1.db
unfolding heartbeat
heartbeat-Preserves sv secret cached env net text w =
    elim (Option-cases (decrypt_request_data sv secret cached text)) [
      | inl e ↦ rw (e, heartbeat) (refl-Preserves w.db)
      | inr (payload, e) ↦ elim (Bool-cases (truthy payload)) [
        | inr f ↦ rw (e, f, heartbeat) (refl-Preserves w.db)
        | inl f ↦ elim (Option-cases (sv.device_auth_request payload)) [
          | inl g ↦ rw (e, f, g, heartbeat) (refl-Preserves w.db)
          | inr (request, g) ↦
              rw
                (
                  e,
                  f,
                  g,
                  heartbeat,
                  answer-db sv secret cached env net w (process_device env request w.db),
                )
                (process_device-Preserves env request w.db)
        ]
      ]
    ]

run_with-devices {ℓ} :
    {A : Type ℓ} (r : Response User) (db : Db) (handler : User → Response A × Db)
    → ((user : User) → (handler user).1.devices ≡ db.devices)
    → (run_with r db handler).1.devices ≡ db.devices
unfolding run_with
run_with-devices (fail status detail) db handler f = refl
run_with-devices (done user) db handler f = f user

serve-devices :
    (s : Server) (env : Env) (credentials : Option String) (route : Route) (db : Db)
    → (serve s env credentials route db).devices ≡ db.devices
unfolding serve change_password update_configs Accounts.create_user update_user delete_user
    cleanup_operation_logs as_user as_admin change_password_of update_configs_by create_user_by
    update_user_by delete_user_by cleanup_by add_operation_log
serve-devices s env credentials (put_password old new) db =
    run_with-devices _ db (change_password_of s.services env old new db) (λ u. ground arith)
serve-devices s env credentials (put_config configs) db =
    run_with-devices _ db (update_configs_by env configs db)
      (λ u. ground (arith, store_configs-same (normalize end configs) db))
serve-devices s env credentials (post_user new) db =
    run_with-devices _ db (create_user_by s.services env new db)
      (λ u. ground (arith, Option-cases (find_user new.username db)))
serve-devices s env credentials (put_user user_id change) db =
    run_with-devices _ db (update_user_by s.services env user_id change db)
      (λ u. ground (arith, Option-cases (find_user_by_id user_id db)))
serve-devices s env credentials (remove_user user_id) db =
    run_with-devices _ db (delete_user_by env user_id db)
      (λ u. ground (arith, Option-cases (find_user_by_id user_id db)))
serve-devices s env credentials (remove_logs days) db =
    run_with-devices _ db (cleanup_by env days db) (λ u. ground arith)

init_admin_user-devices :
    (sv : Services) (env : Env) (name password : String) (db : Db)
    → (init_admin_user sv env name password db).1.devices ≡ db.devices
unfolding init_admin_user create_user
init_admin_user-devices sv env name password db = ground (arith, Option-cases (find_user name db))

init_database-devices :
    (sv : Services) (env : Env) (locked created : Bool) (name password : String) (db : Db)
    → (init_database sv env locked created name password db).devices ≡ db.devices
unfolding init_database
init_database-devices sv env true created name password db = refl
init_database-devices sv env false false name password db = refl
init_database-devices sv env false true name password db =
    init_admin_user-devices sv env name password db

opened-devices :
    (s : Server) (env : Env) (net : Network) (token : String) (me : ℕ) (t : System)
    → (handle s (opens env net token me) t).world.db.devices ≡ t.world.db.devices
unfolding handle
opened-devices s env net token me t = elim (Option-cases (session_of me t)) [
  | inr (session, e) ↦ rw (e, handle) refl
  | inl e ↦
      rw (e, handle)
        (opened-same (open_socket s.python s.order s.services env net token me t.world)
          (open_socket-db s.python s.order s.services env net token me t.world))
]
  where
    opened-same :
        (r : Option String × World)
        → r.1.db ≡ t.world.db
        → (opened me t r).world.db.devices ≡ t.world.db.devices
    opened-same (none, w) same = ap (λ (db : Db). db.devices) same
    opened-same (some actor, w) same = ap (λ (db : Db). db.devices) same

-- No event but the message of a console that was let in changes the authorization of a device or
-- removes one: after a start, a heartbeat, a request to any route, or the opening of a socket,
-- whatever its outcome, every device that the tables had is there with the authorization that it had.
pub handle-Preserves :
    (s : Server) (e : Event) (t : System)
    → ((env : Env) (net : Network) (me : ℕ) (text : String) → e ≢ sends env net me text)
    → (x : String) (d : Device) → find_device x t.world.db ≡ some d
    → (d' : Device) × (find_device x (handle s e t).world.db ≡ some d')
      × (d'.is_authorized ≡ d.is_authorized)
unfolding handle
handle-Preserves s (starts env locked created) t other =
    same-Preserves t.world.db _
      (init_database-devices s.services env locked created s.admin_name s.admin_password t.world.db)
handle-Preserves s (beats env net text) t other =
    heartbeat-Preserves s.services s.secret s.cipher env net text t.world
handle-Preserves s (requests env credentials route) t other =
    same-Preserves t.world.db _ (serve-devices s env credentials route t.world.db)
handle-Preserves s (opens env net token me) t other =
    same-Preserves t.world.db _ (opened-devices s env net token me t)
handle-Preserves s (sends env net me text) t other = absurd (other env net me text refl)
