-- ===== src/App/Server/Validity.antt =====
-- The constraints of app/models.py on devices and users in every state of the server process.
use py_auth.Prelude.{
  ℕ, String, ◌≡◌, refl, Bool, true, false, Option, none, some, arith, Option-cases, Bool-cases,
  ◌is◌, ◌==◌, inl, inr, map, ltb, ◌*◌,
}
use py_auth.Json.{Fields, end, field, truthy}
use py_auth.App.Models.{
  Device, User, Db, Env, Response, done, fail, find_user, find_config, add_operation_log,
}
use py_auth.App.Services.{Services}
use py_auth.App.Auth.{decrypt_request_data, init_admin_user, create_user, new_user}
use py_auth.App.Deps.{run_with, as_user, as_admin}
use py_auth.App.Invariant.{
  IsValid, IsFresh, IsValid-same, commit-IsValid, add_user-IsValid, update_users-IsValid, user_key,
}
use py_auth.App.Heartbeat.{World, Network, heartbeat, answer, respond, send_all, process_device}
use py_auth.App.Heartbeat.Rows.{process_device-IsValid}
use py_auth.App.Users.{change_password, change_password_of, with_password}
use py_auth.App.Admin.Config.{
  update_configs, normalize, update_configs_by, store_configs, store_config,
}
use py_auth.App.Admin.Accounts.{
  update_user, delete_user, create_user_by, update_user_by, delete_user_by,
}
use py_auth.App.Admin.Accounts
use py_auth.App.Admin.Accounts.Rows.{create_user-IsValid, update_user-IsValid, delete_user-IsValid}
use py_auth.App.Admin.Logs.{cleanup_by, cleanup_operation_logs}
use py_auth.App.Ws.Session.{open_socket}
use py_auth.App.Ws.Keeps.{receive-IsValid}
use py_auth.App.Ws.Entry.{open_socket-db}
use py_auth.App.Main.{init_database}
use py_auth.App.Server.{
  Server, System, Route, put_password, put_config, post_user, put_user, remove_user, remove_logs,
  Event, starts, beats, requests, opens, sends, env_of, serve, session_of, opened, turned, handle,
  Reach, here, next,
}

run_with-IsValid {ℓ} :
    {A : Type ℓ} (r : Response User) (db : Db) (handler : User → Response A × Db)
    → IsValid db
    → ((user : User) → IsValid (handler user).1)
    → IsValid (run_with r db handler).1
unfolding run_with
run_with-IsValid (fail status detail) db handler v f = v
run_with-IsValid (done user) db handler v f = f user

change_password-IsValid :
    (sv : Services) (env : Env) (old new : String) {db : Db} (user : User)
    → IsValid db
    → IsValid (change_password_of sv env old new db user).1
unfolding change_password_of
change_password-IsValid sv env old new {db} user v =
    elim (Bool-cases (sv.verify old user.password_hash)) [
      | inr e ↦ rw (e, change_password_of) v
      | inl e ↦ elim (Bool-cases (old is new)) [
        | inl f ↦ rw (e, f, change_password_of) v
        | inr f ↦
            rw (e, f, change_password_of)
              (commit-IsValid env _ v (
                IsValid-same _
                  (update_users-IsValid v (λ (u : User). u.id == user.id) (with_password sv env new)
                    (λ u. unfold with_password in refl) (λ u. unfold with_password in refl))
                  (unfold add_operation_log in refl) (unfold add_operation_log in refl)))
      ]
    ]

pub store_configs-same :
    (configs : Fields) (db : Db)
    → ((store_configs configs db).devices ≡ db.devices)
      × ((store_configs configs db).users ≡ db.users)
unfolding store_configs store_config
store_configs-same end db = (refl, refl)
store_configs-same (field k v rest) db =
    ground (arith, store_configs-same rest (store_config k v db), Option-cases (find_config k db))

update_configs-IsValid :
    (env : Env) (configs : Fields) {db : Db} (user : User)
    → IsValid db
    → IsValid (update_configs_by env configs db user).1
unfolding update_configs_by
update_configs-IsValid env configs {db} user v = elim (Bool-cases env.commit_ok) [
  | inr e ↦ rw e v
  | inl e ↦ rw e (
      let (same_devices, same_users) = store_configs-same (normalize end configs) db in
      IsValid-same _ v (unfold add_operation_log in same_devices)
        (unfold add_operation_log in same_users))
]

cleanup-IsValid :
    (env : Env) (days : ℕ) {db : Db} (user : User)
    → IsValid db
    → IsValid (cleanup_by env days db user).1
unfolding cleanup_by
cleanup-IsValid env days {db} user v = elim (Bool-cases (ltb env.now (days * 86400))) [
  | inl e ↦ rw e v
  | inr e ↦ rw e (
      commit-IsValid env _ v
        (IsValid-same _ v (unfold add_operation_log in refl) (unfold add_operation_log in refl)))
]

init_admin_user-IsValid :
    (sv : Services) (env : Env) (name password : String) {db : Db}
    → IsFresh env
    → IsValid db
    → IsValid (init_admin_user sv env name password db).1
unfolding init_admin_user create_user
init_admin_user-IsValid sv env name password {db} fresh v =
    elim (Option-cases (find_user name db)) [
      | inr (u, e) ↦ rw (e, init_admin_user) v
      | inl e ↦
          rw (e, init_admin_user)
            (commit-IsValid env _ v (
              add_user-IsValid v (new_user sv env name password true true db) (unfold new_user in e)
                (unfold new_user in fresh (map user_key db.users))))
    ]

module _ (sv : Services) (secret : String) (cached : Option String) (env : Env)
    (net : Network) where
  pub answer-db :
      (w : World) (processed : Response (Device × Bool) × Db)
      → (answer sv secret cached net w processed).1.db ≡ processed.1
  unfolding answer respond send_all
  answer-db w (fail status detail, db) = refl
  answer-db w (done (device, created), db) = ground arith

  heartbeat-IsValid :
      (text : String) (w : World)
      → IsFresh env
      → IsValid w.db
      → IsValid (heartbeat sv secret cached env net text w).1.db
  unfolding heartbeat
  heartbeat-IsValid text w fresh v =
      elim (Option-cases (decrypt_request_data sv secret cached text)) [
        | inl e ↦ rw (e, heartbeat) v
        | inr (payload, e) ↦ elim (Bool-cases (truthy payload)) [
          | inr f ↦ rw (e, f, heartbeat) v
          | inl f ↦ elim (Option-cases (sv.device_auth_request payload)) [
            | inl g ↦ rw (e, f, g, heartbeat) v
            | inr (request, g) ↦
                rw (e, f, g, heartbeat)
                  (rw (answer-db w (process_device env request w.db))
                    (process_device-IsValid env request fresh v))
          ]
        ]
      ]

serve-IsValid :
    (s : Server) (env : Env) (credentials : Option String) (route : Route) {db : Db}
    → IsFresh env
    → IsValid db
    → IsValid (serve s env credentials route db)
unfolding serve change_password update_configs Accounts.create_user update_user delete_user
    cleanup_operation_logs as_user as_admin
serve-IsValid s env credentials (put_password old new) {db} fresh v =
    run_with-IsValid _ db _ v (λ u. change_password-IsValid s.services env old new u v)
serve-IsValid s env credentials (put_config configs) {db} fresh v =
    run_with-IsValid _ db _ v (λ u. update_configs-IsValid env configs u v)
serve-IsValid s env credentials (post_user new) {db} fresh v =
    run_with-IsValid _ db _ v (λ u. create_user-IsValid s.services env db u v new fresh)
serve-IsValid s env credentials (put_user user_id change) {db} fresh v =
    run_with-IsValid _ db _ v (λ u. update_user-IsValid s.services env db u v change user_id)
serve-IsValid s env credentials (remove_user user_id) {db} fresh v =
    run_with-IsValid _ db _ v (λ u. delete_user-IsValid s.services env db u v user_id)
serve-IsValid s env credentials (remove_logs days) {db} fresh v =
    run_with-IsValid _ db _ v (λ u. cleanup-IsValid env days u v)

init_database-IsValid :
    (sv : Services) (env : Env) (locked created : Bool) (name password : String) {db : Db}
    → IsFresh env
    → IsValid db
    → IsValid (init_database sv env locked created name password db)
unfolding init_database
init_database-IsValid sv env true created name password fresh v = v
init_database-IsValid sv env false false name password fresh v = v
init_database-IsValid sv env false true name password fresh v =
    init_admin_user-IsValid sv env name password fresh v

opened-IsValid :
    (me : ℕ) (t : System) (r : Option String × World)
    → IsValid r.1.db
    → IsValid (opened me t r).world.db
opened-IsValid me t (none, w) v = v
opened-IsValid me t (some actor, w) v = v

turned-IsValid :
    (me : ℕ) (t : System) (r : Bool × World) → IsValid r.1.db → IsValid (turned me t r).world.db
turned-IsValid me t (true, w) v = v
turned-IsValid me t (false, w) v = v

handle-IsValid :
    (s : Server) (e : Event) (t : System)
    → IsFresh (env_of e)
    → IsValid t.world.db
    → IsValid (handle s e t).world.db
unfolding handle
handle-IsValid s (starts env locked created) t fresh v =
    init_database-IsValid s.services env locked created s.admin_name s.admin_password fresh v
handle-IsValid s (beats env net text) t fresh v =
    heartbeat-IsValid s.services s.secret s.cipher env net text t.world fresh v
handle-IsValid s (requests env credentials route) t fresh v =
    serve-IsValid s env credentials route fresh v
handle-IsValid s (opens env net token me) t fresh v = elim (Option-cases (session_of me t)) [
  | inr (session, e) ↦ rw (e, handle) v
  | inl e ↦
      rw (e, handle)
        (opened-IsValid me t (open_socket s.python s.order s.services env net token me t.world)
          (rw (open_socket-db s.python s.order s.services env net token me t.world) v))
]
handle-IsValid s (sends env net me text) t fresh v = elim (Option-cases (session_of me t)) [
  | inl e ↦ rw (e, handle) v
  | inr (session, e) ↦
      rw (e, handle)
        (turned-IsValid me t _
          (receive-IsValid s.python s.order s.services env net session.1 me text t.world v))
]

-- In every state that the server process reaches from tables that meet the constraints, by any
-- sequence of starts, heartbeats, requests, and messages of consoles, each with any outcome of the
-- network and the database, the keys and identifiers of the devices and the keys and names of the
-- users are unique, where they were so in the tables that it started from and the database gives new
-- rows new keys.
pub Reach-IsValid :
    {s : Server} {start t : System} → IsValid start.world.db → Reach s start t → IsValid t.world.db
Reach-IsValid v here = v
Reach-IsValid {s} v (next {t} r e fresh) = handle-IsValid s e t fresh (Reach-IsValid v r)
