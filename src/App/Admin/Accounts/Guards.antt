-- ===== src/App/Admin/Accounts/Guards.antt =====
-- app/routers/admin.py: who may use the routes for users and logs.
use py_auth.Prelude.{
  ℕ, String, ◌≡◌, refl, Bool, true, false, ◌&&◌, Option, none, some, List, arith, ℤ, if◌then◌else◌,
  Bool-cases, inl, inr,
}
use py_auth.App.Models.{User, Db, Env, OperationLog, Response, done, fail, find_user}
use py_auth.Json.{Fields}
use py_auth.App.Services.{Services}
use py_auth.App.Auth.{get_current_user, user_of_payload, verify_token, subject}
use py_auth.App.Deps.{require_admin}
use py_auth.App.Admin.Accounts.{
  UserCreate, UserUpdate, get_users, create_user, update_user, delete_user,
}
use py_auth.App.Admin.Logs.{get_operation_logs, cleanup_operation_logs}

abbrev pub with_name : Db → Option String → Option User
with_name db none = none
with_name db (some name) = find_user name db

abbrev pub with_payload : Db → Option Fields → Option User
with_payload db none = none
with_payload db (some payload) = with_name db (subject payload)

-- the user whom a token names, active or not
abbrev pub named_user : Services → ℕ → Option String → Db → Option User
named_user sv now none db = none
named_user sv now (some token) db = with_payload db (verify_token sv now token)

abbrev pub is_active_admin : Option User → Bool
is_active_admin none = false
is_active_admin (some u) = u.is_active && u.is_admin

-- an answer with an error
abbrev IsRefused : Response User → Type 0
IsRefused r = (status : ℕ) × (message : String) × (r ≡ fail status message)

IsRefused-user :
    (o : Option User)
    → is_active_admin o ≡ false
    → IsRefused (
        require_admin (elim o [
          | none ↦ fail 401 "无效的认证凭据"
          | some u ↦ if u.is_active then done u else fail 400 "用户已被禁用"
        ]))
unfolding require_admin
IsRefused-user none h = (401, "无效的认证凭据", refl)
IsRefused-user (some u) h = elim (Bool-cases u.is_active) [
  | inl e ↦ (403, "没有权限", ground arith)
  | inr e ↦ (400, "用户已被禁用", rw e refl)
]

IsRefused-name :
    (db : Db) (name : Option String)
    → is_active_admin (with_name db name) ≡ false
    → IsRefused (
        require_admin (elim name [
          | none ↦ fail 401 "无效的认证凭据"
          | some username ↦ elim (find_user username db) [
            | none ↦ fail 401 "无效的认证凭据"
            | some u ↦ if u.is_active then done u else fail 400 "用户已被禁用"
          ]
        ]))
unfolding require_admin
IsRefused-name db none h = (401, "无效的认证凭据", refl)
IsRefused-name db (some name) h = IsRefused-user (find_user name db) h

IsRefused-payload :
    (db : Db) (payload : Option Fields)
    → is_active_admin (with_payload db payload) ≡ false
    → IsRefused (require_admin (user_of_payload db payload))
unfolding require_admin user_of_payload
IsRefused-payload db none h = (401, "无效的认证凭据", refl)
IsRefused-payload db (some payload) h = IsRefused-name db (subject payload) h

refused :
    (sv : Services) (now : ℕ) (credentials : Option String) (db : Db)
    → is_active_admin (named_user sv now credentials db) ≡ false
    → IsRefused (require_admin (get_current_user sv now db credentials))
unfolding get_current_user require_admin
refused sv now none db h = (401, "无效的认证凭据", refl)
refused sv now (some token) db h = IsRefused-payload db (verify_token sv now token) h

-- Where the token is missing or does not name a user, or the user whom it names is inactive or no
-- administrator, each of the six routes for users and logs answers with one and the same error, and
-- the tables stay as they were.
pub admin_only :
    (sv : Services) (env : Env) (credentials : Option String) (db : Db)
    (newest_first : List OperationLog → List OperationLog) (page page_size : ℤ) (user_id days : ℕ)
    (new : UserCreate) (change : UserUpdate)
    → is_active_admin (named_user sv env.now credentials db) ≡ false
    → (status : ℕ) × (message : String) × (get_users sv env credentials db
        ≡ (fail status message, db))
      × (create_user sv env credentials new db ≡ (fail status message, db))
      × (update_user sv env credentials user_id change db ≡ (fail status message, db))
      × (delete_user sv env credentials user_id db ≡ (fail status message, db))
      × (get_operation_logs newest_first sv env credentials page page_size db
          ≡ (fail status message, db))
      × (cleanup_operation_logs sv env credentials days db ≡ (fail status message, db))
unfolding get_users create_user update_user delete_user get_operation_logs cleanup_operation_logs
admin_only sv env credentials db newest_first page page_size user_id days new change h =
    let (status, message, r) = refused sv env.now credentials db h in
    (status, message, rw r refl, rw r refl, rw r refl, rw r refl, rw r refl, rw r refl)

-- A user whom the check lets through is the current user, and an active administrator.
pub require_admin_done :
    (sv : Services) (now : ℕ) (db : Db) (credentials : Option String) (u : User)
    → require_admin (get_current_user sv now db credentials) ≡ done u
    → (get_current_user sv now db credentials ≡ done u) × (u.is_admin ≡ true)
unfolding require_admin
require_admin_done sv now db credentials u h = ground arith
