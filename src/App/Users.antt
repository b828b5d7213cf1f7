-- ===== src/App/Users.antt =====
-- app/routers/user.py: `/api/user`: login, the current user, token check, change of password.
pub mod Login
use py_auth.Prelude.{
  ℕ, ◌*◌, String, Bool, true, not, Option, none, some, update, ◌==◌, ◌is◌, if◌then◌else◌,
}
use py_auth.Json.{str, end, field}
use py_auth.App.Models.{User, Db, Env, Response, done, fail, commit, add_operation_log}
use py_auth.App.Services.{Services}
use py_auth.App.Auth.{authenticate_user, create_access_token}
use py_auth.App.Deps.{as_user}

pub record TokenResponse : Type 0 where
  pub access_token : String
  pub username : String
  pub is_admin : Bool

unfoldable pub token_response : Services → ℕ → ℕ → User → TokenResponse
unfolding create_access_token
token_response sv minutes now user = record {
  access_token =
      create_access_token sv minutes now (field "sub" (str user.username) end)
        (some (minutes * 60));
  username = user.username;
  is_admin = user.is_admin;
}

unfoldable pub login : Services → ℕ → ℕ → Db → String → String → Response TokenResponse
unfolding authenticate_user token_response
login sv minutes now db username password = elim (authenticate_user sv db username password) [
  | none ↦ fail 401 "用户名或密码错误"
  | some user ↦
      if not user.is_active then fail 403 "用户已被禁用" else done (token_response sv minutes now user)
]

unfoldable pub get_me : Services → Env → Option String → Db → Response User × Db
unfolding as_user
get_me sv env credentials db = as_user sv env.now credentials db λ user. (done user, db)

pub record Verified : Type 0 where
  pub valid : Bool
  pub username : String
  pub is_admin : Bool

unfoldable pub verify_token_endpoint : Services → Env → Option String → Db → Response Verified × Db
unfolding as_user
verify_token_endpoint sv env credentials db =
    as_user sv env.now credentials db λ user.
      (done (record { valid = true; username = user.username; is_admin = user.is_admin }), db)

-- the row of a user whose password is changed; `updated_at` is set by `onupdate`
unfoldable pub with_password : Services → Env → String → User → User
with_password sv env password user = record user {
  password_hash = sv.hash env.salt password;
  updated_at = env.now;
}

unfoldable pub change_password_of :
    Services → Env → String → String → Db → User → Response String × Db
unfolding with_password add_operation_log
change_password_of sv env old_password new_password db user =
    if not (sv.verify old_password user.password_hash)
    then (fail 400 "旧密码错误", db)
    else if old_password is new_password
    then (fail 400 "新密码不能与旧密码相同", db)
    else commit env db
        (add_operation_log env user.username "change_password" "user" (some user.username) none
          (record db {
            users =
                update (λ (u : User). u.id == user.id) (with_password sv env new_password) db.users;
          }))
        "密码更改成功"

unfoldable pub change_password :
    Services → Env → Option String → String → String → Db → Response String × Db
unfolding as_user change_password_of
change_password sv env credentials old_password new_password db =
    as_user sv env.now credentials db (change_password_of sv env old_password new_password db)
