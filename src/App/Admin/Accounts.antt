-- ===== src/App/Admin/Accounts.antt =====
-- app/routers/admin.py: `/api/admin/users`.
-- `none` in a field of a request is an explicit null or, where the model has no default, a missing
-- field. SQLAlchemy replaces a null by the column's default in an INSERT, and a null in an UPDATE
-- of a NOT NULL column is refused when the transaction is committed.
pub mod Guards
pub mod Rows
use py_auth.Prelude.{
  ℕ, String, Bool, true, false, not, ◌&&◌, ◌||◌, Option, none, some, List, [], ◌∷◌, ◌++◌, update,
  select, ◌==◌, ◌is◌, find, if◌then◌else◌, pos,
}
use py_auth.Json.{Json, Items, Fields, bool, int, str, arr, nil, cons, end, field, null}
use py_auth.App.Models.{
  User, Db, Env, Response, done, fail, internal_error, commit, add_operation_log, find_user,
}
use py_auth.App.Services.{Services}
use py_auth.App.Auth.{new_user}
use py_auth.App.Deps.{as_admin}

pub record UserCreate : Type 0 where
  pub username : String
  pub password : String
  pub is_admin : Option Bool
  pub is_active : Option Bool

-- A field that was not sent is `none`, a null is `some none`.
pub record UserUpdate : Type 0 where
  pub password : Option (Option String)
  pub is_admin : Option (Option Bool)
  pub is_active : Option (Option Bool)

abbrev pub bool_or : Bool → Option Bool → Bool
bool_or default none = default
bool_or default (some b) = b

abbrev pub json_bool : Option Bool → Json
json_bool none = null
json_bool (some b) = bool b

unfoldable pub get_users : Services → Env → Option String → Db → Response (List User) × Db
unfolding as_admin
get_users sv env credentials db = as_admin sv env.now credentials db λ _. (done db.users, db)

unfoldable pub create_user_by : Services → Env → UserCreate → Db → User → Response User × Db
unfolding new_user add_operation_log
create_user_by sv env user_data db current = elim (find_user user_data.username db) [
  | some existing ↦ (fail 400 "用户名已存在", db)
  | none ↦
      let user =
        new_user sv env user_data.username user_data.password (bool_or true user_data.is_active)
          (bool_or false user_data.is_admin) db in
      commit env db
        (add_operation_log env current.username "create_user" "user" (some user_data.username)
          (some (
            field "is_admin" (json_bool user_data.is_admin)
              (field "is_active" (json_bool user_data.is_active) end)))
          (record db { users = db.users ++ user ∷ [] }))
        user
]

unfoldable pub create_user : Services → Env → Option String → UserCreate → Db → Response User × Db
unfolding as_admin create_user_by
create_user sv env credentials user_data db =
    as_admin sv env.now credentials db (create_user_by sv env user_data db)

unfoldable pub find_user_by_id : ℕ → Db → Option User
find_user_by_id user_id db = find (λ (u : User). u.id == user_id) db.users

-- `if user_data.password: db_user.password_hash = get_password_hash(user_data.password)`
unfoldable pub password_hash_after : Services → Env → Option (Option String) → String → String
password_hash_after sv env (some (some password)) old =
    if password is "" then old else sv.hash env.salt password
password_hash_after sv env _ old = old

abbrev pub assign : Option (Option Bool) → Bool → Bool
assign (some (some b)) old = b
assign _ old = old

-- an explicit null for a column that is NOT NULL
abbrev pub is_null : Option (Option Bool) → Bool
is_null (some none) = true
is_null _ = false

abbrev same_bool : Bool → Bool → Bool
same_bool true b = b
same_bool false b = not b

-- the row after the assignments; `onupdate` sets `updated_at` if a column has changed
unfoldable pub updated_user : Services → Env → UserUpdate → User → User
unfolding password_hash_after
updated_user sv env user_data user =
    let hash = password_hash_after sv env user_data.password user.password_hash in
    let admin = assign user_data.is_admin user.is_admin in
    let active = assign user_data.is_active user.is_active in
    record user {
      password_hash = hash;
      is_admin = admin;
      is_active = active;
      updated_at =
          if (hash is user.password_hash)
            && same_bool admin user.is_admin
            && same_bool active user.is_active
          then user.updated_at
          else env.now;
    }

add_key {ℓ} : {A : Type ℓ} → String → Option A → Items → Items
add_key name none rest = rest
add_key name (some _) rest = cons (str name) rest

-- `list(user_data.model_dump(exclude_unset=True).keys())`
unfoldable pub updated_fields : UserUpdate → Items
unfolding add_key
updated_fields user_data =
    add_key "password" user_data.password
      (add_key "is_admin" user_data.is_admin (add_key "is_active" user_data.is_active nil))

unfoldable pub update_user_by : Services → Env → ℕ → UserUpdate → Db → User → Response User × Db
unfolding updated_user updated_fields add_operation_log find_user_by_id
update_user_by sv env user_id user_data db current = elim (find_user_by_id user_id db) [
  | none ↦ (fail 404 "用户不存在", db)
  | some user ↦
      if is_null user_data.is_admin || is_null user_data.is_active
      then (internal_error, db)
      else commit env db
          (add_operation_log env current.username "update_user" "user" (some user.username)
            (some (
              field "updated_fields" (arr (updated_fields user_data))
                (field "user_id" (int (pos user_id)) end)))
            (record db {
              users =
                  update (λ (u : User). u.id == user.id) (updated_user sv env user_data) db.users;
            }))
          (updated_user sv env user_data user)
]

unfoldable pub update_user :
    Services → Env → Option String → ℕ → UserUpdate → Db → Response User × Db
unfolding as_admin update_user_by
update_user sv env credentials user_id user_data db =
    as_admin sv env.now credentials db (update_user_by sv env user_id user_data db)

unfoldable pub delete_user_by : Env → ℕ → Db → User → Response String × Db
unfolding add_operation_log find_user_by_id
delete_user_by env user_id db current =
    if current.id == user_id then (fail 400 "不能删除自己", db) else elim (find_user_by_id user_id db) [
      | none ↦ (fail 404 "用户不存在", db)
      | some user ↦
          commit env db
            (add_operation_log env current.username "delete_user" "user" (some user.username)
              (some (field "user_id" (int (pos user_id)) end))
              (record db { users = select (λ (u : User). not (u.id == user.id)) db.users }))
            "用户已删除"
    ]

unfoldable pub delete_user : Services → Env → Option String → ℕ → Db → Response String × Db
unfolding as_admin delete_user_by
delete_user sv env credentials user_id db =
    as_admin sv env.now credentials db (delete_user_by env user_id db)
