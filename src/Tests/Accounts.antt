-- ===== src/Tests/Accounts.antt =====
-- Runs of login, accounts, configuration and the audit log.
use py_auth.Prelude.{
  ℕ, String, ◌⊎◌, ◌+◌, ◌≡◌, ◌≢◌, [], ◌∷◌, arith, refl, true, false, none, some, length, ◌is◌, find,
  pos,
}
use py_auth.Json.{Fields, bool, str, end, field, get}
use py_auth.App.Coerce.{coerce_boolish}
use py_auth.App.Models.{User, Db, done, fail, find_user}
use py_auth.App.Auth.{verify_token, subject, get_current_user, authenticate_user, new_user}
use py_auth.App.Heartbeat.{default_authorization}
use py_auth.App.Users.{TokenResponse, login, change_password, with_password}
use py_auth.App.Users.Login.{login_token, change_password-authenticate}
use py_auth.App.Admin.Config.{configs_shown, update_configs_by}
use py_auth.App.Admin.Config.Policy.{update_configs-applied}
use py_auth.App.Admin.Accounts.{
  UserCreate, UserUpdate, create_user_by, update_user_by, delete_user_by, find_user_by_id, bool_or,
  assign, is_null, get_users, update_user, delete_user,
}
use py_auth.App.Services.{Services}
use py_auth.App.Admin.Accounts.Guards.{admin_only}
use py_auth.App.Admin.Accounts.Rows.{
  is_password, create_user_done, update_user_done, delete_user_done,
}
use py_auth.App.Admin.Logs.{get_operation_logs, cleanup_operation_logs}
use py_auth.Tests.Data.{env, services, root_user, db}

abbrev reply : TokenResponse
reply = record { access_token = "token"; username = "root"; is_admin = true }

abbrev new_admin : UserCreate
new_admin = record { username = "ann"; password = "pw"; is_admin = some true; is_active = none }

abbrev demotion : UserUpdate
demotion = record { password = none; is_admin = some (some false); is_active = none }

login_token_example :
    (user : User) × (find_user "root" db ≡ some user)
    × (services.verify "secret" user.password_hash ≡ true)
    × (reply.is_admin ≡ user.is_admin)
    × (get_current_user services 2000 db (some reply.access_token) ≡ done user)
unfolding login find_user find ◌is◌
login_token_example = login_token services 60 1000 2000 db "root" "secret" reply refl refl

change_password-authenticate_example :
    (authenticate_user services
        (change_password services env (some "token") "secret" "better" db).1
        "root"
        "better"
      ≡ some (with_password services env "better" root_user))
    × (authenticate_user services
          (change_password services env (some "token") "secret" "better" db).1
          "root"
          "secret"
        ≡ none)
unfolding change_password get_current_user ◌is◌ get find_user find
change_password-authenticate_example =
    change_password-authenticate services env (some "token") "secret" "better" db root_user "密码更改成功"
      refl refl refl refl

-- a library whose token names the member, who is inactive and no administrator
abbrev member_services : Services
member_services = record services {
  jwt_decode = λ now token. some (field "sub" (str "member") end);
}

admin_only_example :
    (status : ℕ) × (message : String) × (get_users member_services env (some "token") db
      ≡ (fail status message, db))
    × (py_auth.App.Admin.Accounts.create_user member_services env (some "token") new_admin db
        ≡ (fail status message, db))
    × (update_user member_services env (some "token") 2 demotion db ≡ (fail status message, db))
    × (delete_user member_services env (some "token") 2 db ≡ (fail status message, db))
    × (get_operation_logs (λ l. l) member_services env (some "token") (pos 1) (pos 50) db
        ≡ (fail status message, db))
    × (cleanup_operation_logs member_services env (some "token") 0 db ≡ (fail status message, db))
unfolding verify_token subject find_user find ◌is◌ get
admin_only_example =
    admin_only member_services env (some "token") db (λ l. l) (pos 1) (pos 50) 2 0 new_admin
      demotion refl

create_user_done_example :
    (find_user "ann" db ≡ none)
    × (find_user "ann" (create_user_by services env new_admin db root_user).1
        ≡ some (new_user services env "ann" "pw" true true db))
    × ((new_user services env "ann" "pw" true true db).password_hash ≡ services.hash 7 "pw")
    × ((new_user services env "ann" "pw" true true db).is_admin ≡ bool_or false (some true))
    × ((new_user services env "ann" "pw" true true db).is_active ≡ bool_or true none)
    × (length (create_user_by services env new_admin db root_user).1.logs ≡ length db.logs + 1)
unfolding create_user_by new_user find_user find ◌is◌
create_user_done_example =
    create_user_done services env new_admin db root_user
      (new_user services env "ann" "pw" true true db) refl

update_user_done_example :
    (old : User) × (find_user_by_id 1 db ≡ some old)
    × (find_user_by_id 1 (update_user_by services env 1 demotion db root_user).1
        ≡ some (record root_user { is_admin = false; updated_at = 1000 }))
    × (1 ≡ old.id)
    × ("root" ≡ old.username)
    × (false ≡ assign demotion.is_admin old.is_admin)
    × (true ≡ assign demotion.is_active old.is_active)
    × (((p : String) × (demotion.password ≡ some (some p))
          × ((p is "") ≡ false)
          × ("secret" ≡ services.hash 7 p))
        ⊎ ((is_password demotion.password ≡ false) × ("secret" ≡ old.password_hash)))
    × (is_null demotion.is_admin ≡ false)
    × (is_null demotion.is_active ≡ false)
unfolding update_user_by find ◌is◌
update_user_done_example =
    update_user_done services env demotion 1 db root_user
      (record root_user { is_admin = false; updated_at = 1000 }) refl

abbrev two_users : Db
two_users = record db { users = root_user ∷ record root_user { id = 2; username = "ann" } ∷ [] }

delete_user_done_example :
    (root_user.id ≢ 2)
    × (find_user_by_id 2 two_users ≢ none)
    × (find_user_by_id 2 (delete_user_by env 2 two_users root_user).1 ≡ none)
    × (find_user_by_id 1 (delete_user_by env 2 two_users root_user).1 ≡ find_user_by_id 1 two_users)
    × (length (delete_user_by env 2 two_users root_user).1.logs ≡ length two_users.logs + 1)
unfolding delete_user_by find
delete_user_done_example =
    delete_user_done env 2 1 two_users root_user "用户已删除" refl (λ e. absurd (omega arith))

abbrev setting : Fields
setting = field "default_authorization" (str "no") end

update_configs-applied_example :
    (default_authorization (update_configs_by env setting db root_user).1
      ≡ coerce_boolish (str "no") false)
    × (configs_shown (update_configs_by env setting db root_user).1
        ≡ field "default_authorization" (bool (coerce_boolish (str "no") false)) end)
unfolding update_configs_by get ◌is◌
update_configs-applied_example =
    update_configs-applied env setting (str "no") db root_user "配置已更新" (refl, tt) refl refl
