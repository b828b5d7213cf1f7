-- ===== src/App/Admin/Config.antt =====
-- app/routers/admin.py: `GET` and `PUT /api/admin/config`.
pub mod Policy
use py_auth.Prelude.{
  String, Bool, true, Option, none, some, List, [], ◌∷◌, ◌++◌, update, contains, ◌is◌,
  if◌then◌else◌,
}
use py_auth.Json.{Json, Fields, bool, obj, end, field, put}
use py_auth.App.Coerce.{coerce_boolish}
use py_auth.App.Models.{User, Config, Db, Env, Response, done, fail, add_operation_log, find_config}
use py_auth.App.Services.{Services}
use py_auth.App.Deps.{as_user}
use py_auth.Json
use mathlib.Core.Bool.{false}

-- `DEFAULT_CONFIGS`
abbrev pub default_configs : Fields
default_configs = field "default_authorization" (bool true) end

unfoldable pub configs_shown : Db → Fields
unfolding coerce_boolish
configs_shown db = elim (find_config "default_authorization" db) [
  | none ↦ default_configs
  | some config ↦ field "default_authorization" (bool (coerce_boolish config.value false)) end
]

unfoldable pub get_configs : Services → Env → Option String → Db → Response Fields × Db
unfolding as_user configs_shown
get_configs sv env credentials db =
    as_user sv env.now credentials db λ _. (done (configs_shown db), db)

-- one turn of the first loop: a known key, its value made Boolean
unfoldable pub normalize_one : Fields → String → Json → Fields
unfolding put coerce_boolish contains
normalize_one normalized key value =
    if contains (Json.keys default_configs) key
    then (if key is "default_authorization"
        then put key (bool (coerce_boolish value false)) normalized
        else normalized)
    else normalized

-- the first loop
unfoldable pub normalize : Fields → Fields → Fields
unfolding normalize_one
normalize normalized end = normalized
normalize normalized (field key value rest) = normalize (normalize_one normalized key value) rest

unfoldable pub store_config : String → Json → Db → Db
unfolding find_config
store_config key value db = elim (find_config key db) [
  | some config ↦ record db {
    configs =
        update (λ (c : Config). c.key is config.key) (λ (c : Config). record c { value = value })
          db.configs;
  }
  | none ↦ record db { configs = db.configs ++ (record { key = key; value = value }) ∷ [] }
]

-- the second loop
unfoldable pub store_configs : Fields → Db → Db
unfolding store_config
store_configs end db = db
store_configs (field key value rest) db = store_configs rest (store_config key value db)

unfoldable pub update_configs_by : Env → Fields → Db → User → Response String × Db
unfolding normalize store_configs add_operation_log
update_configs_by env configs db user =
    let normalized = normalize end configs in
    let db' =
      add_operation_log env user.username "update_config" "config" none
        (some (field "configs" (obj normalized) end)) (store_configs normalized db) in
    if env.commit_ok then (done "配置已更新", db') else (fail 500 "保存配置失败", db)

unfoldable pub update_configs : Services → Env → Option String → Fields → Db → Response String × Db
unfolding as_user update_configs_by
update_configs sv env credentials configs db =
    as_user sv env.now credentials db (update_configs_by env configs db)
