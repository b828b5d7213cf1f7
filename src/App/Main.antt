-- ===== src/App/Main.antt =====
-- main.py: the start of a worker, the table of routes, and the front end.
-- FastAPI is a parameter: the path that a router or `include_router` makes of a prefix and a path,
-- and whether a path matches that of a route.
pub mod Routes
use py_auth.Prelude.{
  ℕ, String, Bool, true, false, ◌&&◌, ◌||◌, Option, none, some, List, [], ◌∷◌, ◌++◌, map, find,
  if◌then◌else◌,
}
use py_auth.Text.{has_prefix, has_suffix}
use py_auth.App.Models.{Db, Env, Response, done, fail}
use py_auth.App.Services.{Services}
use py_auth.App.Auth.{init_admin_user}

-- `init_database`, with `_do_init`: what the tables hold afterwards. `locked` is whether another
-- process holds the file lock, and `created` whether `create_all` succeeds. Every exception is logged.
unfoldable pub init_database : Services → Env → Bool → Bool → String → String → Db → Db
unfolding init_admin_user
init_database sv env true created name password db = db
init_database sv env false false name password db = db
init_database sv env false true name password db = (init_admin_user sv env name password db).1

pub data Method : Type 0 where
  get : Method
  post : Method
  put : Method
  delete : Method
  websocket : Method

pub data Handler : Type 0 where
  openapi : Handler
  heartbeat : Handler
  get_configs : Handler
  update_configs : Handler
  get_users : Handler
  get_operation_logs : Handler
  cleanup_operation_logs : Handler
  create_user : Handler
  update_user : Handler
  delete_user : Handler
  login : Handler
  get_me : Handler
  verify_token_endpoint : Handler
  change_password : Handler
  device_events : Handler
  root : Handler
  assets : Handler
  serve_index : Handler
  serve_spa : Handler
  health_check : Handler

pub record Endpoint : Type 0 where
  pub method : Method
  pub path : String
  pub handler : Handler

abbrev endpoint : Method → String → Handler → Endpoint
endpoint method path handler = record { method = method; path = path; handler = handler }

-- What the program calls of FastAPI.
pub record Framework : Type 0 where
  -- the path of a route behind a prefix
  pub prefixed : String → String → String
  -- whether the path of a request matches that of a route, which may have parameters in braces
  pub matches : String → String → Bool

-- What `os.path.exists` finds of the front end.
pub data Dist : Type 0 where
  no_front_end : Dist
  -- whether it has assets, and whether it has an `index.html`
  front_end : Bool → Bool → Dist

abbrev same_method : Method → Method → Bool
same_method get get = true
same_method post post = true
same_method put put = true
same_method delete delete = true
same_method websocket websocket = true
same_method _ _ = false

module _ (fw : Framework) where
  abbrev behind : String → List Endpoint → List Endpoint
  behind prefix routes =
      map (λ (e : Endpoint). record e { path = fw.prefixed prefix e.path }) routes

  -- the routers of app/routers, with their own prefixes
  unfoldable pub auth_router : List Endpoint
  auth_router = behind "/api/auth" (endpoint post "/heartbeat" heartbeat ∷ [])

  unfoldable pub admin_router : List Endpoint
  admin_router = behind "/api/admin" (
      endpoint get "/config" get_configs
      ∷ endpoint put "/config" update_configs
      ∷ endpoint get "/users" get_users
      ∷ endpoint get "/logs" get_operation_logs
      ∷ endpoint delete "/logs" cleanup_operation_logs
      ∷ endpoint post "/users" create_user
      ∷ endpoint put "/users/{user_id}" update_user
      ∷ endpoint delete "/users/{user_id}" delete_user
      ∷ [])

  unfoldable pub user_router : List Endpoint
  user_router = behind "/api/user" (
      endpoint post "/login" login
      ∷ endpoint get "/me" get_me
      ∷ endpoint post "/verify" verify_token_endpoint
      ∷ endpoint post "/change-password" change_password
      ∷ [])

  unfoldable pub ws_router : List Endpoint
  ws_router = endpoint websocket "/ws" device_events ∷ []

  -- `configure_static_files`; the files under `/assets` are mounted, and stand here as one route
  unfoldable pub static_routes : Dist → List Endpoint
  static_routes no_front_end = endpoint get "/" root ∷ []
  static_routes (front_end has_assets has_index) =
      (if has_assets then endpoint get "/assets/{path:path}" assets ∷ [] else [])
      ++ (if has_index
          then endpoint get "/" serve_index ∷ endpoint get "/{full_path:path}" serve_spa ∷ []
          else [])

  -- the routes in the order in which `create_application` adds them
  unfoldable pub create_application : Dist → List Endpoint
  unfolding auth_router admin_router user_router ws_router static_routes
  create_application dist =
      (endpoint get "/openapi.json" openapi
        ∷ endpoint get "/docs" openapi
        ∷ endpoint get "/docs/oauth2-redirect" openapi
        ∷ endpoint get "/redoc" openapi
        ∷ [])
      ++ behind "/api/auth" auth_router
      ++ behind "/api/admin" admin_router
      ++ behind "/api/user" user_router
      ++ behind "/ws" ws_router
      ++ static_routes dist
      ++ endpoint get "/health" health_check ∷ []

  -- The handler of a request: that of the first route with its method and a path that matches.
  unfoldable pub dispatch : Dist → Method → String → Option Endpoint
  unfolding create_application
  dispatch dist method path =
      find (λ (e : Endpoint). same_method method e.method && fw.matches e.path path)
        (create_application dist)

abbrev any_prefix : List String → String → Bool
any_prefix [] s = false
any_prefix (p ∷ ps) s = has_prefix s p || any_prefix ps s

abbrev any_suffix : List String → String → Bool
any_suffix [] s = false
any_suffix (p ∷ ps) s = has_suffix s p || any_suffix ps s

abbrev pub reserved_prefixes : List String
reserved_prefixes = "api/" ∷ "ws/" ∷ "docs" ∷ "redoc" ∷ "openapi.json" ∷ "health" ∷ []

abbrev pub static_extensions : List String
static_extensions =
    ".css" ∷ ".js" ∷ ".png" ∷ ".jpg" ∷ ".jpeg" ∷ ".gif" ∷ ".svg" ∷ ".ico" ∷ ".woff" ∷ ".woff2"
    ∷ ".ttf" ∷ []

-- `serve_spa`: the file that it answers with
unfoldable pub serve_spa_path : String → Response String
unfolding has_prefix has_suffix
serve_spa_path full_path =
    if any_prefix reserved_prefixes full_path
    then fail 404 "Not found"
    else if any_suffix static_extensions full_path
    then fail 404 "Static file not found"
    else done "index.html"
