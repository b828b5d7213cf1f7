-- ===== src/App/Auth.antt =====
-- app/auth.py: request encryption, access tokens, the current user and the first administrator.
-- The services are those of `App/Services.antt`. Times are in seconds. The environment variables
-- CLIENT_SECRET, ACCESS_TOKEN_EXPIRE_MINUTES, ADMIN_USERNAME and ADMIN_PASSWORD are arguments.
pub mod Tokens
pub mod Admins
use py_auth.Prelude.{
  ℕ, ◌+◌, ◌*◌, String, Bool, true, false, not, Option, none, some, List, [], ◌∷◌, ◌++◌, map, ◌==◌,
  ◌is◌, if◌then◌else◌, pos,
}
use py_auth.Json.{Json, Fields, int, str, obj, get, put}
use py_auth.App.Models.{User, Db, Env, Response, done, fail, ◌>>=◌, commit, find_user}
use py_auth.App.Services.{Services}

-- `_get_cipher`: the cipher, and what `_cipher` holds afterwards, which is the same
unfoldable pub get_cipher : Services → String → Option String → Option String
get_cipher sv secret (some cipher) = some cipher
get_cipher sv secret none = if secret is "" then none else sv.fernet secret

unfoldable pub decrypt_request_data : Services → String → Option String → String → Option Json
unfolding get_cipher
decrypt_request_data sv secret cached text = elim (get_cipher sv secret cached) [
  | none ↦ none
  | some cipher ↦ elim (sv.decrypt cipher text) [ none ↦ none | some plain ↦ sv.loads plain ]
]

unfoldable pub encrypt_response_data : Services → String → Option String → Fields → Option String
unfolding get_cipher
encrypt_response_data sv secret cached d = elim (get_cipher sv secret cached) [
  | none ↦ none
  | some cipher ↦ elim (sv.dumps (obj d)) [ none ↦ none | some text ↦ sv.encrypt cipher text ]
]

-- When a token ends: a lifetime of zero is false in Python, and is replaced by the default.
unfoldable pub expiry : ℕ → ℕ → Option ℕ → ℕ
expiry minutes now none = now + minutes * 60
expiry minutes now (some delta) = if delta == 0 then now + minutes * 60 else now + delta

unfoldable pub create_access_token : Services → ℕ → ℕ → Fields → Option ℕ → String
unfolding expiry
create_access_token sv minutes now d delta =
    sv.jwt_encode (put "exp" (int (pos (expiry minutes now delta))) d)

unfoldable pub verify_token : Services → ℕ → String → Option Fields
verify_token sv now token = sv.jwt_decode now token

-- `payload.get("sub")`, which is a text or missing
unfoldable pub subject : Fields → Option String
subject payload = elim (get "sub" payload) [ some (str username) ↦ some username | _ ↦ none ]

unfoldable pub authenticate_user : Services → Db → String → String → Option User
authenticate_user sv db username password = elim (find_user username db) [
  | none ↦ none
  | some user ↦ if sv.verify password user.password_hash then some user else none
]

unfoldable pub new_user : Services → Env → String → String → Bool → Bool → Db → User
new_user sv env username password is_active is_admin db = record {
  id = env.next_id (map (λ (u : User). u.id) db.users);
  username = username;
  password_hash = sv.hash env.salt password;
  is_active = is_active;
  is_admin = is_admin;
  created_at = env.now;
  updated_at = env.now;
}

-- `create_user`
unfoldable pub create_user : Services → Env → Db → String → String → Bool → Response User × Db
unfolding new_user
create_user sv env db username password is_admin =
    let user = new_user sv env username password true is_admin db in
    commit env db (record db { users = db.users ++ user ∷ [] }) user

abbrev pub credentials_exception {ℓ} : {A : Type ℓ} → Response A
credentials_exception = fail 401 "无效的认证凭据"

-- the part of `get_current_user` behind the token
unfoldable pub user_of_payload : Db → Option Fields → Response User
unfolding subject
user_of_payload db none = credentials_exception
user_of_payload db (some payload) = elim (subject payload) [
  | none ↦ credentials_exception
  | some username ↦ elim (find_user username db) [
    | none ↦ credentials_exception
    | some user ↦ if user.is_active then done user else fail 400 "用户已被禁用"
  ]
]

unfoldable pub get_current_user : Services → ℕ → Db → Option String → Response User
unfolding verify_token user_of_payload
get_current_user sv now db none = credentials_exception
get_current_user sv now db (some token) = user_of_payload db (verify_token sv now token)

unfoldable pub get_current_user_optional : Services → ℕ → Db → Option String → Option User
unfolding verify_token subject
get_current_user_optional sv now db none = none
get_current_user_optional sv now db (some token) = elim (verify_token sv now token) [
  | none ↦ none
  | some payload ↦ elim (subject payload) [
    | none ↦ none
    | some username ↦ elim (find_user username db) [
      | none ↦ none
      | some user ↦ if not user.is_active then none else some user
    ]
  ]
]

-- `init_admin_user`: the names that it returns, and the tables
unfoldable pub init_admin_user :
    Services → Env → String → String → Db → Response (String × String) × Db
unfolding create_user
init_admin_user sv env username password db = elim (find_user username db) [
  | some existing ↦ (done (username, password), db)
  | none ↦
      let (created, db') = create_user sv env db username password true in
      (created >>= λ _. done (username, password), db')
]
