-- ===== src/App/Models.antt =====
-- app/models.py, app/audit.py and the session of app/database.py: the four tables, the audit entry
-- that the handlers write, and the end of a request's transaction.
-- A handler computes the tables that it wants to store from those that it found. `commit` stores
-- them or fails; every other way out leaves the tables as they were, since `get_db` closes the
-- session and with it drops what was not committed.
use py_auth.Prelude.{ℕ, String, Bool, Option, List, [], ◌∷◌, ◌++◌, map, find, ◌is◌, if◌then◌else◌}
use py_auth.Json.{Json, Fields}

pub record Device : Type 0 where
  pub id : ℕ
  pub device_id : String
  pub software_name : Option String
  pub device_info : Option Fields
  pub remark : Option String
  pub is_authorized : Bool
  pub created_at : ℕ
  pub updated_at : ℕ
  pub last_check : Option ℕ

pub record User : Type 0 where
  pub id : ℕ
  pub username : String
  pub password_hash : String
  pub is_active : Bool
  pub is_admin : Bool
  pub created_at : ℕ
  pub updated_at : ℕ

pub record Config : Type 0 where
  pub key : String
  pub value : Json

pub record OperationLog : Type 0 where
  pub id : ℕ
  pub username : String
  pub action : String
  pub target_type : String
  pub target_id : Option String
  pub detail : Option Fields
  pub created_at : ℕ

pub record Db : Type 0 where
  pub devices : List Device
  pub users : List User
  pub configs : List Config
  pub logs : List OperationLog

-- What one request meets outside the program: the reading of the clock, the salt that the password
-- hash draws, whether the database accepts the commit, and the primary key that it gives a new row,
-- from the keys in the table.
pub record Env : Type 0 where
  pub now : ℕ
  pub salt : ℕ
  pub commit_ok : Bool
  pub next_id : List ℕ → ℕ

-- A returned value, or an `HTTPException` with its status and detail. An exception of another kind
-- is answered with status 500.
pub data Response {ℓ} (A : Type ℓ) : Type ℓ where
  done : A → Response A
  fail : ℕ → String → Response A

infixl 5 ◌>>=◌
abbrev pub ◌>>=◌ {ℓ κ} : {A : Type ℓ} {B : Type κ} → Response A → (A → Response B) → Response B
done a >>= f = f a
fail status detail >>= f = fail status detail

abbrev pub internal_error {ℓ} : {A : Type ℓ} → Response A
internal_error = fail 500 "Internal Server Error"

unfoldable pub add_operation_log :
    Env → String → String → String → Option String → Option Fields → Db → Db
add_operation_log env username action target_type target_id detail db = record db {
  logs =
      db.logs
      ++ (record {
        id = env.next_id (map (λ (l : OperationLog). l.id) db.logs);
        username = username;
        action = action;
        target_type = target_type;
        target_id = target_id;
        detail = detail;
        created_at = env.now;
      })
        ∷ [];
}

-- `db.commit()`, the exception that it may raise included
abbrev pub commit {ℓ} : {A : Type ℓ} → Env → Db → Db → A → Response A × Db
commit env old new a = if env.commit_ok then (done a, new) else (internal_error, old)

unfoldable pub find_user : String → Db → Option User
find_user username db = find (λ (u : User). u.username is username) db.users

unfoldable pub find_device : String → Db → Option Device
find_device device_id db = find (λ (d : Device). d.device_id is device_id) db.devices

unfoldable pub find_config : String → Db → Option Config
find_config key db = find (λ (c : Config). c.key is key) db.configs
