-- ===== src/Tests/Data.antt =====
-- Test data: toy libraries, in which a token, a hash and a cipher text are fixed texts, and a small
-- server.
use py_auth.Prelude.{
  ℕ, ◌+◌, ◌≤◌, ◌≢◌, String, true, false, none, some, List, [], ◌∷◌, ◌==◌, ◌is◌, All, arith, pos,
  refl, if◌then◌else◌, is_iff, ◌≡◌,
}
use py_auth.Json.{Json, Fields, bool, int, str, obj, end, field}
use py_auth.App.Models.{Device, User, OperationLog, Db, Env}
use py_auth.App.Services.{Services, DeviceAuthRequest}
use py_auth.App.Heartbeat.{World, Network}
use py_auth.App.Invariant.{IsValid, IsFresh}
use py_auth.App.Ws.Values.{Python}

abbrev pub fresh_id : List ℕ → ℕ
fresh_id [] = 1
fresh_id (i ∷ ids) = i + fresh_id ids + 1

fresh_id-ne : (n : ℕ) (ids : List ℕ) → fresh_id ids ≤ n → All (λ i. i ≢ n) ids
fresh_id-ne n [] h = tt
fresh_id-ne n (i ∷ ids) h = ((λ e. ground arith), fresh_id-ne n ids (ground arith))

abbrev pub env : Env
env = record { now = 1000; salt = 7; commit_ok = true; next_id = fresh_id }

abbrev pub broken_env : Env
broken_env = record { now = 1000; salt = 7; commit_ok = false; next_id = fresh_id }

pub env-IsFresh : IsFresh env
env-IsFresh ids = fresh_id-ne (fresh_id ids) ids (ground arith)

-- a device as it sends itself
abbrev pub request : DeviceAuthRequest
request = record { device_id = "d1"; software_name = some "editor"; device_info = none }

abbrev pub new_request : DeviceAuthRequest
new_request = record { device_id = "d9"; software_name = some "editor"; device_info = none }

abbrev pub payload : Json
payload = obj (field "device_id" (str "d1") end)

abbrev pub root_token : Fields
root_token = field "sub" (str "root") (field "exp" (int (pos 4600)) end)

-- Every token is the administrator's.
abbrev pub services : Services
services = record {
  fernet = λ secret. some "key";
  encrypt = λ cipher text. some "sealed";
  decrypt = λ cipher text. if text is "rubbish" then none else some "plain";
  dumps = λ v. some "plain";
  loads = λ text. some payload;
  hash = λ salt password. password;
  verify = λ password stored. password is stored;
  jwt_encode = λ d. "token";
  jwt_decode = λ now token. if token is "token" then some root_token else none;
  device_auth_request = λ v. some request;
}

abbrev pub root_user : User
root_user = record {
  id = 1;
  username = "root";
  password_hash = "secret";
  is_active = true;
  is_admin = true;
  created_at = 1;
  updated_at = 1;
}

abbrev pub member : User
member = record {
  id = 2;
  username = "member";
  password_hash = "hello";
  is_active = false;
  is_admin = false;
  created_at = 2;
  updated_at = 2;
}

abbrev pub device : Device
device = record {
  id = 1;
  device_id = "d1";
  software_name = some "editor";
  device_info = none;
  remark = none;
  is_authorized = false;
  created_at = 5;
  updated_at = 5;
  last_check = some 5;
}

abbrev pub other_device : Device
other_device = record device { id = 2; device_id = "d2"; is_authorized = true }

abbrev pub log_entry : ℕ → ℕ → OperationLog
log_entry id now = record {
  id = id;
  username = "root";
  action = "create_user";
  target_type = "user";
  target_id = some "member";
  detail = none;
  created_at = now;
}

abbrev pub db : Db
db = record {
  devices = device ∷ other_device ∷ [];
  users = root_user ∷ member ∷ [];
  configs = (record { key = "default_authorization"; value = bool false }) ∷ [];
  logs = log_entry 1 10 ∷ log_entry 2 900 ∷ [];
}

abbrev pub empty_db : Db
empty_db = record { devices = []; users = []; configs = []; logs = [] }

pub texts-ne : (a b : String) → (a is b) ≡ false → a ≢ b
texts-ne a b h e = ground (arith, is_iff a b)

pub db-IsValid : IsValid db
unfolding ◌is◌
db-IsValid = record {
  device_keys = ground arith;
  device_names = ((texts-ne "d1" "d2" refl, tt), (tt, tt));
  user_keys = ground arith;
  user_names = ((texts-ne "root" "member" refl, tt), (tt, tt));
}

abbrev pub world : World
world = record { db = db; manager = record { clients = 3 ∷ 4 ∷ [] }; sent = [] }

-- a network on which every send but the one to the socket 4 succeeds
abbrev pub net : Network
net = record { alive = λ c. c == 3; order = 3 ∷ 4 ∷ []; turns = [] }

abbrev pub python : Python
python = record {
  repr = λ v. "?";
  parse_int = λ s. none;
  iso = λ t. "2026";
  as_text = λ v. some "5";
}
