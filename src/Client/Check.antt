-- ===== src/Client/Check.antt =====
-- client/python/py_auth_client/auth_client.py: `AuthClient`: the heartbeat and the decisions that
-- rest on it and on the cache. Threads, debug output and the collection of device facts are left
-- out. A check makes up to two requests, each with a time limit; what the network answers to the
-- heartbeat with a given number is an argument. `authorized` is kept as the truth value that every
-- reader takes of it.
pub mod Decisions
pub mod Clock
pub mod Cached
use py_auth.Prelude.{
  ℕ, zero, suc, ◌+◌, ◌-◌, ◌*◌, ◌/◌, ◌%◌, String, Bool, true, false, not, ◌&&◌, ◌||◌, Option, none,
  some, List, [], ◌∷◌, leb, ltb, ◌==◌, if◌then◌else◌, ◌is◌, pos,
}
use py_auth.Json.{Json, Fields, bool, int, str, obj, end, field, get, get_or, put, truthy}
use py_auth.Text.{strip}
use py_auth.Client.Cache.{
  AuthCache, Io, File, get_cache, is_cache_valid, is_cache_valid_dict, save_cache,
  snapshot_auth_row, clear_cache,
}
use py_auth.Client.Storage.{Library}

-- The dict that a check returns.
pub record CheckResult : Type 0 where
  pub authorized : Bool
  pub message : Json
  pub success : Bool
  pub from_cache : Bool

abbrev pub failed : String → CheckResult
failed text = record { authorized = false; message = str text; success = false; from_cache = false }

-- What comes of the POST: status 200 with what `_decrypt_data` made of the body, status 403 with the
-- detail of the body if it has one, another status, or an exception with its text.
pub data Answer : Type 0 where
  accepted : Option Json → Answer
  forbidden : Option Json → Answer
  status : ℕ → Answer
  request_error : String → Answer

-- The texts that the code formats from a status or an exception.
pub record Texts : Type 0 where
  pub server_error : ℕ → String
  pub connection_failed : String → String
  pub unknown_error : String → String
  pub timed_out : String

-- `if decrypted:` and what follows; a value that is true and no dict has no `get`
unfoldable pub decrypted_result : Texts → Json → CheckResult
unfolding truthy get_or
decrypted_result texts (obj end) = failed "解密响应失败"
decrypted_result texts (obj (field k v d)) = record {
  authorized = truthy (get_or "authorized" (bool false) (field k v d));
  message = get_or "message" (str "") (field k v d);
  success = true;
  from_cache = false;
}
decrypted_result texts v =
    if truthy v then failed (texts.unknown_error "AttributeError") else failed "解密响应失败"

-- `_post_heartbeat`, of what comes of the POST
unfoldable pub heartbeat_result : Texts → Answer → CheckResult
unfolding decrypted_result
heartbeat_result texts (accepted none) = failed "解密响应失败"
heartbeat_result texts (accepted (some v)) = decrypted_result texts v
heartbeat_result texts (forbidden none) = failed (texts.server_error 403)
heartbeat_result texts (forbidden (some detail)) = record {
  authorized = false;
  message = detail;
  success = false;
  from_cache = false;
}
heartbeat_result texts (status code) = failed (texts.server_error code)
heartbeat_result texts (request_error text) = failed (texts.connection_failed text)

-- What the worker thread gives within the time limit; `none` is the end of the wait.
unfoldable pub online_result : Texts → Option Answer → CheckResult
unfolding heartbeat_result
online_result texts none = failed texts.timed_out
online_result texts (some answer) = heartbeat_result texts answer

-- The body of the request: the device information with the number of the heartbeat. Its `sdk` is
-- a dict where it is there, as `__init__` makes it.
unfoldable pub request_data : String → String → Fields → ℕ → Fields
unfolding put get
request_data device_id software_name device_info heartbeat_times =
    let sdk : Fields = elim (get "sdk" device_info) [ some (obj d) ↦ d | _ ↦ end ] in
    field "device_id" (str device_id) (
      field "software_name" (str software_name) (
        field "device_info"
          (obj
            (put "sdk" (obj (put "heartbeat_times" (int (pos heartbeat_times)) sdk)) device_info))
          end))

-- `_write_check_cache_retries`: three attempts. Each has its own clock, nonces and writes.
unfoldable pub write_check_cache :
    Library → AuthCache → List Io → CheckResult → Option ℕ → Fields → File → Bool × File
unfolding save_cache
write_check_cache lib c [] r heartbeat_times device_info file = (false, file)
write_check_cache lib c (io ∷ ios) r heartbeat_times device_info file =
    let (saved, file') =
      save_cache lib c io r.authorized (if r.authorized then heartbeat_times else none)
        (if r.authorized then some device_info else none) file in
    let rest = write_check_cache lib c ios r heartbeat_times device_info file' in
    if saved then (true, file') else rest

abbrev pub from_cache_result : CheckResult
from_cache_result = record {
  authorized = true;
  message = str "设备已授权";
  success = true;
  from_cache = true;
}

-- What one check meets: the clock, nonces and writes of each step, and the device information.
pub record Surroundings : Type 0 where
  pub io : Io
  pub attempts : List Io
  pub later : Io
  pub later_attempts : List Io
  pub device_info : Fields

module _ (lib : Library) (c : AuthCache) (env : Surroundings) where
  -- the end of both checks: the stored result if the request failed and the cache is valid
  unfoldable pub settle : ℕ → Bool → CheckResult → File → CheckResult × File
  unfolding write_check_cache
  settle next_hb cache_valid r file =
      if r.success
      then (
        r,
        (write_check_cache lib c env.attempts r (if r.authorized then some next_hb else none)
            env.device_info file).1,
      )
      else if cache_valid
      then (from_cache_result, file)
      else (r, file)

  -- `check_authorization`
  unfoldable pub check_authorization : (ℕ → CheckResult) → File → CheckResult × File
  unfolding settle snapshot_auth_row is_cache_valid_dict
  check_authorization online file =
      let (cached, stored_hb, file') = snapshot_auth_row lib c env.io file in
      settle (stored_hb + 1) (is_cache_valid_dict c env.io.now cached) (online (stored_hb + 1))
        file'

  -- what follows the full heartbeat behind an authorized light one
  unfoldable pub settle_full : ℕ → CheckResult → File → CheckResult × File
  unfolding write_check_cache get_cache is_cache_valid
  settle_full full_hb full file =
      if full.success
      then (
        full,
        (write_check_cache lib c env.later_attempts full
            (if full.authorized then some full_hb else none) env.device_info file).1,
      )
      else elim (get_cache lib c file) [
        | none ↦ (full, file)
        | some cached_at ↦
            if is_cache_valid lib c env.later.now file
            then (from_cache_result, file)
            else (full, file)
      ]

  -- `check_authorization_progressive`: `fast` is the light request and `full` the complete one
  unfoldable pub check_authorization_progressive :
      (ℕ → CheckResult) → (ℕ → CheckResult) → File → CheckResult × File
  unfolding settle settle_full write_check_cache snapshot_auth_row is_cache_valid_dict
  check_authorization_progressive fast full file =
      let (cached, stored_hb, file') = snapshot_auth_row lib c env.io file in
      let next_hb = stored_hb + 1 in
      let light = fast next_hb in
      if light.success
      then (if light.authorized
          then settle_full (next_hb + 1) (full (next_hb + 1))
              (write_check_cache lib c env.attempts light (some next_hb) env.device_info file').1
          else (light, (write_check_cache lib c env.attempts light none env.device_info file').1))
      else settle next_hb (is_cache_valid_dict c env.io.now cached) (full next_hb) file'

-- `require_authorization`: `some r` is an `AuthorizationError` with the result r
unfoldable pub require_authorization : Bool → CheckResult → Option CheckResult × Bool
require_authorization raise_exception r =
    if not r.success || not r.authorized
    then (if raise_exception then (some r, false) else (none, false))
    else (none, true)

-- `can_soft_launch`
unfoldable pub can_soft_launch : Library → AuthCache → ℕ → File → Bool
unfolding get_cache is_cache_valid
can_soft_launch lib c now file = elim (get_cache lib c file) [
  | none ↦ false
  | some cached_at ↦ is_cache_valid lib c now file
]

-- `_format_remaining_time`: days, hours and minutes, of which the text leaves out those that are 0
pub data Remaining : Type 0 where
  unknown : Remaining
  expired : Remaining
  left : ℕ → ℕ → ℕ → Remaining

unfoldable pub format_remaining_time : AuthCache → ℕ → ℕ → Remaining
format_remaining_time c now cached_at =
    if cached_at == 0
    then unknown
    else if leb (cached_at + c.validity) now
    then expired
    else (let remaining = cached_at + c.validity - now in
        left (remaining / 86400000000) (remaining % 86400000000 / 3600000000)
          (remaining % 3600000000 / 60000000))

-- `get_authorization_info`, of the cached authorization
pub record AuthorizationInfo : Type 0 where
  pub authorized : Bool
  pub success : Bool
  pub from_cache : Bool
  pub message : String
  pub remaining_time : Option Remaining
  pub cache_valid : Bool

unfoldable pub get_authorization_info : Library → AuthCache → ℕ → File → AuthorizationInfo
unfolding get_cache is_cache_valid format_remaining_time
get_authorization_info lib c now file = elim (get_cache lib c file) [
  | some cached_at ↦ record {
    authorized = true;
    success = true;
    from_cache = true;
    message = "设备已授权";
    remaining_time = some (format_remaining_time c now cached_at);
    cache_valid = is_cache_valid lib c now file;
  }
  | none ↦ record {
    authorized = false;
    success = false;
    from_cache = false;
    message = "无本地授权缓存";
    remaining_time = none;
    cache_valid = false;
  }
]
