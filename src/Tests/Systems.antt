-- ===== src/Tests/Systems.antt =====
-- Runs of the server process, of one heartbeat between the two sides, and of the routes.
use Prim.Native.Char.{code}
use py_auth.Prelude.{
  false, ◌==◌, ◌≡◌, refl, String, true, false, none, some, [], arith, ◌is◌, find, if◌then◌else◌,
  ◌||◌, ◌&&◌, Bool, Option, Bool-cases, inl, inr,
}
use py_auth.Text.{append, has_prefix, has_part}
use py_auth.Json.{Json, Fields, str, obj, end, field, truthy, bool}
use py_auth.App.Models.{Device, done, fail, find_device}
use py_auth.App.Auth.{encrypt_response_data, decrypt_request_data, get_cipher}
use py_auth.App.Invariant.{IsValid}
use py_auth.App.Heartbeat.{heartbeat, authorization_response}
use py_auth.App.Heartbeat.Progress.{heartbeat_answered, Quiet}
use py_auth.App.Main
use py_auth.App.Main.Routes.{Documented, dispatch-heartbeat}
use py_auth.App.Server.{Server, System, Event, beats, requests, remove_user, handle, here, next}
use py_auth.App.Server.Validity.{Reach-IsValid}
use py_auth.App.Server.Provenance.{handle-Preserves}
use py_auth.Client.Wire.{encrypt_data, decrypt_data}
use py_auth.Protocol.{Line, exchange}
use py_auth.Protocol.Exchange.{Agreed, exchange_authorized}
use py_auth.Protocol.Route.{Reached, exchange_unreached}
use py_auth.Tests.Data.{
  services, env, env-IsFresh, request, payload, device, db-IsValid, world, net, python,
}

abbrev pub server : Server
server = record {
  services = services;
  python = python;
  order = λ f asc ds. ds;
  secret = "s";
  cipher = none;
  admin_name = "root";
  admin_password = "secret";
}

abbrev system : System
system = record { world = world; sessions = [] }

abbrev beat : Event
beat = beats env net "sealed"

abbrev pub removal : Event
removal = requests env (some "token") (remove_user 2)

Reach-IsValid_example : IsValid (handle server removal (handle server beat system)).world.db
Reach-IsValid_example =
    Reach-IsValid {s = server} {start = system}
      {t = handle server removal (handle server beat system)} db-IsValid
      (next (next here beat env-IsFresh) removal env-IsFresh)

handle-Preserves_example :
    (d : Device) × (find_device "d1" (handle server beat system).world.db ≡ some d)
    × (d.is_authorized ≡ device.is_authorized)
unfolding find_device find ◌is◌
handle-Preserves_example =
    handle-Preserves server beat system (λ env' net' me text e. cc) "d1" device refl

pub net-Quiet : Quiet net world
net-Quiet = record { in_order = refl; unchanged = refl }

heartbeat_answered_example :
    (reply : String) × ((heartbeat services "s" none env net "sealed" world).0 ≡ done reply)
unfolding decrypt_request_data encrypt_response_data get_cipher truthy ◌is◌
heartbeat_answered_example =
    heartbeat_answered services "s" none env net "sealed" world payload request refl refl refl refl
      net-Quiet (λ device. ("sealed", refl))

abbrev body : Fields
body = field "device_id" (str "d1") end

abbrev reply : Bool → Fields
reply authorized =
    field "authorized" (bool authorized)
      (field "message" (str (if authorized then "设备已授权" else "设备未授权")) end)

-- a format that has a text for the request and for each of the two replies
abbrev pub dump : Json → Option String
dump (obj (field _ (bool true) _)) = some "yes"
dump (obj (field _ (bool false) _)) = some "no"
dump _ = some "ask"

abbrev load : Json → String → Option Json
load asked text =
    if text is "yes"
    then some (obj (reply true))
    else if text is "no"
    then some (obj (reply false))
    else some asked

-- whether a text begins like a path up to its first brace
unfoldable pub begins_like : String → String → Bool
begins_like String.[] q = true
begins_like (String.◌∷◌ c p) String.[] = code c == b'{'
begins_like (String.◌∷◌ c p) (String.◌∷◌ d q) =
    (code c == b'{') || ((code c == code d) && begins_like p q)

has_part-append_brace : (p rest : String) → has_part (append p (append "{" rest)) "{" ≡ true
unfolding has_part has_prefix
has_part-append_brace String.[] rest = ground arith
has_part-append_brace (String.◌∷◌ c p) rest = ground (arith, has_part-append_brace p rest)

begins_like-other :
    (p rest q : String)
    → has_part p "{" ≡ false
    → has_prefix q p ≡ false
    → begins_like (append p (append "{" rest)) q ≡ false
unfolding has_part has_prefix begins_like
begins_like-other String.[] rest q plain other = ground arith
begins_like-other (String.◌∷◌ c p) rest String.[] plain other = ground arith
begins_like-other (String.◌∷◌ c p) rest (String.◌∷◌ d q) plain other =
    ground (arith, begins_like-other p rest q, Bool-cases (code c == code d))

begins_like-brace : (p q : String) → begins_like (append "{" p) q ≡ true
unfolding begins_like
begins_like-brace p String.[] = refl
begins_like-brace p (String.◌∷◌ d q) = refl

-- A framework in which a path with parameters matches whatever begins like it.
abbrev framework : Main.Framework
framework = record {
  prefixed = append;
  matches = λ p q. if has_part p "{" then begins_like p q else p is q;
}

framework-Documented : Documented framework
unfolding has_part has_prefix begins_like
framework-Documented = record {
  prefix_first = λ prefix path. refl;
  fixed = λ p q plain. rw plain refl;
  with_parameter = λ p rest q plain other.
      rw (has_part-append_brace p rest) (begins_like-other p rest q plain other);
  whole_path = λ rest. begins_like-brace "full_path:path}" rest;
}

-- a line on which nothing is encrypted, and one request is sent
abbrev pub line : Json → Line
line asked = record {
  wire = record {
    fernet = λ secret. secret;
    encrypt = λ key text. text;
    decrypt = λ key text. some text;
    dumps = dump;
    loads = load asked;
  };
  client_secret = "s";
  texts = record {
    server_error = λ code. "error";
    connection_failed = λ text. text;
    unknown_error = λ text. text;
    timed_out = "timeout";
  };
  server_path = "/api/auth";
  framework = framework;
  dist = Main.no_front_end;
  unrouted = fail 404 "Not Found";
  services = record services {
    encrypt = λ cipher text. some text;
    decrypt = λ cipher text. some text;
    dumps = dump;
    loads = load asked;
  };
  server_secret = "s";
  cipher = none;
  env = env;
  net = net;
}

reply_text : Bool → String
reply_text true = "yes"
reply_text false = "no"

reply_sealed :
    (asked : Json) (device : Device)
    → encrypt_response_data (line asked).services "s" none (authorization_response device)
      ≡ some (reply_text device.is_authorized)
unfolding encrypt_response_data get_cipher authorization_response ◌is◌ reply_text
reply_sealed asked device = elim (Bool-cases device.is_authorized) [
  | inl e ↦ rw e refl
  | inr e ↦ rw e refl
]

reply_opened :
    (asked : Json) (device : Device)
    → decrypt_data (line asked).wire "s" (reply_text device.is_authorized)
      ≡ some (obj (authorization_response device))
unfolding decrypt_data authorization_response ◌is◌ reply_text
reply_opened asked device = elim (Bool-cases device.is_authorized) [
  | inl e ↦ rw e refl
  | inr e ↦ rw e refl
]

pub line-Agreed : (asked : Fields) → dump (obj asked) ≡ some "ask" → Agreed (line (obj asked)) asked
unfolding encrypt_data decrypt_request_data get_cipher ◌is◌
line-Agreed asked dumped = record {
  sealed = "ask";
  sealing = rw (encrypt_data, dumped) refl;
  opened = refl;
  reply_sealed = λ device. (reply_text device.is_authorized, reply_sealed (obj asked) device);
  reply_opened = λ device text e.
      ground (arith, reply_sealed (obj asked) device, reply_opened (obj asked) device);
}

pub line-Reached : (asked : Json) → Reached (line asked)
unfolding Main.dispatch has_part has_prefix ◌is◌ find begins_like
line-Reached asked = record {
  endpoint = record {
    method = Main.post;
    path = "/api/auth/api/auth/heartbeat";
    handler = Main.heartbeat;
  };
  found = refl;
  is_heartbeat = refl;
}

exchange_authorized_example :
    (d : Device) × (find_device "d1" (exchange (line (obj body)) body world).1.db ≡ some d)
    × ((exchange (line (obj body)) body world).0.success ≡ true)
    × ((exchange (line (obj body)) body world).0.authorized ≡ d.is_authorized)
unfolding truthy
exchange_authorized_example =
    exchange_authorized (line (obj body)) body world request (line-Agreed body refl) refl refl refl
      net-Quiet (line-Reached (obj body))

-- the same line for a client whose address has no path
abbrev readme_line : Line
readme_line = record (line (obj body)) { server_path = "" }

exchange_unreached_example :
    ((exchange readme_line body world).0.success ≡ false)
    × ((exchange readme_line body world).1 ≡ world)
exchange_unreached_example =
    exchange_unreached readme_line body world 404 "Not Found" framework-Documented refl refl

dispatch-heartbeat_example :
    Main.dispatch framework (Main.front_end true true) Main.post "/api/auth/heartbeat" ≡ none
dispatch-heartbeat_example =
    dispatch-heartbeat framework (Main.front_end true true) framework-Documented
