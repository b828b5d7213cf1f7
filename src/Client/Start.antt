-- ===== src/Client/Start.antt =====
-- client/python/py_auth_client/auth_client.py: the construction of an `AuthClient`, and the completion
-- of its device information. What was collected while the identifier was computed and what the prefetch
-- collects are facts of the same system; that the prefetch runs in a thread is left out.
pub mod Ready
pub mod Again
use py_auth.Prelude.{ℕ, String, Bool, true, false, Option, none, some, List, ◌is◌, if◌then◌else◌}
use py_auth.Json.{Json, Fields, str, obj, end, field, get, put}
use py_auth.Text.{rstrip, is_slash}
use py_auth.Client.Storage.{Library}
use py_auth.Client.Cache.{AuthCache, File, new_cache, load_device_info_snapshot}
use py_auth.Client.Identity.{Naming, load_persisted_device_id, build_device_id}
use py_auth.Client.Facts.{Tools, System, collect_device_facts}
use py_auth.Client.Info.{Surroundings, build_device_info}

-- The arguments of `__init__`; a text that is None is empty.
pub record Options : Type 0 where
  pub server_url : String
  pub software_name : String
  pub device_id : String
  pub device_info : Option Fields
  pub client_secret : String
  pub cache_validity_days : ℕ
  pub check_interval_days : ℕ
  pub software_version : Json

-- What the construction meets: the libraries, the system, the name of the host if `gethostname` gives
-- one, the variable `CLIENT_SECRET`, the versions
-- of the package and of Python, and the write of the identifier.
pub record Host : Type 0 where
  pub lib : Library
  pub loads_text : String → Option Json
  pub naming : Naming
  pub tools : Tools
  pub system : System
  pub surroundings : Surroundings
  pub gethostname : Option String
  pub env_secret : String
  pub sdk_version : String
  pub runtime : String
  pub nonce : List ℕ
  pub write_ok : Bool

-- `prefetching` is whether the facts are being collected
pub record AuthClient : Type 0 where
  pub server_url : String
  pub software_name : String
  pub software_version : Json
  pub device_id : String
  pub hostname : String
  pub device_info : Fields
  pub device_info_deferred : Bool
  pub client_secret : String
  pub cache : AuthCache
  pub prefetching : Bool

abbrev or_text : String → String → String
or_text s t = if s is "" then t else s

-- the dict `sdk`
abbrev pub sdk_of : Host → Fields
sdk_of h = field "language" (str "python") (
    field "sdk_name" (str "py_auth_client")
      (field "sdk_version" (str h.sdk_version) (field "runtime" (str h.runtime) end)))

-- `self.device_info["software_version"]` and `self.device_info["sdk"]`
unfoldable pub with_sdk : Json → Fields → Fields → Fields
unfolding put
with_sdk version sdk info = put "sdk" (obj sdk) (put "software_version" version info)

-- `self.hostname`, with the facts that were collected for the identifier
unfoldable pub hostname_of : Option String → Fields → String
unfolding get
hostname_of (some name) facts = name
hostname_of none facts = elim (get "hostname_value" facts) [
  | some (str s) ↦ or_text s "Unknown"
  | _ ↦ "Unknown"
]

-- The identifier, the facts collected for it, and the file afterwards.
unfoldable pub identify : Host → Options → File → String × Fields × File
unfolding load_persisted_device_id build_device_id collect_device_facts rstrip is_slash
identify h o file =
    let url = rstrip is_slash o.server_url in
    let known : Option String × File =
      if o.device_id is ""
      then load_persisted_device_id h.lib url o.software_name file
      else (none, file) in
    let facts : Fields = elim known.0 [
      | some id ↦ end
      | none ↦ if o.device_id is "" then collect_device_facts h.tools h.system true else end
    ] in
    let (id, file') =
      build_device_id h.lib h.naming url h.nonce h.write_ok o.device_id facts o.software_name
        (if o.device_id is "" then some known.0 else none) known.1 in
    (id, facts, file')

-- the device information without a snapshot, and whether it is still to be collected
abbrev given_info : Option Fields → Fields
given_info none = end
given_info (some info) = info

abbrev is_deferred : Option Fields → Bool
is_deferred none = true
is_deferred (some info) = false

-- the client before the snapshot is read
unfoldable pub constructed : Host → Options → String → String → Fields → AuthClient
unfolding with_sdk hostname_of new_cache rstrip is_slash
constructed h o secret id facts = record {
  server_url = rstrip is_slash o.server_url;
  software_name = o.software_name;
  software_version = o.software_version;
  device_id = id;
  hostname = hostname_of h.gethostname facts;
  device_info = with_sdk o.software_version (sdk_of h) (given_info o.device_info);
  device_info_deferred = is_deferred o.device_info;
  client_secret = secret;
  cache =
      new_cache (rstrip is_slash (rstrip is_slash o.server_url)) o.software_name id
        o.cache_validity_days o.check_interval_days;
  prefetching = is_deferred o.device_info;
}

-- the snapshot in the place of the information that is still to be collected
unfoldable pub with_snapshot : Fields → Option Fields → AuthClient → AuthClient
unfolding with_sdk
with_snapshot sdk (some (field k v d)) c = record c {
  device_info = with_sdk c.software_version sdk (field k v d);
  device_info_deferred = false;
  prefetching = false;
}
with_snapshot sdk _ c = c

-- the snapshot is asked for where the information is still to be collected
unfoldable pub from_snapshot : Host → File → AuthClient → AuthClient
unfolding with_snapshot load_device_info_snapshot
from_snapshot h file c =
    if c.device_info_deferred
    then with_snapshot (sdk_of h) (load_device_info_snapshot h.lib h.loads_text c.cache file) c
    else c

-- the end of `__init__`, from the test of the secret on
unfoldable pub secured : Host → String → AuthClient → File → Option AuthClient × File
unfolding from_snapshot
secured h secret c file =
    if secret is "" then (none, file) else (some (from_snapshot h file c), file)

-- `__init__`: the client, or none with a `ValueError`, and the file afterwards
unfoldable pub start : Host → Options → File → Option AuthClient × File
unfolding identify constructed secured
start h o file =
    let (id, facts, file') = identify h o file in
    let secret = or_text o.client_secret h.env_secret in
    secured h secret (constructed h o secret id facts) file'

-- the client with the information that was collected
unfoldable pub completed : Host → AuthClient → AuthClient
unfolding with_sdk build_device_info collect_device_facts
completed h c = record c {
  device_info =
      with_sdk c.software_version (sdk_of h)
        (build_device_info h.surroundings (collect_device_facts h.tools h.system false) none);
  device_info_deferred = false;
  prefetching = false;
}

-- `_ensure_full_device_info`
unfoldable pub ensure_full_device_info : Host → AuthClient → AuthClient
unfolding completed
ensure_full_device_info h c = if c.device_info_deferred then completed h c else c
