-- ===== src/Tests/Devices.antt =====
-- A device: its disks, its facts, its identifier and information, and the clients on it.
use py_auth.Prelude.{
  ℕ, ◌≡◌, ◌<◌, arith, refl, String, true, false, none, some, List, [], ◌∷◌, ◌is◌, contains, map,
  pos,
}
use mathlib.Core.List.{Perm}
use py_auth.Text.{strip, take_text}
use py_auth.Json.{Fields, int, str, obj, end, field, get, put}
use py_auth.Json.Laws.{IsDict}
use py_auth.Client.Storage.{Library, read_state_dict}
use py_auth.Client.Disks.{
  Entry, key_base, key_with, disk_volume_map_key, volume, entries_to_models_map,
}
use py_auth.Client.Disks.Keys.{disk_volume_map_key_found}
use py_auth.Client.Disks.Grouped.{all_volumes, entries_to_models_map-perm}
use py_auth.Client.Platform.{Os, linux}
use py_auth.Client.Facts.{Tools, System, collect_device_facts}
use py_auth.Client.Facts.Modes.{id_components-collect_device_facts}
use py_auth.Client.Identity.{
  Naming, id_components, persisted_root, computed_id, load_persisted_device_id,
}
use py_auth.Client.Info.{Surroundings}
use py_auth.Client.Wire.{with_public_ip, dict_at}
use py_auth.Client.Start.{
  sdk_of, Host, Options, AuthClient, start, constructed, identify, from_snapshot, secured,
  ensure_full_device_info, with_sdk,
}
use py_auth.Client.Cache.{File}
use py_auth.Client.Start.Ready.{IsReady}
use py_auth.Client.Platform.{first_word}
use py_auth.Client.Start.Again.{start-start}
use py_auth.Client.Online.{check_online_worker, fetch_public_ip}
use py_auth.Client.Online.Life.{started, checked, check_online_worker-IsReady}
use py_auth.Client.Background.{
  Pools, get_auth_background_executor, shutdown_auth_background_executor, accepted,
}
use py_auth.Client.Background.Shared.{
  fresh_pools, begun, got, shut_down, IsOpen, get_auth_background_executor-IsOpen,
}
use py_auth.Tests.Clients.{body, nonce}
use py_auth.Tests.States.{library_of, naming}

disk_volume_map_key_found_example :
    (n : ℕ) × (disk_volume_map_key " " "/home" "" ("/home" ∷ [])
      ≡ some (key_with (key_base " " "/home" "") "/home" n))
    × (contains ("/home" ∷ []) (key_with (key_base " " "/home" "") "/home" n) ≡ false)
    × ((m : ℕ)
        → m < n
        → contains ("/home" ∷ []) (key_with (key_base " " "/home" "") "/home" m) ≡ true)
disk_volume_map_key_found_example = disk_volume_map_key_found " " "/home" "" ("/home" ∷ [])

abbrev volume_at : String → String → Entry
volume_at model mount = record {
  model = model;
  mount = mount;
  device = "/dev/sda1";
  total_gb = int (pos 9);
  free_gb = int (pos 4);
}

abbrev listed : List Entry
listed = volume_at "Disk" "/home" ∷ volume_at "" "/mnt" ∷ volume_at "Disk" "/" ∷ []

entries_to_models_map-perm_example :
    Perm (all_volumes (entries_to_models_map listed)) (map volume listed)
    × IsDict (entries_to_models_map listed)
entries_to_models_map-perm_example = entries_to_models_map-perm listed

abbrev os : Os
os = record {
  platform = linux;
  cpuinfo = some ("model name : Fast" ∷ []);
  sysctl = none;
  powershell_cpu = none;
  first_mount = some "/dev/sda1 / ext4";
  df = none;
  system_drive = none;
  lsblk = λ device. none;
  diskutil = λ mount. none;
  powershell_model = λ letter. none;
  registry = end;
}

abbrev system : System
system = record {
  os = os;
  system = "Linux";
  release = "6";
  version = "1";
  machine = "x86_64";
  processor = "";
  hostname = "box";
  network = record { mac = "00:11"; ip = "10.0.0.2" };
  node = 5;
  cpu_count = some (int (pos 8));
  cpu_count_physical = some (some (pos 4));
  cpu_freq = some none;
  memory = some (8, 4, 2);
  disk_usage = λ mount. some (9, 4);
  partitions = some [];
  powershell_disks = none;
}

abbrev tools : Tools
tools = record {
  conversions = record { repr = λ v. "8"; parse_int = λ s. none; upper = λ s. s };
  python = record { lower = λ s. s; int16 = λ s. none };
  parse_float = λ s. none;
  loads = λ s. none;
  gib = int;
  round2 = int;
}

id_components-collect_device_facts_example :
    id_components naming (collect_device_facts tools system true) "editor"
    ≡ id_components naming (collect_device_facts tools system false) "editor"
id_components-collect_device_facts_example =
    id_components-collect_device_facts tools system naming "editor"

abbrev surroundings : Surroundings
surroundings = record {
  username = some "me";
  python_version = "3.12";
  uptime = none;
  interfaces = some [];
  to_text = λ v. "8";
}

abbrev one_fact : Fields
one_fact = field "mac" (str "00:11") end

abbrev after_shutdown : Pools
after_shutdown =
    shutdown_auth_background_executor accepted (get_auth_background_executor (some 8) fresh_pools).1

get_auth_background_executor-IsOpen_example :
    IsOpen
      (some (get_auth_background_executor none after_shutdown).0)
      (get_auth_background_executor none after_shutdown).1
    × (get_auth_background_executor (some 2) (get_auth_background_executor none after_shutdown).1
        ≡ get_auth_background_executor none after_shutdown)
get_auth_background_executor-IsOpen_example =
    get_auth_background_executor-IsOpen (shut_down (got begun (some 8)) accepted (λ e. cc)) none
      (some 2)

-- a digest that is the same for all texts
abbrev same : Naming
same = record { repr = λ v. "8"; hexdigest = λ text. "c0ffee"; uuid = "c0ffee" }

computed_id-same : (ss : List String) → computed_id same ss ≡ "c0ffee"
unfolding computed_id take_text
computed_id-same [] = refl
computed_id-same (s ∷ ss) = refl

abbrev host : Library → Host
host lib = record {
  lib = lib;
  loads_text = λ s. none;
  naming = same;
  tools = tools;
  system = system;
  surroundings = surroundings;
  gethostname = some "box";
  env_secret = "s";
  sdk_version = "1.0.0";
  runtime = "3.12.1";
  nonce = nonce;
  write_ok = true;
}

abbrev options : Options
options = record {
  server_url = "http://localhost/";
  software_name = "editor";
  device_id = "";
  device_info = none;
  client_secret = "";
  cache_validity_days = 7;
  check_interval_days = 2;
  software_version = str "1.0";
}

-- the identifier of the first client, and what it leaves
abbrev first_id : String
first_id = computed_id same (id_components same (collect_device_facts tools system true) "editor")

first_id-same : first_id ≡ "c0ffee"
first_id-same =
    computed_id-same (id_components same (collect_device_facts tools system true) "editor")

stable : (s : String) → s ≡ "c0ffee" → (strip s ≡ s) × ((s is "") ≡ false)
unfolding strip ◌is◌
stable s e = rw e (refl, refl)

abbrev persisted : Fields
persisted = persisted_root first_id "editor" end

-- the client that is started on a file
abbrev client_of : Host → File → AuthClient
client_of h file =
    let (id, facts, file') = identify h options file in
    from_snapshot h file' (constructed h options "s" id facts)

starts :
    (h : Host) (file : File)
    → h.env_secret ≡ "s"
    → (start h options file).0 ≡ some (client_of h file)
unfolding start secured ◌is◌
starts h file e = rw e refl

abbrev known : Host
known = host (library_of persisted)

-- the host after the machine was given another processor
abbrev renewed : Host
renewed = record known { system = record system { machine = "arm64" } }

start-start_example :
    (client_of renewed (start known options none).1).device_id ≡ (client_of known none).device_id
unfolding ◌is◌ load_persisted_device_id read_state_dict
start-start_example =
    start-start known renewed options options none (client_of known none)
      (client_of renewed (start known options none).1) refl refl refl refl refl refl refl
      (stable first_id first_id-same).0 (stable first_id first_id-same).1 tt tt (refl, refl, refl)
      (record {
        body = body;
        dumped = refl;
        loaded = refl;
        deciphered = refl;
        tagged = ground arith;
        nonce_length = refl;
      })
      (starts known none refl) (starts renewed (start known options none).1 refl)

-- a client that is given an identifier and its device information
abbrev given : Options
given = record options { device_id = "d1"; device_info = some end }

abbrev given_client : AuthClient
given_client = constructed known given "s" "d1" end

given_starts : (start known given none).0 ≡ some given_client
unfolding start secured ◌is◌ identify
given_starts = refl

-- the client after a check without an answer of the server of addresses
abbrev checked_client : AuthClient
checked_client = (check_online_worker known (λ s. true) none given_client).1

abbrev sent : Fields
sent = put "network" (obj (field "public_ip" (str "1.2.3.4") end)) checked_client.device_info

check_online_worker-IsReady_example :
    (get "software_version" sent ≡ some checked_client.software_version)
    × (get "sdk" sent ≡ some (obj (sdk_of known)))
    × (get "cpu" sent ≡ get "cpu" checked_client.device_info)
    × IsReady known (check_online_worker known (λ s. true) (some "1.2.3.4") checked_client).1
    × ((check_online_worker known
          (λ s. true)
          (some "1.2.3.4")
          checked_client).1.device_info_deferred
        ≡ false)
unfolding check_online_worker ensure_full_device_info with_public_ip dict_at fetch_public_ip
    first_word ◌is◌ strip constructed with_sdk put
check_online_worker-IsReady_example =
    check_online_worker-IsReady known checked_client (λ s. true) (some "1.2.3.4") sent "cpu"
      (checked (started given none given_starts) (λ s. true) none) refl refl refl refl
