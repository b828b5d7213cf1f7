-- ===== src/Client/Info.antt =====
-- client/python/py_auth_client/device_utils.py: `build_device_info`, the information about the device
-- that a heartbeat sends, from the facts that were collected.
pub mod Address
use py_auth.Prelude.{String, Option, none, some, List, [], ◌∷◌, ◌is◌, if◌then◌else◌, ℤ}
use py_auth.Json.{Json, Items, Fields, int, str, arr, obj, nil, cons, end, field, get, put, truthy}
use py_auth.Client.Network.{Endpoint}
use py_auth.Client.Disks.Legacy.{legacy_disk_disks_to_models, legacy_disk_volumes_to_models}

-- `if v := facts.get(key): block[name] = v`
unfoldable pub copy_true : String → String → Fields → Fields → Fields
unfolding get put truthy
copy_true key name facts block = elim (get key facts) [
  | none ↦ block
  | some v ↦ if truthy v then put name v block else block
]

-- What `build_device_info` asks of the system: `none` is an exception.
pub record Surroundings : Type 0 where
  pub username : Option String
  pub python_version : String
  pub uptime : Option ℤ
  pub interfaces : Option (List Endpoint)
  -- `str(v)`
  pub to_text : Json → String

abbrev put_text : String → Option String → Fields → Fields
put_text key none block = block
put_text key (some s) block = put key (str s) block

abbrev put_number : String → Option ℤ → Fields → Fields
put_number key none block = block
put_number key (some z) block = put key (int z) block

unfoldable pub system_block : Surroundings → Fields → Fields
unfolding copy_true put
system_block s facts = put_number "system_uptime_seconds" s.uptime (
    put "python_version" (str s.python_version) (
      put_text "username" s.username (
        copy_true "windows_product_name" "windows_product_name" facts (
          copy_true "windows_display_version" "windows_display_version" facts (
            copy_true "processor" "processor" facts (
              copy_true "machine" "machine" facts (
                copy_true "version" "version" facts (
                  copy_true "release" "release" facts (
                    copy_true "system" "os" facts
                      (copy_true "hostname_value" "hostname" facts end))))))))))

unfoldable pub cpu_block : Fields → Fields
unfolding copy_true
cpu_block facts = copy_true "cpu_freq_max_mhz" "freq_max_mhz" facts (
    copy_true "cpu_freq_min_mhz" "freq_min_mhz" facts (
      copy_true "cpu_freq_mhz" "freq_mhz" facts (
        copy_true "cpu_count_physical" "physical_count" facts
          (copy_true "cpu_count" "count" facts (copy_true "cpu_model" "model" facts end)))))

unfoldable pub memory_block : Fields → Fields
unfolding copy_true
memory_block facts = copy_true "memory_free_gb" "free_gb" facts (
    copy_true "memory_available_gb" "available_gb" facts
      (copy_true "memory_total_gb" "total_gb" facts end))

abbrev if_true : Option Json → Option Json
if_true none = none
if_true (some v) = if truthy v then some v else none

abbrev dict_or_end : Json → Fields
dict_or_end (obj d) = d
dict_or_end _ = end

-- the models of the disks, empty where there are none; the older forms count only without newer ones
unfoldable pub models_of : (Json → String) → Fields → Fields
unfolding get truthy legacy_disk_disks_to_models legacy_disk_volumes_to_models
models_of to_text facts = elim (if_true (get "disk_models" facts)) [
  | some models ↦ dict_or_end models
  | none ↦ elim (if_true (get "disk_disks" facts)) [
    | some disks ↦ legacy_disk_disks_to_models to_text disks
    | none ↦ elim (if_true (get "disk_volumes" facts)) [
      | some vols ↦ legacy_disk_volumes_to_models to_text vols
      | none ↦ end
    ]
  ]
]

-- the totals stand in the block only without models
abbrev disk_with : Fields → Fields → Fields
disk_with facts end =
    copy_true "disk_free_gb" "free_gb" facts (copy_true "disk_total_gb" "total_gb" facts end)
disk_with facts (field k v models) = field "models" (obj (field k v models)) end

unfoldable pub disk_block : (Json → String) → Fields → Fields
unfolding models_of copy_true
disk_block to_text facts = disk_with facts (models_of to_text facts)

abbrev nonempty_text : String → String → Fields → Fields
nonempty_text key s row = if s is "" then row else field key (str s) row

-- the rows of `_collect_network_interface_rows`
unfoldable pub interface_rows : List Endpoint → Items
interface_rows [] = nil
interface_rows (e ∷ es) =
    cons (obj (nonempty_text "mac_address" e.mac (nonempty_text "ip_address" e.ip end)))
      (interface_rows es)

abbrev with_interfaces : Items → Fields → Fields
with_interfaces nil network = network
with_interfaces (cons v rows) network = put "interfaces" (arr (cons v rows)) network

abbrev rows_of : Option (List Endpoint) → Items
rows_of none = nil
rows_of (some es) = interface_rows es

unfoldable pub network_block : Option (List Endpoint) → Fields → Fields
unfolding copy_true interface_rows put
network_block interfaces facts =
    with_interfaces (rows_of interfaces)
      (copy_true "ip_address" "ip_address" facts (copy_true "mac" "mac_address" facts end))

-- `if block: info[key] = block`
abbrev put_block : String → Fields → Fields → Fields
put_block key end info = info
put_block key (field k v d) info = put key (obj (field k v d)) info

-- `build_device_info`
unfoldable pub build_device_info : Surroundings → Fields → Option Fields → Fields
unfolding system_block cpu_block memory_block disk_block network_block put
build_device_info s facts (some device_info_override) = device_info_override
build_device_info s facts none = put_block "system" (system_block s facts) (
    put_block "disk" (disk_block s.to_text facts) (
      put_block "memory" (memory_block facts) (
        put_block "cpu" (cpu_block facts)
          (put_block "network" (network_block s.interfaces facts) end))))
