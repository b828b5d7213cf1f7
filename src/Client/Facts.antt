-- ===== src/Client/Facts.antt =====
-- client/python/py_auth_client/device_utils.py: `collect_device_facts`. What psutil and the platform
-- answer is an argument; the thread pools only run the queries at once. A fact that is None is null.
pub mod Asked
pub mod Volumes
pub mod Modes
use py_auth.Prelude.{String, Bool, not, ◌||◌, Option, none, some, List, ◌∷◌, ◌is◌, if◌then◌else◌, ℤ}
use py_auth.Json.{Json, Fields, null, int, str, obj, end, field, put, update_fields}
use py_auth.Text.{strip}
use py_auth.Client.Disks.{Entry, entries_to_models_map}
use py_auth.Client.Platform.{cpu_model_on, root_disk_on, os_version_on}
use py_auth.Client.Network.{mac_from_uuid_node}
pub use py_auth.Client.Facts.Asked.{Frequency, Partition, System, Tools, bytes, is_positive}
pub use py_auth.Client.Facts.Volumes.{disk_entries}

-- `_processor_arch_normalized`, of `platform.machine().lower()`
unfoldable pub processor_arch_normalized : String → String
processor_arch_normalized m =
    if (m is "amd64") || (m is "x86_64")
    then "amd64"
    else if (m is "arm64") || (m is "aarch64")
    then "arm64"
    else if (m is "i386") || (m is "i686")
    then "386"
    else if m is ""
    then "unknown"
    else m

-- `_cpu_model_best`
unfoldable pub cpu_model_best : System → Option String
unfolding cpu_model_on strip
cpu_model_best s = elim (cpu_model_on s.os.platform s.os) [
  | some model ↦ some model
  | none ↦ if strip s.processor is "" then none else some (strip s.processor)
]

abbrev put_positive : (ℤ → Json) → String → Option ℤ → Fields → Fields
put_positive show key none out = out
put_positive show key (some z) out = if is_positive z then put key (show z) out else out

abbrev or_positive : Option ℤ → Option ℤ → Option ℤ
or_positive none b = b
or_positive (some z) b = if is_positive z then some z else b

abbrev with_frequency : (ℤ → Json) → Option (Option Frequency) → Fields → Fields
with_frequency round2 (some (some f)) out = put_positive round2 "cpu_freq_max_mhz" f.most (
    put_positive round2 "cpu_freq_min_mhz" f.least
      (put_positive round2 "cpu_freq_mhz" (or_positive f.current f.most) out))
with_frequency round2 _ out = out

-- what `_facts_psutil_cpu` adds if it is extended
unfoldable pub extended_cpu :
    (ℤ → Json) → Option (Option ℤ) → Option (Option Frequency) → Fields → Fields
unfolding put
extended_cpu round2 none freq out = out
extended_cpu round2 (some physical) freq out =
    with_frequency round2 freq (put_positive int "cpu_count_physical" physical out)

-- `_facts_psutil_cpu`
unfoldable pub facts_psutil_cpu : Tools → System → Bool → Fields
unfolding extended_cpu
facts_psutil_cpu t s extended = elim s.cpu_count [
  | none ↦ end
  | some n ↦
      if extended
      then extended_cpu t.round2 s.cpu_count_physical s.cpu_freq (field "cpu_count" n end)
      else field "cpu_count" n end
]

-- `_facts_psutil_memory`
unfoldable pub facts_psutil_memory : Tools → System → Bool → Fields
facts_psutil_memory t s extended = elim s.memory [
  | none ↦ end
  | some (total, available, free) ↦ field "memory_total_gb" (bytes t total) (
      if extended
      then field "memory_available_gb" (bytes t available)
          (field "memory_free_gb" (bytes t free) end)
      else end)
]

-- `_facts_psutil_root_disk_usage`
unfoldable pub facts_psutil_root_disk_usage : Tools → System → String → Fields
facts_psutil_root_disk_usage t s mount = elim (s.disk_usage mount) [
  | none ↦ end
  | some (total, free) ↦
      field "disk_total_gb" (bytes t total) (field "disk_free_gb" (bytes t free) end)
]

abbrev with_models : Option (List Entry) → Fields → Fields
with_models (some (e ∷ es)) facts = put "disk_models" (obj (entries_to_models_map (e ∷ es))) facts
with_models _ facts = facts

abbrev text_or_null : String → Json
text_or_null s = if s is "" then null else str s

-- `mac or _mac_from_uuid_node()`
abbrev mac_or_node : Tools → System → Json
mac_or_node t s =
    if s.network.mac is ""
    then elim (mac_from_uuid_node t.python s.node) [ none ↦ null | some mac ↦ str mac ]
    else str s.network.mac

abbrev with_cpu_model : Option String → Fields → Fields
with_cpu_model none facts = facts
with_cpu_model (some model) facts = put "cpu_model" (str model) facts

-- the facts that the platform gives at once
unfoldable pub named_facts : Tools → System → Fields
unfolding processor_arch_normalized os_version_on
named_facts t s = os_version_on s.os.platform t.conversions s.os (
    field "system" (str s.system) (
      field "release" (str s.release) (
        field "version" (str s.version) (
          field "machine" (str s.machine) (
            field "processor" (str (processor_arch_normalized (t.python.lower s.machine)))
              (field "hostname_value" (str s.hostname) end))))))

-- the facts before the queries of psutil
unfoldable pub first_facts : Tools → System → Bool → Fields
unfolding named_facts cpu_model_best root_disk_on put
first_facts t s extended = put "disk_id" (str (root_disk_on s.os.platform s.os).1) (
    put "ip_address" (text_or_null s.network.ip)
      (if extended then with_cpu_model (cpu_model_best s) (named_facts t s) else named_facts t s))

-- the facts without the volumes and the address of the network card
unfoldable pub measured_facts : Tools → System → Bool → Fields
unfolding first_facts facts_psutil_cpu facts_psutil_memory facts_psutil_root_disk_usage
    update_fields root_disk_on
measured_facts t s extended =
    update_fields
      (update_fields (update_fields (first_facts t s extended) (facts_psutil_cpu t s extended))
        (facts_psutil_memory t s extended))
      (facts_psutil_root_disk_usage t s (root_disk_on s.os.platform s.os).0)

-- `collect_device_facts`
unfoldable pub collect_device_facts : Tools → System → Bool → Fields
unfolding measured_facts disk_entries entries_to_models_map mac_from_uuid_node put
collect_device_facts t s for_device_id =
    let facts = measured_facts t s (not for_device_id) in
    put "mac" (mac_or_node t s)
      (if for_device_id then facts else with_models (disk_entries t s) facts)
