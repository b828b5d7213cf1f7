-- ===== src/Client/Facts/Volumes.antt =====
-- device_utils.py: the volumes that `collect_device_facts` finds, by the script on Windows and else by
-- psutil.
use py_auth.Prelude.{
  String, ◌||◌, Option, none, some, List, [], ◌∷◌, contains, ◌is◌, if◌then◌else◌, ℤ, pos,
}
use py_auth.Json.{Json, Items, Fields, null, nil, cons, arr, obj, get, truthy}
use py_auth.Text.{strip, lstrip, rstrip, append, has_prefix, has_suffix}
use py_auth.Client.Bundle.{to_float}
use py_auth.Client.Disks.{Entry}
use py_auth.Client.Platform.{Platform, win32, Conversions, disk_model_on, text_of, printed}
use py_auth.Client.Facts.Asked.{Partition, System, Tools, bytes, is_positive}

-- `row.get(a) or row.get(b)`
abbrev first_true : String → String → Fields → Option Json
first_true a b row = elim (get a row) [
  | none ↦ get b row
  | some v ↦ if truthy v then some v else get b row
]

-- `str(v or "").strip()`
abbrev stripped_text : Conversions → Option Json → String
stripped_text py none = ""
stripped_text py (some v) = if truthy v then strip (text_of py v) else ""

-- `float(v or 0)`
abbrev number_or_zero : (String → Option ℤ) → Option Json → Option ℤ
number_or_zero parse_float none = some (pos 0)
number_or_zero parse_float (some v) = if truthy v then to_float parse_float v else some (pos 0)

-- `row.get("FreeSpace")`, or `row.get("free_space")` where that is None
abbrev free_space : Fields → Option Json
free_space row = elim (get "FreeSpace" row) [
  | none ↦ get "free_space" row
  | some v ↦ elim v [ null ↦ get "free_space" row | w ↦ some w ]
]

abbrev with_backslash : String → String
with_backslash mount = if has_suffix mount "\\" then mount else append mount "\\"

abbrev then_entry :
    Tools → String → String → Option ℤ → Option ℤ → Option (List Entry) → Option (List Entry)
then_entry t mount model (some size) (some free) (some rest) =
    if is_positive size
    then some (
        record {
          model = model;
          mount = with_backslash mount;
          device = "";
          total_gb = t.gib size;
          free_gb = t.gib free;
        }
        ∷ rest)
    else some rest
then_entry t mount model _ _ _ = none

-- the loop over the rows of PowerShell; `none` is an exception of `float`
unfoldable pub windows_entries : Tools → List Fields → Option (List Entry)
unfolding get truthy strip text_of to_float has_suffix
windows_entries t [] = some []
windows_entries t (row ∷ rows) =
    let rest = windows_entries t rows in
    let mount = stripped_text t.conversions (first_true "Mount" "mount" row) in
    if mount is ""
    then rest
    else then_entry t mount (stripped_text t.conversions (first_true "Model" "model" row))
        (number_or_zero t.parse_float (get "Size" row))
        (number_or_zero t.parse_float (free_space row)) rest

-- the device of a partition, empty for a share
abbrev local_device : String → String
local_device device = if has_prefix (strip device) "//" then "" else strip device

-- the loops over the partitions of psutil
unfoldable pub partition_entries : Tools → System → List String → List Partition → List Entry
unfolding contains strip has_prefix disk_model_on
partition_entries t s seen [] = []
partition_entries t s seen (p ∷ ps) =
    let skipped = partition_entries t s seen ps in
    let rest = partition_entries t s (p.mountpoint ∷ seen) ps in
    let listed : List Entry = elim p.usage [
      | none ↦ rest
      | some (total, free) ↦
          record {
            model =
                disk_model_on s.os.platform t.conversions s.os p.mountpoint (local_device p.device);
            mount = p.mountpoint;
            device = local_device p.device;
            total_gb = bytes t total;
            free_gb = bytes t free;
          }
          ∷ rest
    ] in
    if (p.mountpoint is "") || contains seen p.mountpoint then skipped else listed

abbrev from_partitions : Tools → System → Option (List Partition) → Option (List Entry)
from_partitions t s none = none
from_partitions t s (some ps) = some (partition_entries t s [] ps)

-- `[x for x in data if isinstance(x, dict)]`
unfoldable pub dicts_of : Items → List Fields
dicts_of nil = []
dicts_of (cons (obj d) items) = d ∷ dicts_of items
dicts_of (cons _ items) = dicts_of items

abbrev disk_rows : Option Json → Option (List Fields)
disk_rows (some (obj row)) = some (row ∷ [])
disk_rows (some (arr rows)) = some (dicts_of rows)
disk_rows _ = none

-- `_windows_disks_powershell`
unfoldable pub windows_disks_powershell : Tools → System → Option (List Fields)
unfolding strip lstrip rstrip dicts_of
windows_disks_powershell t s = elim (printed s.powershell_disks) [
  | none ↦ none
  | some text ↦ disk_rows (t.loads text)
]

abbrev on_windows : Platform → Option (List Fields) → List Fields
on_windows win32 (some rows) = rows
on_windows _ _ = []

abbrev or_partitions : Tools → System → Option (List Entry) → Option (List Entry)
or_partitions t s none = none
or_partitions t s (some []) = from_partitions t s s.partitions
or_partitions t s (some (e ∷ es)) = some (e ∷ es)

-- the volumes that are found; `none` is an exception
unfoldable pub disk_entries : Tools → System → Option (List Entry)
unfolding windows_entries partition_entries windows_disks_powershell
disk_entries t s =
    or_partitions t s (windows_entries t (on_windows s.os.platform (windows_disks_powershell t s)))
