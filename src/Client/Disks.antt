-- ===== src/Client/Disks.antt =====
-- client/python/py_auth_client/device_utils.py: the map from the models of disks to their volumes.
pub mod Keys
pub mod Grouped
pub mod Legacy
use Prim.Native.Char.{Char, code}
use py_auth.Prelude.{
  ℕ, zero, suc, ◌+◌, String, Bool, true, false, ◌&&◌, ◌||◌, Option, none, some, List, [], ◌∷◌, ◌++◌,
  length, contains, ltb, ◌==◌, ◌is◌, if◌then◌else◌,
}
use py_auth.Text.{strip, append}
use py_auth.Text.Decimal.{decimal}
use py_auth.Json.{Json, Items, Fields, str, arr, obj, nil, cons, end, field, get, put, truthy}

abbrev or_text : String → String → String
or_text s t = if s is "" then t else s

-- the text that a key is made from: the first of the three that is not empty
unfoldable pub key_base : String → String → String → String
unfolding strip
key_base model mount device =
    or_text (strip model) (or_text (strip device) (or_text (strip mount) "unknown"))

-- the key that the loop tries with a given suffix
unfoldable pub key_with : String → String → ℕ → String
unfolding decimal
key_with base mount zero = base
key_with base mount (suc zero) = append base (append " @ " mount)
key_with base mount (suc (suc n)) =
    append base (append " @ " (append mount (append " (" (append (decimal (suc (suc n))) ")"))))

-- `while k in used`, from a suffix on; `none` is the end of the fuel
unfoldable pub free_key : ℕ → (ℕ → String) → List String → ℕ → Option String
unfolding contains
free_key zero key used suffix = none
free_key (suc fuel) key used suffix =
    let rest = free_key fuel key used (suc suffix) in
    if contains used (key suffix) then rest else some (key suffix)

-- `_disk_volume_map_key`, which adds the key to `used`. One round more than there are used keys is
-- enough.
unfoldable pub disk_volume_map_key : String → String → String → List String → Option String
unfolding key_base key_with free_key
disk_volume_map_key model mount device used =
    free_key (suc (length used)) (key_with (key_base model mount device) mount) used 0

-- One volume, as `collect_device_facts` makes it; a device that is missing is the empty text.
pub record Entry : Type 0 where
  pub model : String
  pub mount : String
  pub device : String
  pub total_gb : Json
  pub free_gb : Json

-- `none` does not occur, since the fuel is enough
abbrev pub key_or : String → Option String → String
key_or default none = default
key_or default (some k) = k

-- the key of a volume, and the used keys afterwards
unfoldable pub entry_key : List String → Entry → String × List String
unfolding strip disk_volume_map_key
entry_key used e =
    let fresh = key_or "unknown" (disk_volume_map_key "" e.mount e.device used) in
    if strip e.model is "" then (fresh, fresh ∷ used) else (strip e.model, used)

abbrev pub Groups : Type 0
Groups = List (String × List Entry)

-- `groups.setdefault(k, []).append(e)`
unfoldable pub add_entry : String → Entry → Groups → Groups
add_entry k e [] = (k, e ∷ []) ∷ []
add_entry k e ((j, es) ∷ groups) =
    let rest = add_entry k e groups in if j is k then (j, es ++ e ∷ []) ∷ groups else (j, es) ∷ rest

unfoldable pub group_entries : List String → Groups → List Entry → Groups
unfolding entry_key add_entry
group_entries used groups [] = groups
group_entries used groups (e ∷ es) =
    let (k, used') = entry_key used e in group_entries used' (add_entry k e groups) es

-- `s < t`, by code points
unfoldable pub text_lt : String → String → Bool
text_lt s String.[] = false
text_lt String.[] (String.◌∷◌ d t) = true
text_lt (String.◌∷◌ c s) (String.◌∷◌ d t) =
    ltb (code c) (code d) || ((code c == code d) && text_lt s t)

-- `sl.sort(key=...)`, a stable sort by the place
unfoldable pub insert_by_mount : Entry → List Entry → List Entry
unfolding text_lt
insert_by_mount e [] = e ∷ []
insert_by_mount e (f ∷ fs) =
    let rest = insert_by_mount e fs in if text_lt f.mount e.mount then f ∷ rest else e ∷ f ∷ fs

unfoldable pub sort_by_mount : List Entry → List Entry
unfolding insert_by_mount
sort_by_mount [] = []
sort_by_mount (e ∷ es) = insert_by_mount e (sort_by_mount es)

-- the dict of one volume
unfoldable pub volume : Entry → Json
volume e = obj (
    field "mount" (str e.mount) (
      field "total_gb" e.total_gb (
        field "free_gb" e.free_gb
          (if e.device is "" then end else field "device" (str e.device) end))))

unfoldable pub volumes : List Entry → Items
unfolding volume
volumes [] = nil
volumes (e ∷ es) = cons (volume e) (volumes es)

-- `out[k] = {"volumes": vols}` for each group; no two groups have one key
unfoldable pub models_map : Groups → Fields
unfolding sort_by_mount volumes
models_map [] = end
models_map ((k, es) ∷ groups) =
    field k (obj (field "volumes" (arr (volumes (sort_by_mount es))) end)) (models_map groups)

-- `_entries_to_models_map`
unfoldable pub entries_to_models_map : List Entry → Fields
unfolding group_entries models_map
entries_to_models_map es = models_map (group_entries [] [] es)
