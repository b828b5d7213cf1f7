-- ===== src/Client/Disks/Legacy.antt =====
-- device_utils.py: older forms of the volumes, which are brought into the form of the models.
use py_auth.Prelude.{String, Option, none, some, List, [], ◌∷◌, ◌is◌, if◌then◌else◌}
use py_auth.Json.{Json, Items, Fields, arr, obj, nil, cons, end, field, get, put, pop, truthy}
use py_auth.Text.{strip}
use py_auth.Client.Disks.{disk_volume_map_key, key_or, text_lt}

-- the keys in their order
unfoldable pub insert_sorted : String → Json → Fields → Fields
unfolding text_lt
insert_sorted k v end = field k v end
insert_sorted k v (field j w d) =
    let rest = insert_sorted k v d in
    if text_lt j k then field j w rest else field k v (field j w d)

unfoldable pub sort_fields : Fields → Fields
unfolding insert_sorted
sort_fields end = end
sort_fields (field k v d) = insert_sorted k v (sort_fields d)

-- `{x: item[x] for x in ks if x in item}`
unfoldable pub keep_keys : List String → Fields → Fields
unfolding get
keep_keys [] item = end
keep_keys (k ∷ ks) item =
    let rest = keep_keys ks item in elim (get k item) [ none ↦ rest | some v ↦ field k v rest ]

abbrev one_volume : Fields → Json
one_volume item = obj (
    field "volumes"
      (arr (cons (obj (keep_keys ("mount" ∷ "total_gb" ∷ "free_gb" ∷ "device" ∷ []) item)) nil))
      end)

-- the loop over a dict of volumes
unfoldable pub volume_rows : Fields → Fields
unfolding keep_keys
volume_rows end = end
volume_rows (field key (obj item) d) = field key (one_volume item) (volume_rows d)
volume_rows (field key _ d) = volume_rows d

-- `str(item.get(key) or "")`; `to_text` is `str`
abbrev text_in : (Json → String) → String → Fields → String
text_in to_text key item = elim (get key item) [
  | none ↦ ""
  | some v ↦ if truthy v then to_text v else ""
]

-- the loop over a list of volumes, each under a key of its own
unfoldable pub fold_volumes : (Json → String) → List String → Fields → Items → Fields
unfolding disk_volume_map_key put pop get truthy
fold_volumes to_text used folded nil = folded
fold_volumes to_text used folded (cons (obj item) items) =
    let key = key_or "unknown" (
      disk_volume_map_key (text_in to_text "model" item) (text_in to_text "mount" item)
        (text_in to_text "device" item) used) in
    fold_volumes to_text (key ∷ used) (put key (obj (pop "model" item)) folded) items
fold_volumes to_text used folded (cons _ items) = fold_volumes to_text used folded items

-- `_legacy_disk_volumes_to_models`
unfoldable pub legacy_disk_volumes_to_models : (Json → String) → Json → Fields
unfolding volume_rows sort_fields fold_volumes
legacy_disk_volumes_to_models to_text (obj vols) = volume_rows (sort_fields vols)
legacy_disk_volumes_to_models to_text (arr vols) =
    volume_rows (sort_fields (fold_volumes to_text [] end vols))
legacy_disk_volumes_to_models to_text _ = end

-- `xs + [v]`
unfoldable pub snoc : Items → Json → Items
snoc nil v = cons v nil
snoc (cons w items) v = cons w (snoc items v)

abbrev items_of : Option Json → Items
items_of (some (arr items)) = items
items_of _ = nil

-- `merged.setdefault(m, []).append(v)` for each dict of a list
unfoldable pub merge_volumes : String → Fields → Items → Fields
unfolding put get snoc
merge_volumes m merged nil = merged
merge_volumes m merged (cons (obj v) items) =
    merge_volumes m (put m (arr (snoc (items_of (get m merged)) (obj v))) merged) items
merge_volumes m merged (cons _ items) = merge_volumes m merged items

abbrev or_unknown : String → String
or_unknown s = if s is "" then "unknown" else s

unfoldable pub merge_disks : (Json → String) → Fields → Items → Fields
unfolding merge_volumes strip get truthy
merge_disks to_text merged nil = merged
merge_disks to_text merged (cons (obj item) items) =
    merge_disks to_text
      (merge_volumes (or_unknown (strip (text_in to_text "model" item))) merged
        (items_of (get "volumes" item)))
      items
merge_disks to_text merged (cons _ items) = merge_disks to_text merged items

-- `{k: {"volumes": v} for k, v in merged.items() if v}`; no list in it is empty
unfoldable pub with_volumes : Fields → Fields
with_volumes end = end
with_volumes (field k v merged) = field k (obj (field "volumes" v end)) (with_volumes merged)

-- `_legacy_disk_disks_to_models`
unfoldable pub legacy_disk_disks_to_models : (Json → String) → Json → Fields
unfolding merge_disks with_volumes
legacy_disk_disks_to_models to_text (arr disks) = with_volumes (merge_disks to_text end disks)
legacy_disk_disks_to_models to_text _ = end
