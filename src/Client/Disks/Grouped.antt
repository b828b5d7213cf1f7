-- ===== src/Client/Disks/Grouped.antt =====
-- device_utils.py: that the map of the models has every volume once.
use mathlib.Core.List.Perm
use mathlib.Core.List.{Perm, perm_middle, perm_append_singleton, append-nil, map-append}
use py_auth.Prelude.{
  ◌≡◌, refl, String, true, false, none, List, [], ◌∷◌, ◌++◌, map, ◌is◌, is_iff, if◌then◌else◌,
  arith, Bool-cases, inl, inr, ap, Bool, Option, some,
}
use py_auth.Json.{Json, Items, Fields, obj, arr, nil, cons, end, field, get}
use py_auth.Json.Laws.{IsDict}
use py_auth.Client.Disks.{
  Entry, Groups, add_entry, group_entries, text_lt, insert_by_mount, sort_by_mount, volume, volumes,
  models_map, entries_to_models_map, entry_key,
}

-- the volumes that a map of models shows
abbrev items : Items → List Json
items nil = []
items (cons v vs) = v ∷ items vs

abbrev volumes_in : Option Json → List Json
volumes_in (some (arr vs)) = items vs
volumes_in _ = []

unfoldable pub all_volumes : Fields → List Json
unfolding get
all_volumes end = []
all_volumes (field k (obj d) rest) = volumes_in (get "volumes" d) ++ all_volumes rest
all_volumes (field k _ rest) = all_volumes rest

insert_by_mount-perm : (e : Entry) (es : List Entry) → Perm (insert_by_mount e es) (e ∷ es)
unfolding insert_by_mount
insert_by_mount-perm e [] = Perm.rfl
insert_by_mount-perm e (f ∷ fs) = elim (Bool-cases (text_lt f.mount e.mount)) [
  | inl h ↦ rw h (Perm.trans (Perm.cons f (insert_by_mount-perm e fs)) (Perm.swap e f fs))
  | inr h ↦ rw h Perm.rfl
]

sort_by_mount-perm : (es : List Entry) → Perm (sort_by_mount es) es
unfolding sort_by_mount
sort_by_mount-perm [] = Perm.rfl
sort_by_mount-perm (e ∷ es) =
    Perm.trans (insert_by_mount-perm e (sort_by_mount es)) (Perm.cons e (sort_by_mount-perm es))

-- the entries of all groups
abbrev grouped : Groups → List Entry
grouped [] = []
grouped ((k, es) ∷ groups) = es ++ grouped groups

add_entry-perm :
    (k : String) (e : Entry) (groups : Groups)
    → Perm (grouped (add_entry k e groups)) (e ∷ grouped groups)
unfolding add_entry
add_entry-perm k e [] = Perm.rfl
add_entry-perm k e ((j, es) ∷ groups) = elim (Bool-cases (j is k)) [
  | inl h ↦ rw h (Perm.append_right (grouped groups) (perm_append_singleton e es))
  | inr h ↦ rw h (
      Perm.trans (Perm.append_left es (add_entry-perm k e groups))
        (perm_middle es (grouped groups)))
]

group_entries-perm :
    (used : List String) (groups : Groups) (es : List Entry)
    → Perm (grouped (group_entries used groups es)) (es ++ grouped groups)
unfolding group_entries
group_entries-perm used groups [] = Perm.rfl
group_entries-perm used groups (e ∷ es) =
    let (k, used') = entry_key used e in
    Perm.trans (group_entries-perm used' (add_entry k e groups) es) (
      Perm.trans (Perm.append_left es (add_entry-perm k e groups))
        (perm_middle es (grouped groups)))

items-volumes : (es : List Entry) → items (volumes es) ≡ map volume es
unfolding volumes
items-volumes [] = refl
items-volumes (e ∷ es) = ap (λ vs. volume e ∷ vs) (items-volumes es)

shown-perm :
    (groups : Groups) → Perm (all_volumes (models_map groups)) (map volume (grouped groups))
unfolding all_volumes models_map get ◌is◌
shown-perm [] = Perm.rfl
shown-perm ((k, es) ∷ groups) =
    rw (items-volumes (sort_by_mount es), map-append volume es (grouped groups))
      (Perm.append (Perm.map volume (sort_by_mount-perm es)) (shown-perm groups))

-- no two groups have one key
abbrev keyed : String → Groups → Bool
keyed k [] = false
keyed k ((j, es) ∷ groups) = if j is k then true else keyed k groups

abbrev IsKeyed : Groups → Type 0
IsKeyed [] = Unit
IsKeyed ((k, es) ∷ groups) = (keyed k groups ≡ false) × IsKeyed groups

keyed-add_entry :
    (j k : String) (e : Entry) (groups : Groups)
    → keyed j (add_entry k e groups) ≡ (if k is j then true else keyed j groups)
unfolding add_entry
keyed-add_entry j k e [] = refl
keyed-add_entry j k e ((i, es) ∷ groups) =
    ground (arith, is_iff i k, is_iff k j, is_iff i j, keyed-add_entry j k e groups)

add_entry-IsKeyed :
    (k : String) (e : Entry) (groups : Groups) → IsKeyed groups → IsKeyed (add_entry k e groups)
unfolding add_entry
add_entry-IsKeyed k e [] h = (refl, tt)
add_entry-IsKeyed k e ((j, es) ∷ groups) h = elim (Bool-cases (j is k)) [
  | inl q ↦ rw q h
  | inr q ↦ rw q (
    ground (arith, h.0, keyed-add_entry j k e groups, is_iff k j, is_iff j k),
    add_entry-IsKeyed k e groups h.1,
  )
]

group_entries-IsKeyed :
    (used : List String) (groups : Groups) (es : List Entry)
    → IsKeyed groups
    → IsKeyed (group_entries used groups es)
unfolding group_entries
group_entries-IsKeyed used groups [] h = h
group_entries-IsKeyed used groups (e ∷ es) h =
    let (k, used') = entry_key used e in
    group_entries-IsKeyed used' (add_entry k e groups) es (add_entry-IsKeyed k e groups h)

models_map-none :
    (k : String) (groups : Groups) → keyed k groups ≡ false → get k (models_map groups) ≡ none
unfolding models_map get
models_map-none k [] h = refl
models_map-none k ((j, es) ∷ groups) h = ground (arith, models_map-none k groups)

models_map-IsDict : (groups : Groups) → IsKeyed groups → IsDict (models_map groups)
unfolding models_map
models_map-IsDict [] h = tt
models_map-IsDict ((k, es) ∷ groups) h =
    (models_map-none k groups h.0, models_map-IsDict groups h.1)

-- The map of the models of disks has every volume that was found exactly once, and no key twice,
-- also where volumes without a model get keys of their own.
pub entries_to_models_map-perm :
    (es : List Entry)
    → Perm (all_volumes (entries_to_models_map es)) (map volume es)
      × IsDict (entries_to_models_map es)
unfolding entries_to_models_map
entries_to_models_map-perm es =
    let groups = group_entries [] [] es in
    (
      Perm.trans (shown-perm groups)
          (Perm.map volume (rw append-nil at (group_entries-perm [] [] es))),
      models_map-IsDict groups (group_entries-IsKeyed [] [] es tt),
    )
