-- ===== src/Client/Bundle/Commit.antt =====
-- Reading the map of products back from the root that it was committed to.
use py_auth.Prelude.{
  String, ◌≡◌, refl, true, false, not, ◌&&◌, Option, none, some, arith, contains, ◌is◌, is_iff,
  Bool-cases, inl, inr, if◌then◌else◌, ap, sym, ◌∙◌, Option-cases,
}
use py_auth.Json.{Json, Fields, obj, end, field, get, put, pop}
use py_auth.Json.Laws.{get-put, get-pop, IsDict, put-IsDict}
use py_auth.Text.{strip}
use py_auth.Client.Bundle.{
  reserved_root_keys, load_one, load_into, load_apps_map, is_dict, is_some, drop_stale, put_all,
  commit_apps_map,
}

-- a name that is stripped, not empty and not reserved
abbrev pub IsProper : String → Type 0
IsProper name =
    (strip name ≡ name) × ((name is "") ≡ false) × (contains reserved_root_keys name ≡ false)

-- A map of products as the program builds it.
abbrev pub IsApps : Fields → Type 0
IsApps end = Unit
IsApps (field name v apps) = IsProper name × (is_dict v ≡ true) × IsApps apps

-- Each row of a product in the root has a proper name.
abbrev pub IsClean : Fields → Type 0
IsClean end = Unit
IsClean (field k v root) =
    (is_dict v ≡ true → contains reserved_root_keys k ≡ false → IsProper k) × IsClean root

-- what a row becomes when it is read
abbrev pub read_row : Json → Option Json → Option Json
read_row (obj row) old = some (obj (pop "software_name" row))
read_row _ old = old

abbrev pub read_at : String → Fields → Option Json → Option Json
read_at name root old =
    if contains reserved_root_keys name
    then old
    else elim (get name root) [ none ↦ old | some v ↦ read_row v old ]

get-load_clean :
    (name k : String) (v : Json) (out : Fields)
    → (is_dict v ≡ true → contains reserved_root_keys k ≡ false → IsProper k)
    → get name (load_one out k v) ≡ (
        if k is name
        then (if contains reserved_root_keys name then get name out else read_row v (get name out))
        else get name out)
unfolding load_one
get-load_clean name k (obj row) out clean = elim (Bool-cases (contains reserved_root_keys k)) [
  | inl e ↦ ground (arith, is_iff k name)
  | inr e ↦
      let (stripped, nonempty, free) = clean refl e in
      ground (
        arith,
        is_iff k name,
        stripped,
        nonempty,
        get-put k name (obj (pop "software_name" row)) out,
      )
]
get-load_clean name k _ out clean = ground (arith)

get-load_into :
    (name : String) (out root : Fields)
    → IsDict root
    → IsClean root
    → get name (load_into out root) ≡ read_at name root (get name out)
unfolding load_into get
get-load_into name out end d c = ground arith
get-load_into name out (field k v root) d c = ground (
  arith,
  is_iff k name,
  get-load_into name (load_one out k v) root d.1 c.1,
  get-load_clean name k v out c.0,
)

pub get-put_all :
    (name : String) (root apps : Fields)
    → IsDict apps
    → get name (put_all root apps) ≡ elim (get name apps) [ none ↦ get name root | some v ↦ some v ]
unfolding put_all get
get-put_all name root end d = refl
get-put_all name root (field k v apps) d =
    ground (arith, is_iff k name, get-put_all name (put k v root) apps d.1, get-put k name v root)

put_all-IsDict : (root apps : Fields) → IsDict root → IsDict (put_all root apps)
unfolding put_all
put_all-IsDict root end d = d
put_all-IsDict root (field k v apps) d = put_all-IsDict (put k v root) apps (put-IsDict k v root d)

pub put-IsClean :
    (k : String) (v : Json) (root : Fields) → IsProper k → IsClean root → IsClean (put k v root)
unfolding put
put-IsClean k v end p c = ((λ _ _. p), tt)
put-IsClean k v (field j w root) p c = elim (Bool-cases (j is k)) [
  | inl e ↦ rw e ((λ _ _. rw ((is_iff j k).0 e) p), c.1)
  | inr e ↦ rw e (c.0, put-IsClean k v root p c.1)
]

put_all-IsClean : (root apps : Fields) → IsApps apps → IsClean root → IsClean (put_all root apps)
unfolding put_all
put_all-IsClean root end a c = c
put_all-IsClean root (field k v apps) a c =
    put_all-IsClean (put k v root) apps a.2 (put-IsClean k v root a.0 c)

get-IsProper : (k : String) (apps : Fields) → IsApps apps → is_some (get k apps) ≡ true → IsProper k
unfolding get
get-IsProper k end a h = absurd (ground arith)
get-IsProper k (field j v apps) a h = elim (Bool-cases (j is k)) [
  | inl e ↦ rw (sym ((is_iff j k).0 e)) a.0
  | inr e ↦ get-IsProper k apps a.2 (rw e at h)
]

drop_stale-IsClean : (apps root : Fields) → IsApps apps → IsClean (drop_stale apps root)
unfolding drop_stale
drop_stale-IsClean apps end a = tt
drop_stale-IsClean apps (field k v root) a =
    elim (Bool-cases
      (not (contains reserved_root_keys k) && is_dict v && not (is_some (get k apps)))) [
        | inl e ↦ rw e (drop_stale-IsClean apps root a)
        | inr e ↦
            rw e
              ((λ dict free. get-IsProper k apps a (ground arith)), drop_stale-IsClean apps root a)
      ]

pub get-drop_stale-none :
    (k : String) (apps root : Fields) → get k root ≡ none → get k (drop_stale apps root) ≡ none
unfolding drop_stale get
get-drop_stale-none k apps end h = refl
get-drop_stale-none k apps (field j v root) h = ground (arith, get-drop_stale-none k apps root)

drop_stale-IsDict : (apps root : Fields) → IsDict root → IsDict (drop_stale apps root)
unfolding drop_stale
drop_stale-IsDict apps end d = tt
drop_stale-IsDict apps (field k v root) d =
    elim (Bool-cases
      (not (contains reserved_root_keys k) && is_dict v && not (is_some (get k apps)))) [
        | inl e ↦ rw e (drop_stale-IsDict apps root d.1)
        | inr e ↦ rw e (get-drop_stale-none k apps root d.0, drop_stale-IsDict apps root d.1)
      ]

pub pop-IsDict : (k : String) (root : Fields) → IsDict root → IsDict (pop k root)
unfolding pop
pop-IsDict k end d = tt
pop-IsDict k (field j v root) d = elim (Bool-cases (j is k)) [
  | inl e ↦ rw e (pop-IsDict k root d.1)
  | inr e ↦ rw e (ground (arith, get-pop k j root, is_iff k j), pop-IsDict k root d.1)
]

-- a product that the map does not have leaves no row in what is kept
get-drop_stale :
    (name : String) (apps root : Fields)
    → get name apps ≡ none
    → contains reserved_root_keys name ≡ false
    → read_at name (drop_stale apps root) none ≡ none
unfolding drop_stale get
get-drop_stale name apps end h free = ground arith
get-drop_stale name apps (field k (obj row) root) h free = ground (
  arith,
  is_iff k name,
  ap (λ (n : String). get n apps) {x = k} {y = name},
  ap (contains reserved_root_keys) {x = k} {y = name},
  get-drop_stale name apps root h free,
)
get-drop_stale name apps (field k _ root) h free =
    ground (arith, is_iff k name, get-drop_stale name apps root h free)

pub not_reserved :
    (name : String) (apps : Fields)
    → IsApps apps
    → contains reserved_root_keys name ≡ true
    → get name apps ≡ none
unfolding get
not_reserved name end a h = refl
not_reserved name (field k v apps) a h =
    ground (arith, a.0.2, is_iff k name, not_reserved name apps a.2 h)

read-committed :
    (name : String) (kept apps : Fields)
    → IsDict apps
    → IsApps apps
    → (get name apps ≡ none
        → contains reserved_root_keys name ≡ false
        → read_at name kept none ≡ none)
    → read_at name (put_all kept apps) none
      ≡ elim (get name apps) [ none ↦ none | some v ↦ read_row v none ]
read-committed name kept apps e a stale = elim (Bool-cases (contains reserved_root_keys name)) [
  | inl reserved ↦ ground (arith, not_reserved name apps a reserved)
  | inr free ↦ elim (Option-cases (get name apps)) [
    | inl missing ↦ ground (arith, get-put_all name kept apps e, stale missing free)
    | inr (v, found) ↦ ground (arith, get-put_all name kept apps e)
  ]
]

-- After a map of products was committed to a root and the root is read back, every product has the
-- row that the map gave it, without a `software_name`, and there is no other product: the rows that
-- the root had before and the map has not are gone. Root and map have no repeated key, and the map
-- gives each product a row, under a stripped, non-empty name other than the reserved ones.
pub load-commit :
    (name : String) (root apps : Fields)
    → IsDict root
    → IsDict apps
    → IsApps apps
    → get name (load_apps_map (commit_apps_map root apps))
      ≡ elim (get name apps) [ none ↦ none | some v ↦ read_row v none ]
unfolding load_apps_map commit_apps_map
load-commit name root apps d e a =
    let kept = drop_stale apps (pop "apps" root) in
    let dict =
      put_all-IsDict kept apps
        (drop_stale-IsDict apps (pop "apps" root) (pop-IsDict "apps" root d)) in
    let clean = put_all-IsClean kept apps a (drop_stale-IsClean apps (pop "apps" root) a) in
    get-load_into name end (put_all kept apps) dict clean
    ∙ (unfold get in read-committed name kept apps e a (get-drop_stale name apps (pop "apps" root)))
