-- ===== src/Client/Bundle/Loaded.antt =====
-- state_bundle.py: the map of products that `load_apps_map` builds.
use py_auth.Prelude.{
  String, ◌≡◌, refl, true, false, ◌||◌, List, [], ◌∷◌, arith, ◌is◌, is_iff, contains, Bool-cases,
  inl, inr,
}
use py_auth.Json.{Json, Fields, obj, end, field, put, pop, pop_all}
use py_auth.Json.Laws.{IsDict, put-IsDict}
use py_auth.Text.{strip}
use py_auth.Client.Bundle.{reserved_root_keys, load_one, load_into, is_dict}
use py_auth.Client.Bundle.Commit.{IsProper, IsApps, IsClean, pop-IsDict}

pub put-IsApps :
    (k : String) (row apps : Fields) → IsProper k → IsApps apps → IsApps (put k (obj row) apps)
unfolding put
put-IsApps k row end p a = (p, refl, tt)
put-IsApps k row (field j w apps) p a = elim (Bool-cases (j is k)) [
  | inl e ↦ rw e ((rw ((is_iff j k).0 e) p), refl, a.2)
  | inr e ↦ rw e (a.0, a.1, put-IsApps k row apps p a.2)
]

pub pop_all-IsDict : (ks : List String) (root : Fields) → IsDict root → IsDict (pop_all ks root)
unfolding pop_all
pop_all-IsDict [] root d = d
pop_all-IsDict (k ∷ ks) root d = pop_all-IsDict ks (pop k root) (pop-IsDict k root d)

pop-IsClean : (k : String) (root : Fields) → IsClean root → IsClean (pop k root)
unfolding pop
pop-IsClean k end c = tt
pop-IsClean k (field j v root) c = elim (Bool-cases (j is k)) [
  | inl e ↦ rw e (pop-IsClean k root c.1)
  | inr e ↦ rw e (c.0, pop-IsClean k root c.1)
]

pub pop_all-IsClean : (ks : List String) (root : Fields) → IsClean root → IsClean (pop_all ks root)
unfolding pop_all
pop_all-IsClean [] root c = c
pop_all-IsClean (k ∷ ks) root c = pop_all-IsClean ks (pop k root) (pop-IsClean k root c)

load_one-IsDict : (out : Fields) (k : String) (v : Json) → IsDict out → IsDict (load_one out k v)
unfolding load_one
load_one-IsDict out k (obj row) d =
    elim (Bool-cases (contains reserved_root_keys k || strip k is "")) [
      | inl e ↦ rw e d
      | inr e ↦ rw e (put-IsDict (strip k) (obj (pop "software_name" row)) out d)
    ]
load_one-IsDict out k _ d = d

pub load_into-IsDict : (out root : Fields) → IsDict out → IsDict (load_into out root)
unfolding load_into
load_into-IsDict out end d = d
load_into-IsDict out (field k v root) d =
    load_into-IsDict (load_one out k v) root (load_one-IsDict out k v d)

load_one-IsApps :
    (out : Fields) (k : String) (v : Json)
    → (is_dict v ≡ true → contains reserved_root_keys k ≡ false → IsProper k)
    → IsApps out
    → IsApps (load_one out k v)
unfolding load_one
load_one-IsApps out k (obj row) proper a =
    elim (Bool-cases (contains reserved_root_keys k || strip k is "")) [
      | inl e ↦ rw e a
      | inr e ↦
          let p : IsProper k = proper refl (ground arith) in
          rw e (put-IsApps (strip k) (pop "software_name" row) out (rw p.0 p) a)
    ]
load_one-IsApps out k _ proper a = a

pub load_into-IsApps : (out root : Fields) → IsClean root → IsApps out → IsApps (load_into out root)
unfolding load_into
load_into-IsApps out end c a = a
load_into-IsApps out (field k v root) c a =
    load_into-IsApps (load_one out k v) root c.1 (load_one-IsApps out k v c.0 a)
