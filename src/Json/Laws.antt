-- ===== src/Json/Laws.antt =====
-- The laws of a dict: what `get` finds after an assignment and after `pop`.
use py_auth.Prelude.{
  String, ◌≡◌, refl, Bool, true, false, Option, none, some, List, [], ◌∷◌, ◌||◌, arith, ◌is◌,
  is_iff, is_refl, contains, if◌then◌else◌, Bool-cases, inl, inr,
}
use py_auth.Json.{Json, Fields, end, field, get, put, pop, pop_all, update_fields}

pub get-put :
    (k j : String) (v : Json) (d : Fields)
    → get j (put k v d) ≡ (if k is j then some v else get j d)
unfolding get put
get-put k j v end = refl
get-put k j v (field i w d) = ground (arith, is_iff k j, is_iff i k, is_iff i j, get-put k j v d)

pub get-put_self : (k : String) (v : Json) (d : Fields) → get k (put k v d) ≡ some v
get-put_self k v d = simp (get-put, is_refl)

pub get-pop : (k j : String) (d : Fields) → get j (pop k d) ≡ (if k is j then none else get j d)
unfolding get pop
get-pop k j end = ground arith
get-pop k j (field i w d) = ground (arith, is_iff k j, is_iff i k, is_iff i j, get-pop k j d)

pub get-pop_all :
    (ks : List String) (j : String) (d : Fields)
    → get j (pop_all ks d) ≡ (if contains ks j then none else get j d)
unfolding pop_all contains
get-pop_all [] j d = refl
get-pop_all (k ∷ ks) j d = ground (arith, get-pop_all ks j (pop k d), get-pop k j d)

-- No key occurs twice, as in every dict.
abbrev pub IsDict : Fields → Type 0
IsDict end = Unit
IsDict (field k v d) = (get k d ≡ none) × IsDict d

pub put-IsDict : (k : String) (v : Json) (d : Fields) → IsDict d → IsDict (put k v d)
unfolding put get
put-IsDict k v end h = (refl, tt)
put-IsDict k v (field j w d) h = elim (Bool-cases (j is k)) [
  | inl e ↦ rw e h
  | inr e ↦
      rw e (ground (arith, h.0, get-put k j v d, is_iff k j, is_iff j k), put-IsDict k v d h.1)
]

pub get-update_fields :
    (key : String) (d other : Fields)
    → IsDict other
    → get key (update_fields d other) ≡ elim (get key other) [ none ↦ get key d | some v ↦ some v ]
unfolding update_fields get
get-update_fields key d end h = refl
get-update_fields key d (field k v other) h =
    ground
      (arith, h.0, is_iff k key, get-put k key v d, get-update_fields key (put k v d) other h.1)

pub ruleset dict_laws = (get-put, get-pop, get-pop_all, is_refl)
