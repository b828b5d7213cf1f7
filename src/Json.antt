-- ===== src/Json.antt =====
-- The Python values that `json.loads` gives and `json.dumps` takes, and what the program asks of
-- them: truth, equality, and a dict's `get`, assignment, `pop` and `keys`.
-- A dict keeps the order of insertion. A float is held in millionths: `float 1500000` is 1.5.
pub mod Laws
use py_auth.Prelude.{
  ℕ, zero, suc, ◌+◌, ◌*◌, ◌/◌, String, Bool, true, false, not, ◌&&◌, ◌||◌, Option, none, some, List,
  [], ◌∷◌, ◌==◌, ◌is◌, contains, if◌then◌else◌, ℤ, pos, negsuc, is_zero, ◌==ℤ◌,
}

mutual
  pub data Json : Type 0 where
    null : Json
    bool : Bool → Json
    int : ℤ → Json
    float : ℤ → Json
    str : String → Json
    arr : Items → Json
    obj : Fields → Json

  pub data Items : Type 0 where
    nil : Items
    cons : Json → Items → Items

  pub data Fields : Type 0 where
    end : Fields
    field : String → Json → Fields → Fields

-- `bool(v)`
unfoldable pub truthy : Json → Bool
truthy null = false
truthy (bool b) = b
truthy (int z) = not (is_zero z)
truthy (float z) = not (is_zero z)
truthy (str s) = not (s is "")
truthy (arr nil) = false
truthy (arr (cons _ _)) = true
truthy (obj end) = false
truthy (obj (field _ _ _)) = true

-- `d.get(k)`
unfoldable pub get : String → Fields → Option Json
get k end = none
get k (field j v d) = if j is k then some v else get k d

-- `d[k] = v`: a new key goes to the end
unfoldable pub put : String → Json → Fields → Fields
put k v end = field k v end
put k v (field j w d) = if j is k then field j v d else field j w (put k v d)

-- `d.pop(k, None)`
unfoldable pub pop : String → Fields → Fields
pop k end = end
pop k (field j v d) = let rest = pop k d in if j is k then rest else field j v rest

unfoldable pub pop_all : List String → Fields → Fields
unfolding pop
pop_all [] d = d
pop_all (k ∷ ks) d = pop_all ks (pop k d)

abbrev pub keys : Fields → List String
keys end = []
keys (field k v d) = k ∷ keys d

abbrev pub size : Fields → ℕ
size end = 0
size (field k v d) = suc (size d)

-- `d.update(other)`
unfoldable pub update_fields : Fields → Fields → Fields
unfolding put
update_fields d end = d
update_fields d (field k v other) = update_fields (put k v d) other

-- `d.get(k, default)`
unfoldable pub get_or : String → Json → Fields → Json
unfolding get
get_or k default d = elim (get k d) [ none ↦ default | some v ↦ v ]

-- A number in millionths, where the value is one; `True` is 1 and `False` is 0.
unfoldable pub millionths : Json → Option ℤ
millionths (bool true) = some (pos 1000000)
millionths (bool false) = some (pos 0)
millionths (int (pos n)) = some (pos (n * 1000000))
millionths (int (negsuc n)) = some (negsuc (n * 1000000 + 999999))
millionths (float z) = some z
millionths _ = none

-- `-n`
abbrev minus : ℕ → ℤ
minus zero = pos 0
minus (suc n) = negsuc n

-- `int(v)`: a float is cut towards zero, `parse_int` reads the text of a whole number, and `none`
-- is a `TypeError` or `ValueError`
unfoldable pub to_int : (String → Option ℤ) → Json → Option ℤ
to_int parse_int (bool true) = some (pos 1)
to_int parse_int (bool false) = some (pos 0)
to_int parse_int (int z) = some z
to_int parse_int (float (pos n)) = some (pos (n / 1000000))
to_int parse_int (float (negsuc n)) = some (minus (suc n / 1000000))
to_int parse_int (str s) = parse_int s
to_int parse_int _ = none

same_number : Option ℤ → Option ℤ → Bool
same_number (some a) (some b) = a ==ℤ b
same_number _ _ = false

-- `a == b`. Lists are compared by position, dicts by key in any order, numbers by value.
unfoldable mutual
  unfolding millionths same_number get

  pub equal : Json → Json → Bool
  equal null null = true
  equal (str s) (str t) = s is t
  equal (arr xs) (arr ys) = equal_items xs ys
  equal (obj xs) (obj ys) = (size xs == size ys) && equal_fields xs ys
  equal a b = same_number (millionths a) (millionths b)

  pub equal_items : Items → Items → Bool
  equal_items nil nil = true
  equal_items (cons x xs) (cons y ys) = equal x y && equal_items xs ys
  equal_items _ _ = false

  pub equal_fields : Fields → Fields → Bool
  equal_fields end ys = true
  equal_fields (field k v xs) ys =
      elim (get k ys) [ none ↦ false | some w ↦ equal v w ] && equal_fields xs ys
