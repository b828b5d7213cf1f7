-- ===== src/App/Ws/Values.antt =====
-- The conversions `str(v)` and `int(v)` of Python on a received value, and the rows as they are
-- sent. `repr` is the text of a value that is no text, `parse_int` reads the text of a whole
-- number, `iso` is the text of a time, and `as_text` is what a Text column makes of a value that is
-- neither a text nor null (5 is stored as '5', a list is refused).
use py_auth.Prelude.{ℕ, String, Option, none, some, List, [], ◌∷◌, ℤ, pos, if◌then◌else◌}
use py_auth.Json.{
  Json, Items, Fields, null, bool, int, str, obj, nil, cons, end, field, get_or, truthy, put, get,
  to_int,
}
use py_auth.Text.{strip}
use py_auth.App.Models.{Device}

pub record Python : Type 0 where
  pub repr : Json → String
  pub parse_int : String → Option ℤ
  pub iso : ℕ → String
  pub as_text : Json → Option String

-- `str(v)`
unfoldable pub py_str : Python → Json → String
py_str py (str s) = s
py_str py v = py.repr v

-- `int(v)`
unfoldable pub py_int : Python → Json → Option ℤ
unfolding to_int
py_int py v = to_int py.parse_int v

-- `str(data.get("device_id", "")).strip()`
unfoldable pub device_id_of : Python → Fields → String
unfolding py_str strip get_or
device_id_of py d = strip (py_str py (get_or "device_id" (str "") d))

-- `data.get("request_id")`
unfoldable pub request_id_of : Fields → Json
unfolding get_or
request_id_of d = get_or "request_id" null d

-- `v or {}`, if it is a dict
dict_of : Json → Option Fields
unfolding truthy
dict_of (obj d) = some d
dict_of v = if truthy v then none else some end

-- `data.get("data") or {}`, if it is a dict
unfoldable pub update_of : Fields → Option Fields
unfolding get_or dict_of
update_of d = dict_of (get_or "data" null d)

-- The `allowed` fields of an update.
unfoldable pub allowed_of : Fields → Fields
unfolding get put
allowed_of d =
    let remark : Fields = elim (get "remark" d) [ none ↦ end | some v ↦ field "remark" v end ] in
    elim (get "is_authorized" d) [ none ↦ remark | some v ↦ put "is_authorized" v remark ]

opt_str : Option String → Json
opt_str none = null
opt_str (some s) = str s

opt_obj : Option Fields → Json
opt_obj none = null
opt_obj (some f) = obj f

opt_time : Python → Option ℕ → Json
opt_time py none = null
opt_time py (some t) = str (py.iso t)

-- What a Text column has after a value was assigned to it: null and a text stay, and of another value
-- the database makes a text, or refuses it.
unfoldable pub text_column : Python → Json → Option (Option String)
text_column py null = some none
text_column py (str s) = some (some s)
text_column py v = elim (py.as_text v) [ none ↦ none | some s ↦ some (some s) ]

-- the remark of a device after an assignment, if one was sent
unfoldable pub remark_after : Python → Fields → Option String → Option (Option String)
unfolding text_column get
remark_after py allowed old = elim (get "remark" allowed) [
  | none ↦ some old
  | some v ↦ text_column py v
]

-- `DeviceResponse.model_validate(device).model_dump(mode="json")`
unfoldable pub device_response : Python → Device → Json
unfolding opt_str opt_obj opt_time
device_response py d = obj (
    field "id" (int (pos d.id)) (
      field "device_id" (str d.device_id) (
        field "software_name" (opt_str d.software_name) (
          field "device_info" (opt_obj d.device_info) (
            field "remark" (opt_str d.remark) (
              field "is_authorized" (bool d.is_authorized) (
                field "created_at" (str (py.iso d.created_at)) (
                  field "updated_at" (str (py.iso d.updated_at))
                    (field "last_check" (opt_time py d.last_check) end)))))))))

unfoldable pub device_responses : Python → List Device → Items
unfolding device_response
device_responses py [] = nil
device_responses py (d ∷ ds) = cons (device_response py d) (device_responses py ds)
