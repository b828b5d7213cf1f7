-- ===== src/Tool/Redact.antt =====
-- What the tool hides.
use py_auth.Prelude.{String, ◌≡◌, refl, arith, ◌is◌, if◌then◌else◌, Bool-cases, inl, inr, is_iff}
use py_auth.Json.{Json, Items, Fields, null, bool, int, float, str, arr, obj, nil, cons, end, field}
use py_auth.Tool.{redact, redact_fields, redact_items}

-- At no depth a key `device_info_snapshot` has another value than the text HIDE.
unfoldable mutual
  pub IsHidden : Json → Type 0
  IsHidden (obj d) = FieldsHidden d
  IsHidden (arr items) = ItemsHidden items
  IsHidden _ = Unit

  pub FieldsHidden : Fields → Type 0
  FieldsHidden end = Unit
  FieldsHidden (field k v d) =
      (k ≡ "device_info_snapshot" → v ≡ str "HIDE") × IsHidden v × FieldsHidden d

  pub ItemsHidden : Items → Type 0
  ItemsHidden nil = Unit
  ItemsHidden (cons v items) = IsHidden v × ItemsHidden items

IsHidden-if :
    (k : String) (shown : Json)
    → IsHidden shown
    → (k ≡ "device_info_snapshot"
        → (if k is "device_info_snapshot" then str "HIDE" else shown) ≡ str "HIDE")
      × IsHidden (if k is "device_info_snapshot" then str "HIDE" else shown)
unfolding IsHidden
IsHidden-if k shown h = elim (Bool-cases (k is "device_info_snapshot")) [
  | inl e ↦ rw e ((λ same. refl), tt)
  | inr e ↦ rw e ((λ same. absurd (ground (arith, is_iff k "device_info_snapshot"))), h)
]

mutual
  unfolding redact IsHidden

  hides : (v : Json) → IsHidden (redact v)
  hides (obj d) = hides_fields d
  hides (arr items) = hides_items items
  hides null = tt
  hides (bool b) = tt
  hides (int z) = tt
  hides (float z) = tt
  hides (str s) = tt

  hides_fields : (d : Fields) → FieldsHidden (redact_fields d)
  hides_fields end = tt
  hides_fields (field k v d) =
      let (same, hidden) = IsHidden-if k (redact v) (hides v) in (same, hidden, hides_fields d)

  hides_items : (items : Items) → ItemsHidden (redact_items items)
  hides_items nil = tt
  hides_items (cons v items) = (hides v, hides_items items)

-- What the tool shows without `--detail` has, at no depth, a snapshot of device information: every key
-- `device_info_snapshot` has the text HIDE.
pub redact-IsHidden : (v : Json) → IsHidden (redact v)
redact-IsHidden v = hides v
