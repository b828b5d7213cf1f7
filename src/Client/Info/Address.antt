-- ===== src/Client/Info/Address.antt =====
-- The public address of the device: what `build_device_info` collects has none, and a check that has
-- found it keeps it.
use py_auth.Prelude.{
  String, ◌≡◌, refl, true, false, Option, none, some, ◌is◌, is_iff, Bool-cases, inl, inr, ap,
}
use py_auth.Json.{Json, Fields, str, obj, end, field, put}
use py_auth.Text.{strip}

abbrev first_block : Fields → Option Json
first_block end = none
first_block (field k v d) = some (obj (field k v d))

-- the information with an address
abbrev with_ip : String → Fields → Fields → Fields
with_ip ip network info = put "network" (obj (put "public_ip" (str ip) network)) info

strip_blank : (strip "" is "") ≡ true
unfolding strip ◌is◌
strip_blank = refl

nonempty : (ip : String) → (strip ip is "") ≡ false → (ip is "") ≡ false
nonempty ip h = elim (Bool-cases (ip is "")) [
  | inr e ↦ e
  | inl e ↦ absurd (cc (ap (λ (s : String). strip s is "") ((is_iff ip "").0 e), strip_blank))
]
