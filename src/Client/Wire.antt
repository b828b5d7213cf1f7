-- ===== src/Client/Wire.antt =====
-- client/python/py_auth_client/auth_client.py: the encryption of requests and replies, and the device
-- information that the two kinds of request send.
use py_auth.Prelude.{String, Bool, true, false, Option, none, some, ◌is◌, if◌then◌else◌}
use py_auth.Json.{Json, Fields, str, obj, end, field, get, put, truthy}
use py_auth.Text.{strip}

-- What the client calls of `cryptography` and `json`. `none` is an exception.
pub record Wire : Type 0 where
  -- `Fernet(urlsafe_b64encode(sha256(secret)))`
  pub fernet : String → String
  pub encrypt : String → String → String
  pub decrypt : String → String → Option String
  pub dumps : Json → Option String
  pub loads : String → Option Json

-- `_encrypt_data`
unfoldable pub encrypt_data : Wire → String → Fields → Option String
encrypt_data wire secret d = elim (wire.dumps (obj d)) [
  | none ↦ none
  | some text ↦ some (wire.encrypt (wire.fernet secret) text)
]

-- `_decrypt_data`
unfoldable pub decrypt_data : Wire → String → String → Option Json
decrypt_data wire secret text = elim (wire.decrypt (wire.fernet secret) text) [
  | none ↦ none
  | some plain ↦ wire.loads plain
]

-- `_device_info_lacks_nonblank_public_ip`
unfoldable pub lacks_public_ip : Fields → Bool
unfolding get strip
lacks_public_ip device_info = elim (get "network" device_info) [
  | some (obj network) ↦ elim (get "public_ip" network) [
    | some (str ip) ↦ strip ip is ""
    | _ ↦ true
  ]
  | _ ↦ true
]

-- `dict(d.get(key) or {})`; a value that is true and no dict raises, or is a list of pairs, which the
-- program does not store there
unfoldable pub dict_at : String → Fields → Option Fields
unfolding get truthy
dict_at key d = elim (get key d) [
  | none ↦ some end
  | some (obj row) ↦ some row
  | some v ↦ if truthy v then none else some end
]

abbrev pub is_end : Fields → Bool
is_end end = true
is_end (field _ _ _) = false

-- The end of `_check_online_worker`: the device information that is sent, and what `device_info`
-- holds afterwards. `pub` is the public address, empty where it is unknown.
unfoldable pub with_public_ip : String → Fields → Option (Fields × Fields)
unfolding dict_at put
with_public_ip public_ip device_info = elim (dict_at "network" device_info) [
  | none ↦ none
  | some network ↦
      let network' = if public_ip is "" then network else put "public_ip" (str public_ip) network in
      some (
        (if is_end network' then device_info else put "network" (obj network') device_info),
        (if public_ip is "" then device_info else put "network" (obj network') device_info),
      )
]

-- `d.setdefault(key, value)`
unfoldable pub set_default : String → Json → Fields → Fields
unfolding get put
set_default key v d = elim (get key d) [ none ↦ put key v d | some w ↦ d ]

unfoldable pub set_defaults : Fields → Fields → Fields
unfolding set_default
set_defaults end d = d
set_defaults (field key v rest) d = set_defaults rest (set_default key v d)

-- What `_check_online_fast_worker` sends: the information at hand, completed by the constants of the
-- program (`base_sdk`), the name of the host and the platform.
unfoldable pub fast_device_info : Json → Fields → String → String → Fields → Option Fields
unfolding dict_at put get truthy set_default set_defaults
fast_device_info software_version base_sdk hostname platform device_info =
    elim (dict_at "sdk" (put "software_version" software_version device_info)) [
      | none ↦ none
      | some sdk ↦
          let d =
            put "sdk" (obj (set_defaults base_sdk sdk))
              (put "software_version" software_version device_info) in
          let known : Bool = elim (get "hostname" d) [ none ↦ false | some v ↦ truthy v ] in
          some (
            set_default "platform" (str platform)
              (if known then d else put "hostname" (str hostname) d))
    ]
