-- ===== src/App/Admin/Config/Policy.antt =====
-- The configured default and the registration of devices.
use py_auth.Prelude.{
  String, ◌≡◌, ◌≢◌, refl, Bool, true, false, Option, none, some, arith, find-update, ◌is◌, is_refl,
  is_iff, find-append_none, find-update_miss, find-append_miss, sym, Option-cases, Bool-cases, inl,
  inr, contains, if◌then◌else◌, find-holds,
}
use py_auth.Json.{Json, Fields, null, bool, end, field, get}
use py_auth.Json.Laws.{get-put, IsDict, put-IsDict}
use py_auth.App.Coerce.{coerce_boolish}
use py_auth.App.Models.{User, Config, Db, Env, done, find_config, add_operation_log}
use py_auth.App.Heartbeat.{default_authorization}
use py_auth.App.Admin.Config.{
  configs_shown, normalize, normalize_one, store_config, store_configs, update_configs_by,
}

-- the stored value of a key
abbrev pub config_value : String → Db → Option Json
config_value key db = elim (find_config key db) [ none ↦ none | some c ↦ some c.value ]

-- What the console shows as the default for new devices is what a new device gets, unless the
-- stored value is null.
pub shown-eq-applied :
    (db : Db)
    → config_value "default_authorization" db ≢ some null
    → configs_shown db ≡ field "default_authorization" (bool (default_authorization db)) end
unfolding configs_shown default_authorization coerce_boolish
shown-eq-applied db h = ground (arith, h)

module _ (acc : Fields) (k : String) (v : Json) where
  normalize_one-IsDict : IsDict acc → IsDict (normalize_one acc k v)
  unfolding normalize_one contains
  normalize_one-IsDict h = elim (Bool-cases (k is "default_authorization")) [
    | inl e ↦
        rw (e, (is_iff "default_authorization" k).1 (sym ((is_iff k "default_authorization").0 e)))
          (put-IsDict k (bool (coerce_boolish v false)) acc h)
    | inr e ↦ elim (Bool-cases ("default_authorization" is k)) [
      | inl f ↦ rw (e, f) h
      | inr f ↦ rw f h
    ]
  ]

  get-normalize_one : get "default_authorization" (normalize_one acc k v) ≡ (
      if k is "default_authorization"
      then some (bool (coerce_boolish v false))
      else get "default_authorization" acc)
  unfolding normalize_one contains
  get-normalize_one = ground (
    arith,
    is_iff k "default_authorization",
    is_iff "default_authorization" k,
    get-put k "default_authorization" (bool (coerce_boolish v false)) acc,
  )

normalize-IsDict : (acc d : Fields) → IsDict acc → IsDict (normalize acc d)
unfolding normalize
normalize-IsDict acc end h = h
normalize-IsDict acc (field k v d) h =
    normalize-IsDict (normalize_one acc k v) d (normalize_one-IsDict acc k v h)

get-normalize :
    (acc d : Fields)
    → IsDict d
    → get "default_authorization" (normalize acc d) ≡ elim (get "default_authorization" d) [
      | none ↦ get "default_authorization" acc
      | some v ↦ some (bool (coerce_boolish v false))
    ]
unfolding normalize get
get-normalize acc end h = refl
get-normalize acc (field k v d) h = ground (
  arith,
  is_iff k "default_authorization",
  get-normalize (normalize_one acc k v) d h.1,
  get-normalize_one acc k v,
)

module _ (k j : String) (v : Json) (db : Db) where
  value-store_new :
      find_config k db ≡ none
      → config_value j (store_config k v db) ≡ (if k is j then some v else config_value j db)
  unfolding store_config find_config
  value-store_new e = ground (
    arith,
    is_iff k j,
    find-append_none (λ (c : Config). c.key is j) db.configs (record { key = k; value = v }),
    find-append_miss (λ (c : Config). c.key is j) db.configs (record { key = k; value = v }),
  )

  value-store_old :
      (c : Config)
      → find_config k db ≡ some c
      → config_value j (store_config k v db) ≡ (if k is j then some v else config_value j db)
  unfolding store_config find_config
  value-store_old c e =
      let name = (is_iff c.key k).0 (find-holds (λ (c : Config). c.key is k) db.configs c e) in
      elim (Bool-cases (k is j)) [
        | inl hit ↦ ground (
          arith,
          is_iff k j,
          name,
          find-update (λ (d : Config). d.key is j) (λ (d : Config). d.key is c.key)
              (λ (d : Config). record d { value = v }) db.configs c (λ d. refl),
          is_refl c.key,
        )
        | inr miss ↦ ground (
          arith,
          name,
          find-update_miss (λ (d : Config). d.key is j) (λ (d : Config). d.key is c.key)
              (λ (d : Config). record d { value = v }) db.configs (λ d. refl)
              (λ d same. ground (arith, is_iff d.key c.key, is_iff d.key j, is_iff k j)),
        )
      ]

  value-store :
      config_value j (store_config k v db) ≡ (if k is j then some v else config_value j db)
  value-store = elim (Option-cases (find_config k db)) [
    | inl e ↦ value-store_new e
    | inr (c, e) ↦ value-store_old c e
  ]

value-store_configs :
    (j : String) (d : Fields) (db : Db)
    → IsDict d
    → config_value j (store_configs d db)
      ≡ elim (get j d) [ none ↦ config_value j db | some v ↦ some v ]
unfolding store_configs get
value-store_configs j end db h = refl
value-store_configs j (field k v d) db h =
    ground
      (arith, is_iff k j, value-store_configs j d (store_config k v db) h.1, value-store k j v db)

policy_of_value :
    (db : Db) (b : Bool)
    → config_value "default_authorization" db ≡ some (bool b)
    → (default_authorization db ≡ b)
      × (configs_shown db ≡ field "default_authorization" (bool b) end)
unfolding default_authorization configs_shown coerce_boolish
policy_of_value db b h = (ground arith, ground arith)

stored_value :
    (configs : Fields) (v : Json) (db : Db)
    → IsDict configs
    → get "default_authorization" configs ≡ some v
    → config_value "default_authorization" (store_configs (normalize end configs) db)
      ≡ some (bool (coerce_boolish v false))
stored_value configs v db dict sent = ground (
  arith,
  value-store_configs "default_authorization" (normalize end configs) db
      (normalize-IsDict end configs tt),
  get-normalize end configs dict,
)

-- After the console stored a value for the default, both what it shows and what a new device gets
-- is that value read as a truth value.
pub update_configs-applied :
    (env : Env) (configs : Fields) (v : Json) (db : Db) (user : User) (message : String)
    → IsDict configs
    → get "default_authorization" configs ≡ some v
    → (update_configs_by env configs db user).0 ≡ done message
    → (default_authorization (update_configs_by env configs db user).1 ≡ coerce_boolish v false)
      × (configs_shown (update_configs_by env configs db user).1
          ≡ field "default_authorization" (bool (coerce_boolish v false)) end)
unfolding update_configs_by
update_configs-applied env configs v db user message dict sent h =
    let ok : env.commit_ok ≡ true = ground arith in
    rw ok (
      policy_of_value _ (coerce_boolish v false)
        (unfold add_operation_log find_config in stored_value configs v db dict sent))
