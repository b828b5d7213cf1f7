-- ===== src/Client/Identity.antt =====
-- client/python/py_auth_client/device_utils.py: the identifier of the device, which is computed once
-- and kept in the state file with the product that asked for it.
pub mod Stable
use py_auth.Prelude.{
  ℕ, zero, suc, String, Bool, true, false, Option, none, some, List, [], ◌∷◌, ◌is◌, if◌then◌else◌,
}
use py_auth.Json.{Json, Fields, str, obj, end, field, get, put, pop, truthy}
use py_auth.Text.{strip, append, join, take_text}
use py_auth.Client.Bundle.{load_apps_map, commit_apps_map, row_device_id_str}
use py_auth.Client.Storage.{Library, read_state_dict, write_state_dict}
use py_auth.Client.Cache.{File, or_empty, dict_or_empty}

abbrev pub row_id : Option Json → Option String
row_id (some (obj row)) = row_device_id_str row
row_id _ = none

abbrev pub id_in : String → Option Fields → Option String
id_in name none = none
id_in name (some d) = row_id (get name (load_apps_map d))

-- `load_persisted_device_id`: the identifier, and the file afterwards
unfoldable pub load_persisted_device_id : Library → String → String → File → Option String × File
unfolding read_state_dict load_apps_map row_device_id_str get
load_persisted_device_id lib server_url name file =
    let (state, file') = read_state_dict lib server_url file in (id_in name state, file')

-- the root that `persist_device_id` writes
unfoldable pub persisted_root : String → String → Fields → Fields
unfolding load_apps_map commit_apps_map get put pop
persisted_root device_id name cur =
    let apps = load_apps_map cur in
    pop "device_id" (
      commit_apps_map cur (
        put name
          (obj
            (put "device_id" (str device_id) (pop "software_name" (dict_or_empty (get name apps)))))
          apps))

-- `persist_device_id`: the file afterwards. Whether the write succeeds is not told to the caller.
unfoldable pub persist_device_id : Library → String → List ℕ → Bool → String → String → File → File
unfolding read_state_dict write_state_dict persisted_root
persist_device_id lib server_url nonce write_ok device_id name file =
    let (state, file') = read_state_dict lib server_url file in
    (write_state_dict lib server_url nonce write_ok (persisted_root device_id name (or_empty state))
      file').1

-- What `build_device_id` calls: `str(v)` of a number, `sha256(text.encode()).hexdigest()` and
-- `str(uuid4())`.
pub record Naming : Type 0 where
  pub repr : Json → String
  pub hexdigest : String → String
  pub uuid : String

-- a fact that is a text and not empty; the facts that are read so are texts or missing
abbrev fact_text : Option Json → String
fact_text (some (str s)) = s
fact_text _ = ""

abbrev text_fact : String → Fields → String
text_fact key facts = fact_text (get key facts)

-- `str(facts.get(key) or "")`
abbrev fact_number : Naming → Option Json → String
fact_number py none = ""
fact_number py (some v) = if truthy v then py.repr v else ""

abbrev number_fact : Naming → String → Fields → String
number_fact py key facts = fact_number py (get key facts)

unfoldable pub without_empty : List String → List String
without_empty [] = []
without_empty (s ∷ ss) = let rest = without_empty ss in if s is "" then rest else s ∷ rest

-- the components that are there
unfoldable pub id_components : Naming → Fields → String → List String
unfolding get truthy without_empty
id_components py facts name = without_empty (
    text_fact "mac" facts
    ∷ text_fact "disk_id" facts
    ∷ number_fact py "cpu_count" facts
    ∷ number_fact py "memory_total_gb" facts
    ∷ number_fact py "disk_total_gb" facts
    ∷ text_fact "system" facts
    ∷ text_fact "machine" facts
    ∷ name
    ∷ [])

unfoldable pub computed_id : Naming → List String → String
unfolding join take_text
computed_id py [] = py.uuid
computed_id py (s ∷ ss) = take_text 32 (py.hexdigest (join "-" (s ∷ ss)))

-- The argument `persisted_device_id`: not fetched, or what was fetched. Without it the file is read.
unfoldable pub known_id :
    Library → String → String → Option (Option String) → File → Option String × File
unfolding load_persisted_device_id strip
known_id lib server_url name none file = load_persisted_device_id lib server_url name file
known_id lib server_url name (some none) file = (none, file)
known_id lib server_url name (some (some id)) file =
    (if id is "" then none else some (strip id), file)

-- `build_device_id`: the identifier, and the file afterwards
unfoldable pub build_device_id :
    Library
    → Naming
    → String
    → List ℕ
    → Bool
    → String
    → Fields
    → String
    → Option (Option String)
    → File
    → String × File
unfolding persist_device_id known_id id_components computed_id
build_device_id lib py server_url nonce write_ok provided facts name fetched file =
    if provided is ""
    then (let (known, file') = known_id lib server_url name fetched file in
        elim known [
          | some id ↦ (id, file')
          | none ↦
              let id = computed_id py (id_components py facts name) in
              (id, persist_device_id lib server_url nonce write_ok id name file')
        ])
    else (provided, persist_device_id lib server_url nonce write_ok provided name file)
