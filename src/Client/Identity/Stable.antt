-- ===== src/Client/Identity/Stable.antt =====
-- device_utils.py: that a persisted identifier is found again, and that a device keeps it.
use py_auth.Prelude.{
  ℕ, String, ◌≡◌, refl, Bool, true, false, none, some, List, arith, ◌is◌, ◌∙◌, ap, if◌then◌else◌,
  Bool-cases, is_refl, ltb, length, take, drop, ◌+◌, Option-cases, inl, inr,
}
use py_auth.Json.{Json, Fields, null, bool, int, float, str, arr, obj, get, put, pop}
use py_auth.Json.Laws.{IsDict, get-put, get-pop}
use py_auth.Text.{strip}
use py_auth.Client.Bundle.{load_apps_map, row_device_id_str}
use py_auth.Client.Bundle.Commit.{IsProper, IsClean}
use py_auth.Client.Bundle.Stored.{stored, get-stored, pop-stored}
use py_auth.Client.Storage.{Library, derive_key, read_state_dict, state_of, nonce_len}
use py_auth.Client.Storage.Roundtrip.{Faithful, read-write}
use py_auth.Client.Cache.{File, or_empty, dict_or_empty}
use py_auth.Client.Identity.{
  row_id, load_persisted_device_id, persisted_root, persist_device_id, Naming, known_id,
  build_device_id, computed_id, id_components,
}

state_of-device_id :
    (v : Json) (raw : List ℕ) → get "device_id" (or_empty (state_of v raw).0) ≡ none
unfolding state_of
state_of-device_id (obj d) raw = simp (get-pop, is_refl)
state_of-device_id null raw = unfold get in refl
state_of-device_id (bool b) raw = unfold get in refl
state_of-device_id (int z) raw = unfold get in refl
state_of-device_id (float z) raw = unfold get in refl
state_of-device_id (str s) raw = unfold get in refl
state_of-device_id (arr items) raw = unfold get in refl

-- a state that was read has no `device_id` at its root
pub read-device_id :
    (lib : Library) (server_url : String) (file : File)
    → get "device_id" (or_empty (read_state_dict lib server_url file).0) ≡ none
unfolding read_state_dict
read-device_id lib server_url none = unfold get in refl
read-device_id lib server_url (some raw) =
    let key = derive_key lib server_url in
    elim (Bool-cases (ltb (length raw) (nonce_len + 16 + 1))) [
      | inl e ↦ rw e (unfold get in refl)
      | inr e ↦ elim (Option-cases (lib.decrypt key (take nonce_len raw) (drop nonce_len raw))) [
        | inl f ↦ rw (e, f) (unfold get in refl)
        | inr (plain, f) ↦ elim (Option-cases (lib.loads plain)) [
          | inl g ↦ rw (e, f, g) (unfold get in refl)
          | inr (v, g) ↦ rw (e, f, g) (state_of-device_id v raw)
        ]
      ]
    ]

saved_id :
    (device_id : String) (row : Fields)
    → row_device_id_str (pop "software_name" (put "device_id" (str device_id) row))
      ≡ (if strip device_id is "" then none else some (strip device_id))
unfolding row_device_id_str
saved_id device_id row =
    let e : get "device_id" (pop "software_name" (put "device_id" (str device_id) row))
        ≡ some (str device_id) =
      unfold ◌is◌ in simp (get-pop, get-put) in
    rw (e, row_device_id_str) refl

module _ (lib : Library) (server_url name : String) (nonce : List ℕ) (file : File) where
  abbrev pub state_before : Fields
  state_before = or_empty (read_state_dict lib server_url file).0

  module _ (dict : IsDict state_before) (clean : IsClean state_before)
      (proper : IsProper name) where
    persisted-stored :
        (device_id : String)
        → persisted_root device_id name state_before
          ≡ stored name
              (put "device_id"
                (str device_id)
                (pop "software_name" (dict_or_empty (get name (load_apps_map state_before)))))
              state_before
    unfolding persisted_root
    persisted-stored device_id =
        pop-stored name _ state_before dict clean proper (read-device_id lib server_url file)

    -- An identifier that was persisted is loaded again, stripped, where the write succeeds and the
    -- libraries are faithful on what is written.
    pub load-persist_device_id :
        (device_id : String)
        → (strip device_id is "") ≡ false
        → Faithful lib
            (derive_key lib server_url)
            nonce
            (persisted_root device_id name state_before)
        → (load_persisted_device_id lib server_url name
            (persist_device_id lib server_url nonce true device_id name file)).0
          ≡ some (strip device_id)
    unfolding load_persisted_device_id persist_device_id
    load-persist_device_id device_id nonempty faithful =
        let row =
          put "device_id" (str device_id)
            (pop "software_name" (dict_or_empty (get name (load_apps_map state_before)))) in
        let root = persisted_root device_id name state_before in
        let back =
          (read-write lib server_url nonce root (read_state_dict lib server_url file).1
            faithful).1 in
        rw
          (
            back,
            persisted-stored device_id,
            pop-stored name row state_before dict clean proper (read-device_id lib server_url file),
          )
          (ap row_id (get-stored name row state_before dict clean proper)
            ∙ saved_id device_id
                (pop "software_name" (dict_or_empty (get name (load_apps_map state_before))))
            ∙ rw nonempty refl)

-- A device whose identifier was computed and persisted keeps it: the next program that asks for one
-- under the same server and product, on the same file, is given the same identifier, whatever facts
-- it collects then, whether or not anything can be written then. The computed identifier has no
-- white space at its ends, as a hash or a UUID has none.
pub build_device_id-build_device_id :
    (lib : Library) (py py' : Naming) (server_url name : String) (nonce nonce' : List ℕ)
    (write_ok' : Bool) (facts facts' : Fields) (file : File)
    → (load_persisted_device_id lib server_url name file).0 ≡ none
    → IsDict (
        state_before lib server_url name nonce
          (load_persisted_device_id lib server_url name file).1)
    → IsClean (
        state_before lib server_url name nonce
          (load_persisted_device_id lib server_url name file).1)
    → IsProper name
    → strip (computed_id py (id_components py facts name))
      ≡ computed_id py (id_components py facts name)
    → (computed_id py (id_components py facts name) is "") ≡ false
    → Faithful lib (derive_key lib server_url) nonce (
        persisted_root (computed_id py (id_components py facts name)) name (
          state_before lib server_url name nonce
            (load_persisted_device_id lib server_url name file).1))
    → (build_device_id lib py' server_url nonce' write_ok' "" facts' name none
        (build_device_id lib py server_url nonce true "" facts name none file).1).0
      ≡ (build_device_id lib py server_url nonce true "" facts name none file).0
unfolding build_device_id known_id
build_device_id-build_device_id lib py py' server_url name nonce nonce' write_ok' facts facts' file
      unknown dict clean proper stripped nonempty faithful =
    let id = computed_id py (id_components py facts name) in
    let found =
      load-persist_device_id lib server_url name nonce
        (load_persisted_device_id lib server_url name file).1 dict clean proper id
        (rw stripped nonempty) faithful in
    ground (arith, unknown, found, stripped, is_refl "")
