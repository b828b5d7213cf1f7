-- ===== src/Client/Cache/Clears.antt =====
-- auth_client.py: `clear_cache`, and `get_cache` after it.
use py_auth.Prelude.{
  ℕ, String, ◌≡◌, refl, true, Option, none, some, List, ◌is◌, ap, ◌∙◌, Bool-cases, Option-cases,
  inl, inr, ◌⊎◌, ltb, length, take, drop, ◌+◌, contains,
}
use py_auth.Json.{
  Json, Fields, null, bool, int, float, str, arr, obj, end, field, get, put, pop, pop_all,
}
use py_auth.Json.Laws.{IsDict, get-put, get-pop, get-pop_all}
use py_auth.Client.Bundle.{
  commit_apps_map, load_apps_map, row_last_success_ts, root_stray_keys, product_revoke_keys,
}
use py_auth.Client.Bundle.Commit.{IsProper, IsClean}
use py_auth.Client.Bundle.Loaded.{pop_all-IsDict, pop_all-IsClean}
use py_auth.Client.Bundle.Stored.{get-stored, pop-stored}
use py_auth.Client.Storage.{Library, derive_key, read_state_dict, state_of, nonce_len}
use py_auth.Client.Storage.Roundtrip.{Faithful, read-write}
use py_auth.Client.Cache.{
  clear_state, AuthCache, Io, File, write_with_retry, clear_cache, cleared_apps, get_cache,
  read_row, cache_of_row, row_in, or_empty, dict_or_empty, any_device,
}
use py_auth.Client.Cache.Saves.{cache_of-nonempty_row}

-- the root that `clear_cache` writes
abbrev pub cleared_root : AuthCache → Fields → Fields
cleared_root c root =
    commit_apps_map (pop_all root_stray_keys root)
      (cleared_apps c (load_apps_map (pop_all root_stray_keys root)))

cleared_time :
    (c : AuthCache) (row : Fields)
    → get "last_success_at"
        (pop "software_name" (put "device_id" (str c.device_id) (pop_all product_revoke_keys row)))
      ≡ none
unfolding contains ◌is◌
cleared_time c row = simp (get-pop, get-put, get-pop_all)

module _ (lib : Library) (c : AuthCache) (root : Fields) (dict : IsDict root) (clean : IsClean root)
    (proper : IsProper c.software_name) where
  cleared_root-cached :
      cache_of_row lib (row_in c.software_name (some (pop "device_id" (cleared_root c root))))
      ≡ none
  unfolding cleared_apps contains ◌is◌ row_last_success_ts
  cleared_root-cached =
      let d = pop_all root_stray_keys root in
      let before = pop "software_name" (dict_or_empty (get c.software_name (load_apps_map d))) in
      let row = put "device_id" (str c.device_id) (pop_all product_revoke_keys before) in
      let dict' = pop_all-IsDict root_stray_keys root dict in
      let clean' = pop_all-IsClean root_stray_keys root clean in
      rw
        (
          pop-stored c.software_name row d dict' clean' proper
              (get-pop_all root_stray_keys "device_id" root),
          get-stored c.software_name row d dict' clean' proper,
        )
        (cache_of-nonempty_row lib (pop "software_name" row)
          ∙ rw (cleared_time c before, row_last_success_ts) refl)

state_of_left :
    (v : Json) (raw : List ℕ)
    → ((state_of v raw).1 ≡ some raw) ⊎ (((state_of v raw).0 ≡ none) × ((state_of v raw).1 ≡ none))
unfolding state_of
state_of_left (obj d) raw = inl refl
state_of_left null raw = inr (refl, refl)
state_of_left (bool b) raw = inr (refl, refl)
state_of_left (int z) raw = inr (refl, refl)
state_of_left (float z) raw = inr (refl, refl)
state_of_left (str s) raw = inr (refl, refl)
state_of_left (arr items) raw = inr (refl, refl)

-- a read leaves the file, or deletes one that holds no state
read_left :
    (lib : Library) (server_url : String) (file : File)
    → ((read_state_dict lib server_url file).1 ≡ file)
      ⊎ (((read_state_dict lib server_url file).0 ≡ none)
          × ((read_state_dict lib server_url file).1 ≡ none))
unfolding read_state_dict
read_left lib server_url none = inl refl
read_left lib server_url (some raw) =
    let key = derive_key lib server_url in
    elim (Bool-cases (ltb (length raw) (nonce_len + 16 + 1))) [
      | inl e ↦ rw e (inl refl)
      | inr e ↦ elim (Option-cases (lib.decrypt key (take nonce_len raw) (drop nonce_len raw))) [
        | inl f ↦ rw (e, f) (inl refl)
        | inr (plain, f) ↦ elim (Option-cases (lib.loads plain)) [
          | inl g ↦ rw (e, f, g) (inl refl)
          | inr (v, g) ↦ rw (e, f, g) (state_of_left v raw)
        ]
      ]
    ]

-- reading the file that a read left gives the same state
read-read :
    (lib : Library) (server_url : String) (file : File)
    → (read_state_dict lib server_url (read_state_dict lib server_url file).1).0
      ≡ (read_state_dict lib server_url file).0
read-read lib server_url file = elim (read_left lib server_url file) [
  | inl e ↦ ap (λ (f : File). (read_state_dict lib server_url f).0) e
  | inr (e, f) ↦ rw (e, f) (unfold read_state_dict in refl)
]

cached_in :
    (lib : Library) (c : AuthCache) (file : File) (state : Option Fields)
    → (read_state_dict lib c.server_url file).0 ≡ state
    → get_cache lib c file ≡ cache_of_row lib (row_in c.software_name state)
unfolding get_cache read_row
cached_in lib c file state e =
    ap (λ (s : Option Fields). cache_of_row lib (row_in c.software_name s)) e

clear_state-get_cache :
    (lib : Library) (c : AuthCache) (io : Io) (state : Option Fields) (file : File)
    → (read_state_dict lib c.server_url file).0 ≡ state
    → io.write_ok 0 ≡ true
    → IsDict (or_empty state)
    → IsClean (or_empty state)
    → IsProper c.software_name
    → Faithful lib (derive_key lib c.server_url) (io.nonce 0) (cleared_root c (or_empty state))
    → get_cache lib c (clear_state lib c io state file).1 ≡ none
unfolding clear_state write_with_retry cache_of_row
clear_state-get_cache lib c io none file e ok dict clean proper faithful =
    cached_in lib c file none e
clear_state-get_cache lib c io (some end) file e ok dict clean proper faithful =
    cached_in lib c file (some end) e ∙ (unfold load_apps_map in unfold get in refl)
clear_state-get_cache lib c io (some (field k v d)) file e ok dict clean proper faithful =
    let root = field k v d in
    let (written, back) =
      read-write lib c.server_url (io.nonce 0) (cleared_root c root) file faithful in
    elim (Bool-cases (any_device (cleared_apps c (load_apps_map (pop_all root_stray_keys root))))) [
      | inr gone ↦ rw gone (cached_in lib c none none (unfold read_state_dict in refl))
      | inl kept ↦
          rw (kept, ok, written)
            (cached_in lib c _ _ back ∙ cleared_root-cached lib c root dict clean proper)
    ]

-- After `clear_cache` no authorization is cached, where the first write succeeds and the libraries
-- are faithful on what is written. The state before has no repeated key, and its products and this
-- one have stripped, non-empty names other than the reserved ones.
pub clear_cache-get_cache :
    (lib : Library) (c : AuthCache) (io : Io) (file : File)
    → io.write_ok 0 ≡ true
    → IsDict (or_empty (read_state_dict lib c.server_url file).0)
    → IsClean (or_empty (read_state_dict lib c.server_url file).0)
    → IsProper c.software_name
    → Faithful lib
        (derive_key lib c.server_url)
        (io.nonce 0)
        (cleared_root c (or_empty (read_state_dict lib c.server_url file).0))
    → get_cache lib c (clear_cache lib c io file).1 ≡ none
unfolding clear_cache
clear_cache-get_cache lib c io file =
    clear_state-get_cache lib c io (read_state_dict lib c.server_url file).0
      (read_state_dict lib c.server_url file).1 (read-read lib c.server_url file)
