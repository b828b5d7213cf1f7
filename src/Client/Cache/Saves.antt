-- ===== src/Client/Cache/Saves.antt =====
-- auth_client.py: `save_cache`, and `get_cache` after it.
use py_auth.Prelude.{
  ℕ, suc, ◌≡◌, refl, Bool, true, false, Option, none, some, ◌is◌, pos, if◌then◌else◌, ◌∙◌, contains,
}
use py_auth.Json.{Fields, float, obj, end, field, get, pop, pop_all}
use py_auth.Json.Laws.{IsDict, get-put, get-pop, get-pop_all}
use py_auth.Client.Bundle.{load_apps_map, row_last_success_ts, root_stray_keys, to_float}
use py_auth.Client.Bundle.Commit.{IsProper, IsClean}
use py_auth.Client.Bundle.Stored.{get-stored, pop-stored}
use py_auth.Client.Bundle.Loaded.{pop_all-IsDict, pop_all-IsClean}
use py_auth.Client.Storage.{Library, derive_key, read_state_dict}
use py_auth.Client.Storage.Roundtrip.{Faithful, read-write}
use py_auth.Client.Cache.{
  AuthCache, Io, File, write_with_retry, save_cache, get_cache, read_row, or_empty, saved_row,
  saved_root, cache_of_row, row_in, dict_or_empty, nonempty_row,
}

saved_time :
    (c : AuthCache) (authorized : Bool) (ts : ℕ) (hb : Option ℕ) (snapshot : Option Fields)
    (row : Fields)
    → get "last_success_at" (pop "software_name" (saved_row c authorized ts hb snapshot row))
      ≡ (if authorized then some (float (pos ts)) else none)
unfolding saved_row contains ◌is◌
saved_time c false ts hb snapshot row = simp (get-pop, get-put)
saved_time c true ts none none row = simp (get-pop, get-put)
saved_time c true ts none (some end) row = simp (get-pop, get-put)
saved_time c true ts none (some (field k v d)) row = simp (get-pop, get-put)
saved_time c true ts (some n) none row = simp (get-pop, get-put)
saved_time c true ts (some n) (some end) row = simp (get-pop, get-put)
saved_time c true ts (some n) (some (field k v d)) row = simp (get-pop, get-put)

pub cache_of-nonempty_row :
    (lib : Library) (row : Fields)
    → cache_of_row lib (nonempty_row (some (obj row))) ≡ row_last_success_ts lib.parse_float row
unfolding cache_of_row row_last_success_ts get
cache_of-nonempty_row lib end = refl
cache_of-nonempty_row lib (field k v row) = refl

saved_row-cached :
    (lib : Library) (c : AuthCache) (authorized : Bool) (n : ℕ) (hb : Option ℕ)
    (snapshot : Option Fields) (row : Fields)
    → row_last_success_ts lib.parse_float
        (pop "software_name" (saved_row c authorized (suc n) hb snapshot row))
      ≡ (if authorized then some (suc n) else none)
unfolding row_last_success_ts to_float
saved_row-cached lib c true n hb snapshot row =
    rw (saved_time c true (suc n) hb snapshot row, row_last_success_ts) refl
saved_row-cached lib c false n hb snapshot row =
    rw (saved_time c false (suc n) hb snapshot row, row_last_success_ts) refl

-- In a state without repeated keys, whose products have stripped, non-empty names other than the
-- reserved ones, `save_cache` leaves exactly this for a product with such a name: where the server
-- granted, the cached authorization is read back with the time of saving, whatever else is saved;
-- where it refused, none is.
pub saved_root-cached :
    (lib : Library) (c : AuthCache) (authorized : Bool) (n : ℕ) (hb : Option ℕ)
    (snapshot : Option Fields) (root : Fields)
    → IsDict root
    → IsClean root
    → IsProper c.software_name
    → cache_of_row lib
        (row_in c.software_name (some (saved_root c authorized (suc n) hb snapshot root)))
      ≡ (if authorized then some (suc n) else none)
unfolding saved_root
saved_root-cached lib c authorized n hb snapshot root dict clean proper =
    let d = pop_all root_stray_keys root in
    let before = pop "software_name" (dict_or_empty (get c.software_name (load_apps_map d))) in
    let row = saved_row c authorized (suc n) hb snapshot before in
    rw
      (get-stored c.software_name row d (pop_all-IsDict root_stray_keys root dict)
        (pop_all-IsClean root_stray_keys root clean) proper)
      (cache_of-nonempty_row lib (pop "software_name" row)
        ∙ saved_row-cached lib c authorized n hb snapshot before)

saved_root-device_id :
    (c : AuthCache) (authorized : Bool) (ts : ℕ) (hb : Option ℕ) (snapshot : Option Fields)
    (root : Fields)
    → IsDict root
    → IsClean root
    → IsProper c.software_name
    → pop "device_id" (saved_root c authorized ts hb snapshot root)
      ≡ saved_root c authorized ts hb snapshot root
unfolding saved_root contains ◌is◌
saved_root-device_id c authorized ts hb snapshot root dict clean proper =
    let d = pop_all root_stray_keys root in
    pop-stored c.software_name
      (saved_row c authorized ts hb snapshot
        (pop "software_name" (dict_or_empty (get c.software_name (load_apps_map d)))))
      d (pop_all-IsDict root_stray_keys root dict) (pop_all-IsClean root_stray_keys root clean)
      proper (get-pop_all root_stray_keys "device_id" root)

-- Where the first write succeeds and the libraries are faithful on what is written, `save_cache`
-- succeeds, and `get_cache` then reads the time of saving where the server granted and nothing
-- where it refused. The state before has no repeated key, and its products and this one have
-- stripped, non-empty names other than the reserved ones.
pub save_cache-get_cache :
    (lib : Library) (c : AuthCache) (io : Io) (authorized : Bool) (n : ℕ) (hb : Option ℕ)
    (snapshot : Option Fields) (file : File)
    → io.now ≡ suc n
    → io.write_ok 0 ≡ true
    → IsDict (or_empty (read_state_dict lib c.server_url file).0)
    → IsClean (or_empty (read_state_dict lib c.server_url file).0)
    → IsProper c.software_name
    → Faithful lib (derive_key lib c.server_url) (io.nonce 0) (
        saved_root c authorized io.now hb snapshot
          (or_empty (read_state_dict lib c.server_url file).0))
    → ((save_cache lib c io authorized hb snapshot file).0 ≡ true)
      × (get_cache lib c (save_cache lib c io authorized hb snapshot file).1
          ≡ (if authorized then some io.now else none))
unfolding save_cache get_cache read_row write_with_retry
save_cache-get_cache lib c io authorized n hb snapshot file later ok dict clean proper faithful =
    let root = or_empty (read_state_dict lib c.server_url file).0 in
    let d = saved_root c authorized io.now hb snapshot root in
    let (written, back) =
      read-write lib c.server_url (io.nonce 0) d (read_state_dict lib c.server_url file).1
        faithful in
    rw (ok, written)
      (
        refl,
        rw
            (
              back,
              saved_root-device_id c authorized io.now hb snapshot root dict clean proper,
              later,
            )
            (saved_root-cached lib c authorized n hb snapshot root dict clean proper),
      )
