-- ===== src/Tests/Clients.antt =====
-- Runs of the client.
use py_auth.Prelude.{contains}
use py_auth.Prelude.{
  ℕ, ◌+◌, ◌*◌, ◌≡◌, ◌≤◌, ◌<◌, ◌⊎◌, refl, true, false, Option, none, some, List, [], ◌∷◌, ◌++◌,
  arith, ◌is◌, pos,
}
use py_auth.Text.{strip}
use py_auth.Json.{Fields, bool, int, float, str, obj, end, field, get, pop}
use py_auth.Client.Bundle.{load_apps_map, commit_apps_map}
use py_auth.Client.Bundle.Names.{load_apps_map_unstripped}
use py_auth.Client.Bundle.Commit.{load-commit, read_row}
use py_auth.Client.Storage.{Library, read_state_dict, write_state_dict}
use py_auth.Client.Storage.Roundtrip.{read-write}
use py_auth.Client.Cache.{
  AuthCache, Io, File, is_cache_valid, snapshot_auth_row, saved_root, save_cache, get_cache,
}
use py_auth.Client.Cache.Saves.{save_cache-get_cache}
use py_auth.Client.Check.{
  Texts, Answer, accepted, request_error, Surroundings, check_authorization,
  check_authorization_progressive, online_result, format_remaining_time,
}
use py_auth.Client.Check.Decisions.{
  check_authorization_granted, check_authorization_progressive_granted, first_hb, written,
}
use py_auth.Client.Check.Clock.{format_remaining_time_bounds}
use py_auth.Tests.Data.{texts-ne}

abbrev row : Fields
row =
    field "device_id" (str "d1")
      (field "last_success_at" (float (pos 5)) (field "heartbeat_times" (int (pos 2)) end))

abbrev pub state : Fields
state = field "editor" (obj row) end

-- thirty bytes
abbrev pub body : List ℕ
body = 1 ∷ 2 ∷ 3 ∷ 4 ∷ 5 ∷ 6 ∷ 7 ∷ 8 ∷ 9 ∷ 10 ∷ 11 ∷ 12 ∷ 13 ∷ 14 ∷ 15 ∷ 16 ∷ 17 ∷ []

abbrev pub nonce : List ℕ
nonce = 1 ∷ 2 ∷ 3 ∷ 4 ∷ 5 ∷ 6 ∷ 7 ∷ 8 ∷ 9 ∷ 10 ∷ 11 ∷ 12 ∷ []

-- a library that knows one state
abbrev pub library : Library
library = record {
  sha256 = λ text. 1 ∷ [];
  encrypt = λ key nonce plain. plain;
  decrypt = λ key nonce sealed. some sealed;
  dumps = λ v. some body;
  loads = λ plain. some (obj state);
  parse_float = λ s. none;
  parse_int = λ s. none;
}

abbrev pub cache : AuthCache
cache = record {
  server_url = "http://localhost";
  software_name = "editor";
  device_id = "d1";
  validity = 604800000000;
  check_interval = 172800000000;
}

abbrev pub file : File
file = some (nonce ++ body)

abbrev pub io : Io
io = record { now = 1000; nonce = λ i. nonce; write_ok = λ i. true }

abbrev pub around : Surroundings
around = record {
  io = io;
  attempts = io ∷ [];
  later = io;
  later_attempts = io ∷ [];
  device_info = end;
}

abbrev pub texts : Texts
texts = record {
  server_error = λ code. "error";
  connection_failed = λ text. text;
  unknown_error = λ text. text;
  timed_out = "timeout";
}

abbrev pub granted : ℕ → Option Answer
granted n = some (accepted (some (obj (field "authorized" (bool true) end))))

abbrev lost : ℕ → Option Answer
lost n = some (request_error "refused")

check_authorization_granted_example :
    (((online_result texts (lost (first_hb library cache around file))).success ≡ true)
      × ((online_result texts (lost (first_hb library cache around file))).authorized ≡ true))
    ⊎ (((online_result texts (lost (first_hb library cache around file))).success ≡ false)
        × ((cached_at : ℕ) × (((snapshot_auth_row library cache io file).0 ≡ some cached_at)
              × (1000 < cached_at + 604800000000))))
unfolding check_authorization online_result ◌is◌
check_authorization_granted_example =
    check_authorization_granted library cache around texts lost file refl

check_authorization_progressive_granted_example :
    let hb = first_hb library cache around file in
    let light = online_result texts (lost hb) in
    let second = online_result texts (lost (hb + 1)) in
    ((light.success ≡ true)
      × (light.authorized ≡ true)
      × (((second.success ≡ true) × (second.authorized ≡ true))
          ⊎ ((second.success ≡ false)
              × (is_cache_valid library cache 1000 (written library cache around light file)
                  ≡ true))))
    ⊎ ((light.success ≡ false)
        × (((light.success ≡ true) × (light.authorized ≡ true))
            ⊎ ((light.success ≡ false)
                × ((cached_at : ℕ) × (((snapshot_auth_row library cache io file).0 ≡ some cached_at)
                      × (1000 < cached_at + 604800000000))))))
unfolding check_authorization_progressive online_result ◌is◌
check_authorization_progressive_granted_example =
    check_authorization_progressive_granted library cache around texts lost lost file refl

load-commit_example :
    get "editor" (load_apps_map (commit_apps_map (field "other" (obj row) end) state))
    ≡ elim (get "editor" state) [ none ↦ none | some v ↦ read_row v none ]
unfolding get strip ◌is◌ contains
load-commit_example =
    load-commit "editor" (field "other" (obj row) end) state (refl, tt) (refl, tt)
      (((refl, refl, refl), refl, tt))

read-write_example :
    ((write_state_dict library "http://localhost" nonce true state none).0 ≡ true)
    × ((read_state_dict library "http://localhost"
          (write_state_dict library "http://localhost" nonce true state none).1).0
        ≡ some (pop "device_id" state))
read-write_example = read-write library "http://localhost" nonce state none (record {
  body = body;
  dumped = refl;
  loaded = refl;
  deciphered = refl;
  tagged = ground arith;
  nonce_length = refl;
})

load_apps_map_unstripped_example :
    get " editor" (load_apps_map (field " editor" (obj row) end)) ≡ none
unfolding strip ◌is◌
load_apps_map_unstripped_example =
    load_apps_map_unstripped " editor" (field " editor" (obj row) end)
      (texts-ne (strip " editor") " editor" refl)

format_remaining_time_bounds_example :
    (23 < 24)
    × (59 < 60)
    × (1000 + 6 * 86400000000 + 23 * 3600000000 + 59 * 60000000 ≤ 5 + 604800000000)
    × (5 + 604800000000 < 1000 + 6 * 86400000000 + 23 * 3600000000 + 59 * 60000000 + 60000000)
unfolding format_remaining_time
format_remaining_time_bounds_example = format_remaining_time_bounds cache 1000 5 6 23 59 refl

abbrev saved : Fields
saved = saved_root cache true 1000 (some 1) none end

-- a library that knows the state saved first
abbrev saving_library : Library
saving_library = record library { loads = λ plain. some (obj saved) }

save_cache-get_cache_example :
    ((save_cache saving_library cache io true (some 1) none none).0 ≡ true)
    × (get_cache saving_library cache (save_cache saving_library cache io true (some 1) none none).1
        ≡ some 1000)
unfolding strip read_state_dict ◌is◌ contains
save_cache-get_cache_example =
    save_cache-get_cache saving_library cache io true 999 (some 1) none none refl refl tt tt
      (refl, refl, refl)
      (record {
        body = body;
        dumped = refl;
        loaded = refl;
        deciphered = refl;
        tagged = ground arith;
        nonce_length = refl;
      })
