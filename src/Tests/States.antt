-- ===== src/Tests/States.antt =====
-- Runs of the state file: what is cached, cleared, persisted, and shown by the tool.
use py_auth.Prelude.{
  ◌≡◌, ◌==◌, refl, none, some, [], true, ◌∷◌, ◌++◌, arith, ◌is◌, contains, length, if◌then◌else◌,
}
use py_auth.Text.{strip}
use py_auth.Json.{Fields, obj, end, field, get, nil, cons, arr}
use py_auth.Client.Storage.{Library, read_state_dict}
use py_auth.Client.Cache.{get_cache, clear_cache}
use py_auth.Client.Cache.Clears.{cleared_root, clear_cache-get_cache}
use py_auth.Client.Identity.{Naming}
use py_auth.Client.Network.{Python, mac_from_uuid_node}
use py_auth.Client.Network.Node.{mac_from_uuid_node-low_bits}
use py_auth.Tool.{decrypt_raw, redact}
use py_auth.Tool.Cng.{Bcrypt, decrypt_aes_gcm_windows_cng}
use py_auth.Tool.Cng.Handles.{run, closed, decrypt_aes_gcm_windows_cng-run}
use py_auth.Tool.Decrypt.{as_state, read_state_dict-decrypt_raw}
use py_auth.Tool.Redact.{IsHidden, redact-IsHidden}
use py_auth.Tests.Clients.{state, body, nonce, library, cache, file, io}

-- a library that knows one state
abbrev pub library_of : Fields → Library
library_of d = record library { loads = λ plain. some (obj d) }

-- a library that reads what stood in the file, and then what was written to it
abbrev clearing_library : Library
clearing_library = record library {
  dumps = λ v. some (9 ∷ body);
  loads = λ plain.
      if length plain == 18 then some (obj (cleared_root cache state)) else some (obj state);
}

clear_cache-get_cache_example :
    get_cache clearing_library cache (clear_cache clearing_library cache io file).1 ≡ none
unfolding read_state_dict ◌is◌ strip contains get
clear_cache-get_cache_example =
    clear_cache-get_cache clearing_library cache io file refl (refl, tt)
      ((λ d r. (refl, refl, refl)), tt) (refl, refl, refl)
      (record {
        body = 9 ∷ body;
        dumped = refl;
        loaded = refl;
        deciphered = refl;
        tagged = ground arith;
        nonce_length = refl;
      })

abbrev pub naming : Naming
naming = record { repr = λ v. "8"; hexdigest = λ text. "c0ffee"; uuid = "1234" }

-- a Windows whose every call succeeds
abbrev bcrypt : Bcrypt
bcrypt = record {
  is_windows = true;
  is_found = true;
  opens = true;
  takes_mode = true;
  object_length = some 600;
  makes_key = λ size key. true;
  decrypts = λ key nonce ciphertext tag. some (ciphertext ++ tag);
}

decrypt_aes_gcm_windows_cng-run_example :
    run
      (decrypt_aes_gcm_windows_cng bcrypt (nonce ++ body) (nonce ++ body ++ 1 ∷ 2 ∷ 3 ∷ [])).1
      closed
    ≡ some closed
decrypt_aes_gcm_windows_cng-run_example =
    decrypt_aes_gcm_windows_cng-run bcrypt (nonce ++ body) (nonce ++ body ++ 1 ∷ 2 ∷ 3 ∷ [])

read_state_dict-decrypt_raw_example :
    (read_state_dict library "http://localhost" (some (nonce ++ body))).0
    ≡ as_state (decrypt_raw library bcrypt "http://localhost" (nonce ++ body))
read_state_dict-decrypt_raw_example =
    read_state_dict-decrypt_raw library bcrypt "http://localhost" (nonce ++ body)
      (record { agrees = λ key nonce ciphertext tag plain e. e })

redact-IsHidden_example : IsHidden (
    redact (
      obj
        (field "editor" (arr (cons (obj (field "device_info_snapshot" (obj state) end)) nil)) end)))
redact-IsHidden_example =
    redact-IsHidden (
      obj
        (field "editor" (arr (cons (obj (field "device_info_snapshot" (obj state) end)) nil)) end))

abbrev two_digits : Python
two_digits = record { lower = λ s. s; int16 = λ s. if s is "ff" then some 255 else some 1 }

mac_from_uuid_node-low_bits_example :
    mac_from_uuid_node two_digits 0x0000ffffff ≡ mac_from_uuid_node two_digits 0x005503ffff
mac_from_uuid_node-low_bits_example =
    mac_from_uuid_node-low_bits two_digits 0x0000ffffff 0x005503ffff refl refl refl
