-- ===== src/Client/Check/Cached.antt =====
-- auth_client.py: the cache after a check that the server answered.
use py_auth.Prelude.{
  ℕ, suc, ◌≡◌, refl, Bool, true, false, Option, none, some, List, ◌∷◌, arith, ◌+◌, if◌then◌else◌,
}
use py_auth.Json.{Fields}
use py_auth.Json.Laws.{IsDict}
use py_auth.Client.Bundle.Commit.{IsClean, IsProper}
use py_auth.Client.Storage.{Library, derive_key, read_state_dict}
use py_auth.Client.Storage.Roundtrip.{Faithful}
use py_auth.Client.Cache.{
  AuthCache, Io, File, get_cache, save_cache, saved_root, or_empty, snapshot_auth_row,
}
use py_auth.Client.Cache.Saves.{save_cache-get_cache}
use py_auth.Client.Check.{CheckResult, Surroundings, check_authorization, settle, write_check_cache}

if_twice {ℓ} :
    {A : Type ℓ} (b : Bool) (x y : A)
    → (if b then (if b then x else y) else y) ≡ (if b then x else y)
if_twice true x y = refl
if_twice false x y = refl

-- a first attempt that succeeds is the only one
cached_first :
    (lib : Library) (c : AuthCache) (io : Io) (rest : List Io) (r : CheckResult) (hb : ℕ)
    (d : Fields) (file : File) (cached : Option ℕ)
    → (save_cache lib c io r.authorized
        (if r.authorized then some hb else none)
        (if r.authorized then some d else none)
        file).0
      ≡ true
    → get_cache lib c
        (save_cache lib c io r.authorized
          (if r.authorized then some hb else none)
          (if r.authorized then some d else none)
          file).1
      ≡ cached
    → get_cache lib c
        (write_check_cache lib c (io ∷ rest) r (if r.authorized then some hb else none) d file).1
      ≡ cached
unfolding write_check_cache
cached_first lib c io rest r hb d file cached saved read =
    rw (if_twice r.authorized (some hb) none, saved) read

module _ (lib : Library) (c : AuthCache) (env : Surroundings) where
  -- the file as the check begins with it
  abbrev pub begun : File → File
  begun file = (snapshot_auth_row lib c env.io file).2

  abbrev pub asked : File → ℕ
  asked file = (snapshot_auth_row lib c env.io file).1 + 1

  abbrev pub root_before : File → Fields
  root_before file = or_empty (read_state_dict lib c.server_url (begun file)).0

  -- what `_write_check_cache_retries` hands to `save_cache`
  abbrev pub root_after : CheckResult → ℕ → ℕ → File → Fields
  root_after r now hb file =
      saved_root c r.authorized now (if r.authorized then some hb else none)
        (if r.authorized then some env.device_info else none) (root_before file)

  settle_answered :
      (n : ℕ) (valid : Bool) (r : CheckResult) (file : File)
      → r.success ≡ true
      → (settle lib c env n valid r file).1
        ≡ (write_check_cache lib c env.attempts r
            (if r.authorized then some n else none)
            env.device_info
            file).1
  unfolding settle
  settle_answered n valid r file answered = ground arith

  -- After a check that the server answered, and whose first write succeeds, the cache says what the
  -- server said: the time of the check where it granted, and no authorization where it refused,
  -- whatever was cached before. The state before has no repeated key, its products and this one have
  -- proper names, and the libraries are faithful on what is written.
  pub check_authorization-get_cache :
      (online : ℕ → CheckResult) (file : File) (io : Io) (rest : List Io) (n : ℕ)
      → env.attempts ≡ io ∷ rest
      → io.now ≡ suc n
      → io.write_ok 0 ≡ true
      → (online (asked file)).success ≡ true
      → IsDict (root_before file)
      → IsClean (root_before file)
      → IsProper c.software_name
      → Faithful lib
          (derive_key lib c.server_url)
          (io.nonce 0)
          (root_after (online (asked file)) io.now (asked file) file)
      → get_cache lib c (check_authorization lib c env online file).1
        ≡ (if (online (asked file)).authorized then some io.now else none)
  unfolding check_authorization
  check_authorization-get_cache online file io rest n first later ok answered dict clean proper
        faithful =
      let r = online (asked file) in
      let hb : Option ℕ = if r.authorized then some (asked file) else none in
      let snap : Option Fields = if r.authorized then some env.device_info else none in
      let (saved, read) =
        save_cache-get_cache lib c io r.authorized n hb snap (begun file) later ok dict clean proper
          faithful in
      rw (settle_answered (asked file) _ r (begun file) answered, first)
        (cached_first lib c io rest r (asked file) env.device_info (begun file)
          (if r.authorized then some io.now else none) saved read)
