-- ===== src/Client/Check/Decisions.antt =====
-- When a check says that the device is authorized.
use py_auth.Prelude.{
  ℕ, ◌+◌, ◌<◌, ◌≡◌, ◌⊎◌, inl, inr, Bool, true, false, Option, some, arith, Option-cases, none, refl,
  Bool-cases,
}
use py_auth.Client.Storage.{Library}
use py_auth.Json.{Json, obj, end, field, null, bool, int, float, str, arr, truthy}
use py_auth.Client.Cache.{
  AuthCache, File, snapshot_auth_row, is_cache_valid_dict, get_cache, is_cache_valid,
}
use py_auth.Client.Check.{
  CheckResult, Surroundings, settle, settle_full, check_authorization,
  check_authorization_progressive, write_check_cache, Texts, Answer, online_result,
  heartbeat_result, decrypted_result, accepted, forbidden, status, request_error,
}

is_cache_valid_dict-true :
    (c : AuthCache) (now : ℕ) (cached : Option ℕ)
    → is_cache_valid_dict c now cached ≡ true
    → (cached_at : ℕ) × ((cached ≡ some cached_at) × (now < cached_at + c.validity))
unfolding is_cache_valid_dict
is_cache_valid_dict-true c now none h = ground arith
is_cache_valid_dict-true c now (some t) h = (t, (refl, ground arith))

decrypted_result-success :
    (texts : Texts) (v : Json)
    → (decrypted_result texts v).authorized ≡ true
    → (decrypted_result texts v).success ≡ true
unfolding decrypted_result truthy
decrypted_result-success texts (obj end) h = ground arith
decrypted_result-success texts (obj (field k v d)) h = refl
decrypted_result-success texts null h = ground arith
decrypted_result-success texts (bool b) h = ground arith
decrypted_result-success texts (int i) h = ground arith
decrypted_result-success texts (float i) h = ground arith
decrypted_result-success texts (str s) h = ground arith
decrypted_result-success texts (arr s) h = ground arith

online_result-success :
    (texts : Texts) (a : Option Answer)
    → (online_result texts a).authorized ≡ true
    → (online_result texts a).success ≡ true
unfolding online_result heartbeat_result
online_result-success texts none h = ground arith
online_result-success texts (some (accepted none)) h = ground arith
online_result-success texts (some (accepted (some v))) h = decrypted_result-success texts v h
online_result-success texts (some (forbidden none)) h = ground arith
online_result-success texts (some (forbidden (some v))) h = ground arith
online_result-success texts (some (status v)) h = ground arith
online_result-success texts (some (request_error v)) h = ground arith

module _ (lib : Library) (c : AuthCache) (env : Surroundings) where
  settle-authorized :
      (n : ℕ) (valid : Bool) (r : CheckResult) (file : File)
      → (r.authorized ≡ true → r.success ≡ true)
      → (settle lib c env n valid r file).0.authorized ≡ true
      → ((r.success ≡ true) × (r.authorized ≡ true)) ⊎ ((r.success ≡ false) × (valid ≡ true))
  unfolding settle
  settle-authorized n valid r file sound h = ground arith

  -- the number of the heartbeat that a check sends first
  abbrev pub first_hb : File → ℕ
  first_hb file = (snapshot_auth_row lib c env.io file).1 + 1

  -- the file after the light request
  abbrev pub written : CheckResult → File → File
  written light file =
      (write_check_cache lib c env.attempts light (some (first_hb file)) env.device_info
        (snapshot_auth_row lib c env.io file).2).1

  -- `check_authorization` answers that the device is authorized only if the server said so to this
  -- request, or if the request failed and the cache held an authorization whose validity had not run
  -- out when the check began. The answers of the network are any.
  pub check_authorization_granted :
      (texts : Texts) (answers : ℕ → Option Answer) (file : File)
      → (check_authorization lib c env (λ n. online_result texts (answers n)) file).0.authorized
        ≡ true
      → (((online_result texts (answers (first_hb file))).success ≡ true)
          × ((online_result texts (answers (first_hb file))).authorized ≡ true))
        ⊎ (((online_result texts (answers (first_hb file))).success ≡ false)
            × ((cached_at : ℕ) × (((snapshot_auth_row lib c env.io file).0 ≡ some cached_at)
                  × (env.io.now < cached_at + c.validity))))
  unfolding check_authorization
  check_authorization_granted texts answers file h =
      let n = first_hb file in
      elim (settle-authorized n _ (online_result texts (answers n)) _
        (online_result-success texts (answers n)) h) [
          | inl p ↦ inl p
          | inr (f, p) ↦ inr (f, is_cache_valid_dict-true c env.io.now _ p)
        ]

  -- Where the server answers `check_authorization`, the result is its answer, whatever the cache
  -- holds; the number of the heartbeat sent is the stored number plus 1.
  pub check_authorization_answered :
      (online : ℕ → CheckResult) (file : File)
      → (online (first_hb file)).success ≡ true
      → (check_authorization lib c env online file).0 ≡ online (first_hb file)
  unfolding check_authorization settle
  check_authorization_answered online file answered = ground arith

  settle_full-authorized :
      (n : ℕ) (r : CheckResult) (file : File)
      → (r.authorized ≡ true → r.success ≡ true)
      → (settle_full lib c env n r file).0.authorized ≡ true
      → ((r.success ≡ true) × (r.authorized ≡ true))
        ⊎ ((r.success ≡ false) × (is_cache_valid lib c env.later.now file ≡ true))
  unfolding settle_full
  settle_full-authorized n r file sound h =
      ground (arith, Option-cases (get_cache lib c file), Bool-cases r.success)

  -- `check_authorization_progressive` answers that the device is authorized only in one of four ways.
  -- The light request was granted, and then the complete one was granted too, or it failed and the
  -- file written after the light one holds an authorization that has not run out. Or the light request
  -- failed, and then the complete one was granted, or it failed too and the cache held an authorization
  -- that had not run out when the check began. So a refusal of the light request is final, and one of
  -- the complete request is too, whatever is cached.
  pub check_authorization_progressive_granted :
      (texts : Texts) (fast full : ℕ → Option Answer) (file : File)
      → (check_authorization_progressive lib c env
          (λ n. online_result texts (fast n))
          (λ n. online_result texts (full n))
          file).0.authorized
        ≡ true
      → let hb = first_hb file in
        let light = online_result texts (fast hb) in
        let second = online_result texts (full (hb + 1)) in
        let alone = online_result texts (full hb) in
        ((light.success ≡ true)
          × (light.authorized ≡ true)
          × (((second.success ≡ true) × (second.authorized ≡ true))
              ⊎ ((second.success ≡ false)
                  × (is_cache_valid lib c env.later.now (written light file) ≡ true))))
        ⊎ ((light.success ≡ false)
            × (((alone.success ≡ true) × (alone.authorized ≡ true))
                ⊎ ((alone.success ≡ false)
                    × ((cached_at : ℕ) × (((snapshot_auth_row lib c env.io file).0 ≡ some cached_at)
                          × (env.io.now < cached_at + c.validity))))))
  unfolding check_authorization_progressive
  check_authorization_progressive_granted texts fast full file h =
      let hb = first_hb file in
      let light = online_result texts (fast hb) in
      let later = online_result texts (full (hb + 1)) in
      let file' = written light file in
      elim (Bool-cases light.success) [
        | inl s ↦ elim (Bool-cases light.authorized) [
          | inl a ↦
              let h' : (settle_full lib c env (hb + 1) later file').0.authorized ≡ true =
                ground arith in
              inl (
                s,
                a,
                settle_full-authorized (hb + 1) later file'
                    (online_result-success texts (full (hb + 1))) h',
              )
          | inr a ↦ absurd (ground arith)
        ]
        | inr s ↦
            let h' : (settle lib c env hb
                  (is_cache_valid_dict c env.io.now (snapshot_auth_row lib c env.io file).0)
                  (online_result texts (full hb))
                  (snapshot_auth_row lib c env.io file).2).0.authorized
                ≡ true =
              ground arith in
            inr (
              s,
              elim (settle-authorized hb _ (online_result texts (full hb)) _
                  (online_result-success texts (full hb)) h') [
                    | inl p ↦ inl p
                    | inr (f, p) ↦ inr (f, is_cache_valid_dict-true c env.io.now _ p)
                  ],
            )
      ]
