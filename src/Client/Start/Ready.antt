-- ===== src/Client/Start/Ready.antt =====
-- auth_client.py: what holds of a client from its construction on.
use mathlib.Core.Path.{subst}
use py_auth.Prelude.{
  if_both, String, ◌≡◌, refl, false, Option, none, some, ◌is◌, arith, Bool-cases, inl, inr,
}
use py_auth.Json.{Json, Fields, obj, end, field, get, put}
use py_auth.Json.Laws.{get-put, get-put_self}
use py_auth.Client.Cache.{File, load_device_info_snapshot}
use py_auth.Client.Start.{
  sdk_of, Host, Options, AuthClient, identify, constructed, with_sdk, with_snapshot, start,
  ensure_full_device_info, or_text, secured, from_snapshot, completed,
}

-- There is a secret, the device information names the version and the library, and it is being
-- collected exactly if it is still missing.
pub record IsReady (h : Host) (c : AuthClient) : Type 0 where
  pub secret : (c.client_secret is "") ≡ false
  pub version : get "software_version" c.device_info ≡ some c.software_version
  pub sdk : get "sdk" c.device_info ≡ some (obj (sdk_of h))
  pub collecting : c.prefetching ≡ c.device_info_deferred

with_sdk-version :
    (version : Json) (sdk info : Fields)
    → get "software_version" (with_sdk version sdk info) ≡ some version
unfolding with_sdk ◌is◌
with_sdk-version version sdk info =
    rw (get-put "sdk" "software_version" (obj sdk) (put "software_version" version info))
      (get-put_self "software_version" version info)

with_sdk-sdk :
    (version : Json) (sdk info : Fields) → get "sdk" (with_sdk version sdk info) ≡ some (obj sdk)
unfolding with_sdk
with_sdk-sdk version sdk info = get-put_self "sdk" (obj sdk) (put "software_version" version info)

constructed-IsReady :
    (h : Host) (o : Options) (secret id : String) (facts : Fields)
    → (secret is "") ≡ false
    → IsReady h (constructed h o secret id facts)
unfolding constructed
constructed-IsReady h o secret id facts s = record {
  secret = s;
  version = with_sdk-version _ _ _;
  sdk = with_sdk-sdk _ _ _;
  collecting = refl;
}

with_snapshot-IsReady :
    (h : Host) (snapshot : Option Fields) (c : AuthClient)
    → IsReady h c
    → IsReady h (with_snapshot (sdk_of h) snapshot c)
unfolding with_snapshot
with_snapshot-IsReady h none c r = r
with_snapshot-IsReady h (some end) c r = r
with_snapshot-IsReady h (some (field k v d)) c r = record {
  secret = r.secret;
  version = with_sdk-version c.software_version (sdk_of h) (field k v d);
  sdk = with_sdk-sdk c.software_version (sdk_of h) (field k v d);
  collecting = refl;
}

completed-IsReady : (h : Host) (c : AuthClient) → IsReady h c → IsReady h (completed h c)
unfolding completed
completed-IsReady h c r = record {
  secret = r.secret;
  version = with_sdk-version _ _ _;
  sdk = with_sdk-sdk _ _ _;
  collecting = refl;
}

pub ensure-IsReady :
    (h : Host) (c : AuthClient) → IsReady h c → IsReady h (ensure_full_device_info h c)
unfolding ensure_full_device_info
ensure-IsReady h c r =
    if_both (IsReady h) c.device_info_deferred (completed h c) c (completed-IsReady h c r) r

pub ensure_done :
    (h : Host) (c : AuthClient) → (ensure_full_device_info h c).device_info_deferred ≡ false
unfolding ensure_full_device_info completed
ensure_done h c = ground arith

pub ensure-software_version :
    (h : Host) (c : AuthClient)
    → (ensure_full_device_info h c).software_version ≡ c.software_version
unfolding ensure_full_device_info completed
ensure-software_version h c = ground arith

some-inj {ℓ} : {A : Type ℓ} (a b : A) → some a ≡ some b → a ≡ b
some-inj a b e = cc

secured-IsReady :
    (h : Host) (secret : String) (made : AuthClient) (file : File) (c : AuthClient)
    → ((secret is "") ≡ false → IsReady h made)
    → (secured h secret made file).0 ≡ some c
    → IsReady h c
unfolding secured from_snapshot
secured-IsReady h secret made file c ready started = elim (Bool-cases (secret is "")) [
  | inl e ↦ absurd (cc (rw (e, secured) at started))
  | inr e ↦
      let r = ready e in
      let snapshot = load_device_info_snapshot h.lib h.loads_text made.cache file in
      subst (IsReady h) (some-inj (from_snapshot h file made) c (rw (e, secured) at started)) (
        if_both (IsReady h) made.device_info_deferred (with_snapshot (sdk_of h) snapshot made) made
          (with_snapshot-IsReady h snapshot made r) r)
]

-- A client whose construction succeeds has a secret, and its device information names the version of
-- the software and the library, whether it was given, read from a snapshot, or is still missing; so it
-- does after the information was completed, and then none is missing.
pub start-IsReady :
    (h : Host) (o : Options) (file : File) (c : AuthClient)
    → (start h o file).0 ≡ some c
    → IsReady h c
      × IsReady h (ensure_full_device_info h c)
      × ((ensure_full_device_info h c).device_info_deferred ≡ false)
unfolding start
start-IsReady h o file c started =
    let (id, facts, file') = identify h o file in
    let secret = or_text o.client_secret h.env_secret in
    let ready : IsReady h c =
      secured-IsReady h secret (constructed h o secret id facts) file' c
        (constructed-IsReady h o secret id facts) started in
    (ready, ensure-IsReady h c ready, ensure_done h c)
