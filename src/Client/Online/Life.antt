-- ===== src/Client/Online/Life.antt =====
-- auth_client.py: the life of a client, from its construction through its online checks.
use mathlib.Core.Path.{subst}
use py_auth.Prelude.{
  String, ◌≡◌, refl, Bool, true, false, Bool-cases, Option, none, some, ◌is◌, if◌then◌else◌,
  Option-cases, inl, inr, ap, ◌∙◌,
}
use py_auth.Json.{Json, Fields, obj, get, put, str}
use py_auth.Json.Laws.{get-put}
use py_auth.Client.Cache.{File}
use py_auth.Client.Wire.{with_public_ip, dict_at, is_end}
use py_auth.Client.Info.{build_device_info}
use py_auth.Client.Facts.{collect_device_facts}
use py_auth.Client.Start.{
  Host, Options, AuthClient, start, completed, with_sdk, sdk_of, ensure_full_device_info,
}
use py_auth.Client.Start.Ready.{
  IsReady, start-IsReady, ensure-IsReady, ensure_done, ensure-software_version,
}
use py_auth.Client.Online.{check_online_worker, needs_public_ip, fetch_public_ip, sent_and_kept}

-- everything but the network is as before
abbrev SameBut : Fields → Fields → Type 0
SameBut info info' = (key : String) → ("network" is key) ≡ false → get key info' ≡ get key info

SameBut-put_if :
    (b : Bool) (v : Json) (info : Fields) → SameBut info (if b then info else put "network" v info)
SameBut-put_if true v info key other = refl
SameBut-put_if false v info key other = rw (get-put "network" key v info, other) refl

pair-inj :
    (a b c d : Fields)
    → ◌≡◌ {A = Option (Fields × Fields)} (some (a, b)) (some (c, d))
    → (a ≡ c) × (b ≡ d)
pair-inj a b c d e = (cc, cc)

with_public_ip-SameBut :
    (ip : String) (info sent kept : Fields)
    → with_public_ip ip info ≡ some (sent, kept)
    → SameBut info sent × SameBut info kept
unfolding with_public_ip
with_public_ip-SameBut ip info sent kept e = elim (Option-cases (dict_at "network" info)) [
  | inl f ↦ absurd (cc (rw (f, with_public_ip) at e))
  | inr (network, f) ↦
      let network' : Fields = if ip is "" then network else put "public_ip" (str ip) network in
      let (first, second) = pair-inj _ _ sent kept (rw (f, with_public_ip) at e) in
      (
        subst (SameBut info) first (SameBut-put_if (is_end network') (obj network') info),
        subst (SameBut info) second (SameBut-put_if (ip is "") (obj network') info),
      )
]

kept-IsReady :
    (h : Host) (c : AuthClient) (r : Option (Fields × Fields))
    → IsReady h c
    → ((sent kept : Fields) → r ≡ some (sent, kept) → SameBut c.device_info kept)
    → IsReady h (sent_and_kept c r).1
unfolding ◌is◌
kept-IsReady h c none ready same = ready
kept-IsReady h c (some (sent, kept)) ready same = record {
  secret = ready.secret;
  version = same sent kept refl "software_version" refl ∙ ready.version;
  sdk = same sent kept refl "sdk" refl ∙ ready.sdk;
  collecting = ready.collecting;
}

sent_as_kept :
    (c : AuthClient) (r : Option (Fields × Fields)) (sent : Fields)
    → (sent_and_kept c r).0 ≡ some sent
    → (kept : Fields) × (r ≡ some (sent, kept))
sent_as_kept c none sent e = absurd (cc)
sent_as_kept c (some (first, kept)) sent e = (kept, cc)

kept-deferred :
    (c : AuthClient) (r : Option (Fields × Fields))
    → (sent_and_kept c r).1.device_info_deferred ≡ c.device_info_deferred
kept-deferred c none = refl
kept-deferred c (some (sent, kept)) = refl

-- the clients that there are: constructed ones, and those that have made some complete checks
pub data Life (h : Host) : AuthClient → Type 0 where
  started : (o : Options) (file : File) {c : AuthClient} → (start h o file).0 ≡ some c → Life h c
  checked :
      {c : AuthClient}
      → Life h c
      → (is_address : String → Bool) (fetched : Option String)
      → Life h (check_online_worker h is_address fetched c).1

worker-IsReady :
    (h : Host) (is_address : String → Bool) (fetched : Option String) (c : AuthClient)
    → IsReady h c
    → IsReady h (check_online_worker h is_address fetched c).1
unfolding check_online_worker
worker-IsReady h is_address fetched c ready =
    let c' = ensure_full_device_info h c in
    let ip = if needs_public_ip c then fetch_public_ip is_address fetched else "" in
    kept-IsReady h c' (with_public_ip ip c'.device_info) (ensure-IsReady h c ready)
      (λ sent kept e. (with_public_ip-SameBut ip c'.device_info sent kept e).1)

Life-IsReady : {h : Host} {c : AuthClient} → Life h c → IsReady h c
Life-IsReady {h} (started o file e) = (start-IsReady h o file _ e).0
Life-IsReady {h} (checked {c} l is_address fetched) =
    worker-IsReady h is_address fetched c (Life-IsReady l)

-- what the client collects now
abbrev pub collected : Host → Fields
collected h = build_device_info h.surroundings (collect_device_facts h.tools h.system false) none

with_sdk-other :
    (version : Json) (sdk info : Fields) (key : String)
    → ("software_version" is key) ≡ false
    → ("sdk" is key) ≡ false
    → get key (with_sdk version sdk info) ≡ get key info
unfolding with_sdk
with_sdk-other version sdk info key no_version no_sdk =
    rw (get-put "sdk" key (obj sdk) (put "software_version" version info), no_sdk)
      (rw (get-put "software_version" key version info, no_version) refl)

ensure-other :
    (h : Host) (c : AuthClient) (key : String)
    → ("software_version" is key) ≡ false
    → ("sdk" is key) ≡ false
    → get key (ensure_full_device_info h c).device_info
      ≡ get key (if c.device_info_deferred then collected h else c.device_info)
unfolding ensure_full_device_info completed
ensure-other h c key no_version no_sdk = elim (Bool-cases c.device_info_deferred) [
  | inl e ↦ rw e (with_sdk-other c.software_version (sdk_of h) (collected h) key no_version no_sdk)
  | inr e ↦ rw e refl
]

-- What a complete check sends, at any time in the life of a client, names the version of the software
-- and the library. Every other entry but that of the network is what the system gives now, if the
-- information was still to be collected, and what the client had otherwise; afterwards none is to be
-- collected any more, the client has a secret, and its information names version and library too.
pub check_online_worker-IsReady :
    (h : Host) (c : AuthClient) (is_address : String → Bool) (fetched : Option String)
    (sent : Fields) (key : String)
    → Life h c
    → (check_online_worker h is_address fetched c).0 ≡ some sent
    → ("network" is key) ≡ false
    → ("software_version" is key) ≡ false
    → ("sdk" is key) ≡ false
    → (get "software_version" sent ≡ some c.software_version)
      × (get "sdk" sent ≡ some (obj (sdk_of h)))
      × (get key sent ≡ get key (if c.device_info_deferred then collected h else c.device_info))
      × IsReady h (check_online_worker h is_address fetched c).1
      × ((check_online_worker h is_address fetched c).1.device_info_deferred ≡ false)
unfolding check_online_worker ◌is◌
check_online_worker-IsReady h c is_address fetched sent key l e no_network no_version no_sdk =
    let ready = Life-IsReady l in
    let c' = ensure_full_device_info h c in
    let full = ensure-IsReady h c ready in
    let ip = if needs_public_ip c then fetch_public_ip is_address fetched else "" in
    let r = with_public_ip ip c'.device_info in
    let (kept, found) = sent_as_kept c' r sent e in
    let same = (with_public_ip-SameBut ip c'.device_info sent kept found).0 in
    (
      same "software_version" refl ∙ full.version ∙ ap some (ensure-software_version h c),
      same "sdk" refl ∙ full.sdk,
      same key no_network ∙ ensure-other h c key no_version no_sdk,
      worker-IsReady h is_address fetched c ready,
      kept-deferred c' r ∙ ensure_done h c,
    )
