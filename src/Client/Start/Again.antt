-- ===== src/Client/Start/Again.antt =====
-- auth_client.py: that the next client on the same file has the identifier of the first.
use py_auth.Prelude.{
  String, ◌≡◌, refl, Bool, true, false, Option, none, some, arith, ◌is◌, is_refl, is_iff,
  Bool-cases, ◌∙◌, sym, ap,
}
use py_auth.Json.{Fields}
use py_auth.Json.Laws.{IsDict}
use py_auth.Text.{strip, rstrip, is_slash}
use py_auth.Client.Bundle.Commit.{IsProper, IsClean}
use py_auth.Client.Storage.{derive_key}
use py_auth.Client.Storage.Roundtrip.{Faithful}
use py_auth.Client.Cache.{File}
use py_auth.Client.Facts.{collect_device_facts}
use py_auth.Client.Identity.{
  load_persisted_device_id, persist_device_id, build_device_id, known_id, computed_id,
  id_components, persisted_root,
}
use py_auth.Client.Identity.Stable.{load-persist_device_id, state_before}
use py_auth.Client.Start.{
  sdk_of, Host, Options, AuthClient, identify, constructed, start, secured, from_snapshot,
  with_snapshot, or_text,
}

with_snapshot-device_id :
    (sdk : Fields) (snapshot : Option Fields) (c : AuthClient)
    → (with_snapshot sdk snapshot c).device_id ≡ c.device_id
unfolding with_snapshot
with_snapshot-device_id sdk none c = refl
with_snapshot-device_id sdk (some py_auth.Json.end) c = refl
with_snapshot-device_id sdk (some (py_auth.Json.field k v d)) c = refl

secured-device_id :
    (h : Host) (secret : String) (made : AuthClient) (file : File) (c : AuthClient)
    → (secured h secret made file).0 ≡ some c
    → c.device_id ≡ made.device_id
unfolding secured from_snapshot
secured-device_id h secret made file c started = ground (
  arith,
  Bool-cases (secret is ""),
  with_snapshot-device_id (sdk_of h)
      (py_auth.Client.Cache.load_device_info_snapshot h.lib h.loads_text made.cache file) made,
)

-- the identifier of a client is the one that was found or made first
start-device_id :
    (h : Host) (o : Options) (file : File) (c : AuthClient)
    → (start h o file).0 ≡ some c
    → c.device_id ≡ (identify h o file).0
unfolding start
start-device_id h o file c started =
    let (id, facts, file') = identify h o file in
    secured-device_id h (or_text o.client_secret h.env_secret)
      (constructed h o (or_text o.client_secret h.env_secret) id facts) file' c started
    ∙ unfold constructed in refl

start-file : (h : Host) (o : Options) (file : File) → (start h o file).1 ≡ (identify h o file).2
unfolding start secured
start-file h o file = ground arith

-- the address under which the state is kept
abbrev url_of : Options → String
url_of o = rstrip is_slash o.server_url

identify-known :
    (h : Host) (o : Options) (file : File) (id : String)
    → o.device_id ≡ ""
    → (id is "") ≡ false
    → (load_persisted_device_id h.lib (url_of o) o.software_name file).0 ≡ some id
    → (identify h o file).0 ≡ strip id
unfolding identify build_device_id known_id
identify-known h o file id missing nonempty known =
    rw (missing, is_refl "", known) (rw nonempty refl)

module _ (h : Host) (o : Options) (file : File) where
  -- the identifier that is computed where none is known
  abbrev pub new_id : String
  new_id =
      computed_id h.naming
        (id_components h.naming (collect_device_facts h.tools h.system true) o.software_name)

  -- the file after the look-up of the identifier
  abbrev pub looked_up : File
  looked_up = (load_persisted_device_id h.lib (url_of o) o.software_name file).1

  abbrev pub before : Fields
  before = state_before h.lib (url_of o) o.software_name h.nonce looked_up

  module _ (missing : o.device_id ≡ "")
      (unknown : (load_persisted_device_id h.lib (url_of o) o.software_name file).0 ≡ none) where
    identify-new :
        ((identify h o file).0 ≡ new_id)
        × ((identify h o file).2
            ≡ persist_device_id h.lib
                (url_of o)
                h.nonce
                h.write_ok
                new_id
                o.software_name
                looked_up)
    unfolding identify build_device_id known_id
    identify-new =
        let empty : (o.device_id is "") ≡ true = (is_iff o.device_id "").1 missing in
        (ground (arith, empty), ground (arith, empty))

-- A client without a given identifier, on a file that has none, computes one and persists it. Whoever
-- starts a client after it, with the same library, server and product and without a given identifier,
-- on the file that it left, has the same identifier, whatever the system is like by then, and
-- whatever the other arguments. The computed identifier has no white space at its ends, the write
-- succeeds, the state before has no repeated key and its products and this one have proper names, and
-- the libraries are faithful on what is written.
pub start-start :
    (h h' : Host) (o o' : Options) (file : File) (c c' : AuthClient)
    → h'.lib ≡ h.lib
    → url_of o' ≡ url_of o
    → o'.software_name ≡ o.software_name
    → o.device_id ≡ ""
    → o'.device_id ≡ ""
    → (load_persisted_device_id h.lib (url_of o) o.software_name file).0 ≡ none
    → h.write_ok ≡ true
    → strip (new_id h o file) ≡ new_id h o file
    → (new_id h o file is "") ≡ false
    → IsDict (before h o file)
    → IsClean (before h o file)
    → IsProper o.software_name
    → Faithful h.lib
        (derive_key h.lib (url_of o))
        h.nonce
        (persisted_root (new_id h o file) o.software_name (before h o file))
    → (start h o file).0 ≡ some c
    → (start h' o' (start h o file).1).0 ≡ some c'
    → c'.device_id ≡ c.device_id
start-start h h' o o' file c c' lib url name missing missing' unknown ok stripped nonempty dict
      clean proper faithful started started' =
    let id = new_id h o file in
    let (first, left) = identify-new h o file missing unknown in
    let found =
      load-persist_device_id h.lib (url_of o) o.software_name h.nonce (looked_up h o file) dict
        clean proper id (rw stripped nonempty) faithful in
    let left' : (start h o file).1
        ≡ persist_device_id h.lib (url_of o) h.nonce true id o.software_name (looked_up h o file) =
      start-file h o file
      ∙ left
      ∙ ap
          (λ (b : Bool).
            persist_device_id h.lib (url_of o) h.nonce b id o.software_name (looked_up h o file))
          ok in
    let known : (load_persisted_device_id h'.lib (url_of o') o'.software_name (start h o file).1).0
        ≡ some id =
      rw (lib, url, name, left') (rw stripped at found) in
    start-device_id h' o' (start h o file).1 c' started'
    ∙ identify-known h' o' (start h o file).1 id missing' nonempty known
    ∙ stripped
    ∙ sym (start-device_id h o file c started ∙ first)
