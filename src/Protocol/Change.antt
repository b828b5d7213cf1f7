-- ===== src/Protocol/Change.antt =====
-- What an administrator's change of a device means for the device.
use py_auth.Prelude.{
  Option, ℕ, suc, String, ◌≡◌, ◌≢◌, refl, Bool, true, false, none, some, List, ◌∷◌, if◌then◌else◌,
  ◌∙◌, ap,
}
use py_auth.Json.{Fields, obj, get, truthy}
use py_auth.Json.Laws.{IsDict}
use py_auth.App.Models.{Device, Env, find_device}
use py_auth.App.Services.{DeviceAuthRequest}
use py_auth.App.Heartbeat.{World, Network}
use py_auth.App.Heartbeat.Progress.{Quiet}
use py_auth.App.Server.{Server, System, Event, sends, handle}
use py_auth.App.Server.Provenance.{handle-Preserves}
use py_auth.App.Ws.Values.{Python, device_id_of, update_of, allowed_of, text_column}
use py_auth.App.Ws.Devices.{update_device, is_no_field}
use py_auth.App.Ws.Update.{update_device-find}
use py_auth.Client.Bundle.Commit.{IsClean, IsProper}
use py_auth.Client.Storage.{Library, derive_key}
use py_auth.Client.Storage.Roundtrip.{Faithful}
use py_auth.Client.Cache.{AuthCache, Io, File, get_cache}
use py_auth.Client.Check.{Surroundings, check_authorization}
use py_auth.Client.Check.Cached.{asked, root_before, root_after}
use py_auth.Protocol.{Line}
use py_auth.Protocol.Route.{Reached}
use py_auth.Protocol.Exchange.{Agreed}
use py_auth.Protocol.Revocation.{online, body, check_authorization-known}

-- the states that the server gets into without a message of a console
pub data Later (s : Server) (t : System) : System → Type 0 where
  at_once : Later s t t
  after :
      {u : System}
      → Later s t u
      → (e : Event)
      → ((env : Env) (net : Network) (me : ℕ) (text : String) → e ≢ sends env net me text)
      → Later s t (handle s e u)

Later-Preserves :
    {s : Server} {t u : System} (x : String) (d : Device)
    → Later s t u
    → find_device x t.world.db ≡ some d
    → (d' : Device) × (find_device x u.world.db ≡ some d') × (d'.is_authorized ≡ d.is_authorized)
Later-Preserves x d at_once found = (d, found, refl)
Later-Preserves {s} x d (after {u} later e other) found =
    let (d1, found1, same1) = Later-Preserves x d later found in
    let (d2, found2, same2) = handle-Preserves s e u other x d1 found1 in
    (d2, found2, same2 ∙ same1)

-- what a change says of the authorization
abbrev pub decided : Fields → Device → Bool
decided raw device = elim (get "is_authorized" raw) [
  | none ↦ device.is_authorized
  | some v ↦ truthy v
]

module _ (py : Python) (serving : Env) (net : Network) (actor : String) (me : ℕ) (message : Fields)
    (w : World) (s : Server) (l : Line) (lib : Library) (c : AuthCache) (env : Surroundings)
    (file : File) where
  -- the change
  abbrev pub changed : World
  changed = (update_device py serving net actor me message w).1

  -- After a console changed a device, and then any events of the server but messages of consoles, a
  -- check of that device whose POST is routed to the handler says what the change said of its
  -- authorization, or what the row said before where the change said nothing, and the client's cache
  -- holds exactly that, whatever it held before. The change names a known device and a field that may
  -- be changed, with a remark, if any, that the database takes, and is committed; the two sides agree,
  -- the heartbeat is a valid one of that device, is committed, and its broadcast is undisturbed. The client's clock is positive, its first write
  -- succeeds and its libraries are faithful on it; its state before has no repeated key, and the names
  -- of its products and of this one have no white space at their ends and are no reserved key.
  pub update_device-check_authorization :
      (raw : Fields) (device : Device) (remark : Option String) (t u : System)
      (request : DeviceAuthRequest) (io : Io) (rest : List Io) (n : ℕ)
      → device_id_of py message ≢ ""
      → update_of message ≡ some raw
      → is_no_field (allowed_of raw) ≡ false
      → find_device (device_id_of py message) w.db ≡ some device
      → elim (get "remark" raw) [ none ↦ some device.remark | some v ↦ text_column py v ]
        ≡ some remark
      → serving.commit_ok ≡ true
      → t.world ≡ changed
      → Later s t u
      → request.device_id ≡ device_id_of py message
      → Agreed l (body l lib c env u.world file)
      → l.services.device_auth_request (obj (body l lib c env u.world file)) ≡ some request
      → l.env.commit_ok ≡ true
      → Quiet l.net u.world
      → Reached l
      → env.attempts ≡ io ∷ rest
      → io.now ≡ suc n
      → io.write_ok 0 ≡ true
      → IsDict (root_before lib c env file)
      → IsClean (root_before lib c env file)
      → IsProper c.software_name
      → Faithful lib (derive_key lib c.server_url) (io.nonce 0) (
          root_after lib c env
            (online l lib c env u.world file (asked lib c env file))
            io.now
            (asked lib c env file)
            file)
      → ((check_authorization lib c env (online l lib c env u.world file) file).0.success ≡ true)
        × ((check_authorization lib c env (online l lib c env u.world file) file).0.authorized
            ≡ decided raw device)
        × (get_cache lib c (check_authorization lib c env (online l lib c env u.world file) file).1
            ≡ (if decided raw device then some io.now else none))
  update_device-check_authorization raw device remark t u request io rest n named sent some_field
        found taken committed same later one agreed valid ok quiet reached first positive written
        dict clean proper faithful =
      let (d, stored, choice, c1, c2, c3, c4, c5, c6) =
        update_device-find py serving net actor me message w raw device remark named sent some_field
          found taken committed in
      let at_t : find_device request.device_id t.world.db ≡ some d = rw (one, same) stored in
      let (d', at_u, kept) = Later-Preserves request.device_id d later at_t in
      let (success, authorized, cached) =
        check_authorization-known l lib c env u.world file request d' io rest n agreed valid ok
          quiet reached at_u first positive written dict clean proper faithful in
      let told = kept ∙ choice in
      (success, authorized ∙ told, cached ∙ ap (λ (b : Bool). if b then some io.now else none) told)
