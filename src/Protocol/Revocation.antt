-- ===== src/Protocol/Revocation.antt =====
-- A check of the client against the server: `check_authorization` of auth_client.py with the heartbeat
-- of app/routers/auth.py at the other end.
use py_auth.Prelude.{
  ℕ, suc, ◌≡◌, refl, Bool, true, none, some, List, ◌∷◌, if◌then◌else◌, arith, ◌∙◌, ap, sym,
}
use py_auth.Json.{Fields, obj, truthy}
use py_auth.Json.Laws.{IsDict}
use py_auth.App.Models.{Device, find_device}
use py_auth.App.Services.{DeviceAuthRequest}
use py_auth.App.Heartbeat.{World, heartbeat}
use py_auth.App.Heartbeat.Progress.{Quiet}
use py_auth.App.Server.Provenance.{heartbeat-Preserves}
use py_auth.Client.Bundle.Commit.{IsClean, IsProper}
use py_auth.Client.Storage.{Library, derive_key}
use py_auth.Client.Storage.Roundtrip.{Faithful}
use py_auth.Client.Cache.{AuthCache, Io, File, get_cache}
use py_auth.Client.Check.{CheckResult, Surroundings, request_data, check_authorization}
use py_auth.Client.Check.Cached.{check_authorization-get_cache, asked, root_before, root_after}
use py_auth.Client.Check.Decisions.{check_authorization_answered}
use py_auth.Protocol.{Line, exchange}
use py_auth.Protocol.Route.{Reached, exchange-Reached}
use py_auth.Protocol.Exchange.{Agreed, exchange_authorized}

some-inj {ℓ} : {A : Type ℓ} {a b : A} → some a ≡ some b → a ≡ b
some-inj e = cc

-- a heartbeat of a known device tells its authorization
exchange-known :
    (l : Line) (body : Fields) (w : World) (request : DeviceAuthRequest) (d : Device)
    → Agreed l body
    → truthy (obj body) ≡ true
    → l.services.device_auth_request (obj body) ≡ some request
    → l.env.commit_ok ≡ true
    → Quiet l.net w
    → Reached l
    → find_device request.device_id w.db ≡ some d
    → ((exchange l body w).0.success ≡ true) × ((exchange l body w).0.authorized ≡ d.is_authorized)
exchange-known l body w request d a t f ok q reached known =
    let (device, found, success, authorized) =
      exchange_authorized l body w request a t f ok q reached in
    let (after, found', same) =
      heartbeat-Preserves l.services l.server_secret l.cipher l.env l.net a.sealed w
        request.device_id d known in
    let db : (exchange l body w).1.db
        ≡ (heartbeat l.services l.server_secret l.cipher l.env l.net a.sealed w).1.db =
      ground (arith, exchange-Reached l body w a.sealed a.sealing reached) in
    let one : device ≡ after =
      some-inj (sym found ∙ ap (find_device request.device_id) db ∙ found') in
    (success, authorized ∙ ap (λ (x : Device). x.is_authorized) one ∙ same)

module _ (l : Line) (lib : Library) (c : AuthCache) (env : Surroundings) (w : World)
    (file : File) where
  -- what the check learns from the server by its heartbeat with a given number
  abbrev pub online : ℕ → CheckResult
  online n = (exchange l (request_data c.device_id c.software_name env.device_info n) w).0

  -- the heartbeat that the check sends
  abbrev pub body : Fields
  body = request_data c.device_id c.software_name env.device_info (asked lib c env file)

  -- Where the two sides agree, the POST is routed to the handler, the heartbeat is a valid one, its
  -- commit succeeds and its broadcast is undisturbed, a check of a device that the server knows says
  -- exactly what its row says, whatever the client had cached, and leaves exactly that in the cache: the
  -- time of the check if the row is authorized, and nothing if it is not. So a revocation takes effect
  -- with the next check that is answered. The client's clock is positive, its first write succeeds and
  -- its libraries are faithful on it; its state before has no repeated key, and the names of its
  -- products and of this one have no white space at their ends and are no reserved key.
  pub check_authorization-known :
      (request : DeviceAuthRequest) (d : Device) (io : Io) (rest : List Io) (n : ℕ)
      → Agreed l body
      → l.services.device_auth_request (obj body) ≡ some request
      → l.env.commit_ok ≡ true
      → Quiet l.net w
      → Reached l
      → find_device request.device_id w.db ≡ some d
      → env.attempts ≡ io ∷ rest
      → io.now ≡ suc n
      → io.write_ok 0 ≡ true
      → IsDict (root_before lib c env file)
      → IsClean (root_before lib c env file)
      → IsProper c.software_name
      → Faithful lib
          (derive_key lib c.server_url)
          (io.nonce 0)
          (root_after lib c env (online (asked lib c env file)) io.now (asked lib c env file) file)
      → ((check_authorization lib c env online file).0.success ≡ true)
        × ((check_authorization lib c env online file).0.authorized ≡ d.is_authorized)
        × (get_cache lib c (check_authorization lib c env online file).1
            ≡ (if d.is_authorized then some io.now else none))
  check_authorization-known request d io rest n agreed valid ok quiet reached known first later
        written dict clean proper faithful =
      let (success, authorized) =
        exchange-known l body w request d agreed (unfold truthy request_data in refl) valid ok quiet
          reached known in
      let answered = check_authorization_answered lib c env online file success in
      let cached =
        check_authorization-get_cache lib c env online file io rest n first later written success
          dict clean proper faithful in
      (
        ap (λ (r : CheckResult). r.success) answered ∙ success,
        ap (λ (r : CheckResult). r.authorized) answered ∙ authorized,
        cached ∙ ap (λ (b : Bool). if b then some io.now else none) authorized,
      )
