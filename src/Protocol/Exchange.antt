-- ===== src/Protocol/Exchange.antt =====
-- What the client learns by one heartbeat.
use py_auth.Prelude.{String, ap, ◌is◌, ◌≡◌, refl, some, true, arith}
use py_auth.Json.{Fields, obj, truthy, get_or, get}
use py_auth.App.Models.{Device, find_device}
use py_auth.App.Services.{DeviceAuthRequest}
use py_auth.App.Auth.{decrypt_request_data, encrypt_response_data}
use py_auth.App.Heartbeat.{World, heartbeat, authorization_response}
use py_auth.App.Heartbeat.Replies.{heartbeat_done}
use py_auth.App.Heartbeat.Progress.{Quiet, heartbeat_answered}
use py_auth.Client.Wire.{encrypt_data, decrypt_data}
use py_auth.Client.Check.{heartbeat_result, decrypted_result}
use py_auth.Protocol.{Line, exchange, answer_of}
use py_auth.Protocol.Route.{Reached, exchange-Reached}

-- The two sides have one secret, and their libraries undo each other on this request and on every
-- reply: the server reads what the client encrypted, and the client what the server encrypted.
pub record Agreed (l : Line) (body : Fields) : Type 0 where
  pub sealed : String
  pub sealing : encrypt_data l.wire l.client_secret body ≡ some sealed
  pub opened : decrypt_request_data l.services l.server_secret l.cipher sealed ≡ some (obj body)
  pub reply_sealed :
      (device : Device)
      → (reply : String) × (encrypt_response_data l.services l.server_secret l.cipher
            (authorization_response device)
          ≡ some reply)
  pub reply_opened :
      (device : Device) (reply : String)
      → encrypt_response_data l.services l.server_secret l.cipher (authorization_response device)
        ≡ some reply
      → decrypt_data l.wire l.client_secret reply ≡ some (obj (authorization_response device))

granted_result :
    (l : Line) (device : Device)
    → let r = decrypted_result l.texts (obj (authorization_response device)) in
      (r.success ≡ true) × (r.authorized ≡ device.is_authorized)
unfolding decrypted_result authorization_response truthy get_or get ◌is◌
granted_result l device = (refl, refl)

-- Where the two sides agree, the POST of the client is routed to the handler (as it is for a
-- `server_url` that ends in /api/auth, and not for the one of the README), the information sent is not
-- empty, the request is a valid one, the commit succeeds, and no other task changes the set of sockets
-- during the broadcast, a heartbeat succeeds on the client's side, and what the client learns is the
-- authorization in the row that the server then holds for the device.
pub exchange_authorized :
    (l : Line) (body : Fields) (w : World) (request : DeviceAuthRequest)
    → Agreed l body
    → truthy (obj body) ≡ true
    → l.services.device_auth_request (obj body) ≡ some request
    → l.env.commit_ok ≡ true
    → Quiet l.net w
    → Reached l
    → (device : Device) × (find_device request.device_id (exchange l body w).1.db ≡ some device)
      × ((exchange l body w).0.success ≡ true)
      × ((exchange l body w).0.authorized ≡ device.is_authorized)
unfolding answer_of heartbeat_result
exchange_authorized l body w request a t f committed q reached =
    let (reply, answered) =
      heartbeat_answered l.services l.server_secret l.cipher l.env l.net a.sealed w (obj body)
        request a.opened t f committed q a.reply_sealed in
    let (payload, request', device, p, r, found, sent) =
      heartbeat_done l.services l.server_secret l.cipher l.env l.net a.sealed w reply answered in
    let same : request' ≡ request =
      ground (
        arith,
        a.opened,
        p,
        r,
        f,
        ap l.services.device_auth_request {x = payload} {y = obj body},
      ) in
    let read = a.reply_opened device reply sent in
    let routed = exchange-Reached l body w a.sealed a.sealing reached in
    (
      device,
      ground (
        arith,
        routed,
        found,
        ap (λ (q : DeviceAuthRequest). q.device_id) same,
        ap
            (λ (x : String).
              find_device x
                (heartbeat l.services l.server_secret l.cipher l.env l.net a.sealed w).1.db)
            {x = request'.device_id} {y = request.device_id},
      ),
      ground (arith, routed, answered, read, granted_result l device),
      ground (arith, routed, answered, read, granted_result l device),
    )
