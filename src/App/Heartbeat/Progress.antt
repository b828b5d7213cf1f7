-- ===== src/App/Heartbeat/Progress.antt =====
-- app/routers/auth.py: that a heartbeat is answered.
use py_auth.Prelude.{String, ◌≡◌, Bool, true, false, Option, some, [], arith, if◌then◌else◌}
use py_auth.Json.{Json, Fields, truthy}
use py_auth.App.Models.{Device, Env, done}
use py_auth.App.Services.{Services, DeviceAuthRequest}
use py_auth.App.Auth.{decrypt_request_data, encrypt_response_data}
use py_auth.App.Manager.Broadcast.{broadcast_quiet}
use py_auth.App.Heartbeat.{
  World, Network, heartbeat, process_device, answer, respond, send_all, changed_message,
  authorization_response,
}
use py_auth.App.Heartbeat.Rows.{process_device_committed}

-- the set is iterated in its own order, and no other task changes it meanwhile
pub record Quiet (net : Network) (w : World) : Type 0 where
  pub in_order : net.order ≡ w.manager.clients
  pub unchanged : net.turns ≡ []

module _ (sv : Services) (secret : String) (cached : Option String) (env : Env)
    (net : Network) where
  send_all-Quiet : (message : Fields) (w : World) → Quiet net w → (send_all net message w).0 ≡ false
  unfolding send_all
  send_all-Quiet message w q =
      rw (q.in_order, q.unchanged) (broadcast_quiet net.alive w.manager 0).0

  respond-Quiet :
      (device : Device) (created : Bool) (w : World) (reply : String)
      → Quiet net w
      → encrypt_response_data sv secret cached (authorization_response device) ≡ some reply
      → (respond sv secret cached net device created w).0 ≡ done reply
  unfolding respond
  respond-Quiet device created w reply q e = ground (
    arith,
    send_all-Quiet (changed_message (if created then "created" else "heartbeat") device.device_id) w
        q,
  )

  -- A heartbeat that is decrypted to a request and whose commit succeeds is answered, where no other
  -- task changes the set of sockets during the broadcast and every authorization can be encrypted.
  pub heartbeat_answered :
      (text : String) (w : World) (payload : Json) (request : DeviceAuthRequest)
      → decrypt_request_data sv secret cached text ≡ some payload
      → truthy payload ≡ true
      → sv.device_auth_request payload ≡ some request
      → env.commit_ok ≡ true
      → Quiet net w
      → ((device : Device)
          → (reply : String) × (encrypt_response_data sv secret cached
                (authorization_response device)
              ≡ some reply))
      → (reply : String) × ((heartbeat sv secret cached env net text w).0 ≡ done reply)
  unfolding heartbeat answer
  heartbeat_answered text w payload request e t f committed q sealed =
      let (device, created, p) = process_device_committed env request w.db committed in
      let (reply, r) = sealed device in
      let stored = record w { db = (process_device env request w.db).1 } in
      (
        reply,
        ground (
          arith,
          respond-Quiet device created stored reply
              (record { in_order = q.in_order; unchanged = q.unchanged }) r,
        ),
      )
