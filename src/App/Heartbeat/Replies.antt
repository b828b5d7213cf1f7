-- ===== src/App/Heartbeat/Replies.antt =====
-- What `POST /api/auth/heartbeat` answers, and what it leaves behind.
use py_auth.Prelude.{
  String, ◌≡◌, ◌≢◌, refl, Bool, true, false, Option, some, arith, Option-cases, inl, inr,
}
use py_auth.Json.{Json, truthy}
use py_auth.App.Models.{Device, Db, Env, Response, done, fail, find_device}
use py_auth.App.Services.{Services, DeviceAuthRequest}
use py_auth.App.Auth.{decrypt_request_data, encrypt_response_data}
use py_auth.App.Heartbeat.{
  World, Network, process_device, respond, answer, heartbeat, authorization_response, send_all,
}
use py_auth.App.Heartbeat.Rows.{process_device-find}

module _ (sv : Services) (secret : String) (cached : Option String) (env : Env)
    (net : Network) where
  respond-ne-403 :
      (device : Device) (created : Bool) (w : World) (message : String)
      → (respond sv secret cached net device created w).0 ≢ fail 403 message
  unfolding respond
  respond-ne-403 device created w message h = ground arith

  processed-ne-403 :
      (request : DeviceAuthRequest) (db : Db) (message : String)
      → (process_device env request db).0 ≢ fail 403 message
  unfolding process_device
  processed-ne-403 request db message h = ground arith

  answer-ne-403 :
      (w : World) (processed : Response (Device × Bool) × Db) (message : String)
      → processed.0 ≢ fail 403 message
      → (answer sv secret cached net w processed).0 ≢ fail 403 message
  unfolding answer
  answer-ne-403 w (fail status detail, db) message ne h = ne (cc)
  answer-ne-403 w (done (device, created), db) message ne h =
      respond-ne-403 device created (record w { db = db }) message h

  -- A heartbeat that is answered with status 403 has stored nothing and told nobody.
  pub heartbeat_refused :
      (text : String) (w : World) (message : String)
      → (heartbeat sv secret cached env net text w).0 ≡ fail 403 message
      → (heartbeat sv secret cached env net text w).1 ≡ w
  unfolding heartbeat
  heartbeat_refused text w message h =
      elim (Option-cases (decrypt_request_data sv secret cached text)) [
        | inl e ↦ rw (e, heartbeat) refl
        | inr (payload, e) ↦ elim (Option-cases (sv.device_auth_request payload)) [
          | inl f ↦ ground arith
          | inr (request, f) ↦ ground (
            arith,
            answer-ne-403 w (process_device env request w.db) message
                (processed-ne-403 request w.db message),
          )
        ]
      ]

  answer_done :
      (w : World) (processed : Response (Device × Bool) × Db) (reply : String)
      → (answer sv secret cached net w processed).0 ≡ done reply
      → (device : Device) × (created : Bool) × (processed.0 ≡ done (device, created))
        × ((answer sv secret cached net w processed).1.db ≡ processed.1)
        × (encrypt_response_data sv secret cached (authorization_response device) ≡ some reply)
  unfolding answer respond send_all
  answer_done w (fail status detail, db) reply h = ground arith
  answer_done w (done (device, created), db) reply h =
      (device, created, refl, ground arith, ground arith)

  -- A heartbeat that succeeds went through decryption and validation, and its encrypted reply
  -- states the authorization in the row that the tables then hold for the requesting device.
  pub heartbeat_done :
      (text : String) (w : World) (reply : String)
      → (heartbeat sv secret cached env net text w).0 ≡ done reply
      → (payload : Json) × (request : DeviceAuthRequest) × (device : Device) × (decrypt_request_data
            sv secret cached text
          ≡ some payload)
        × (sv.device_auth_request payload ≡ some request)
        × (find_device request.device_id (heartbeat sv secret cached env net text w).1.db
            ≡ some device)
        × (encrypt_response_data sv secret cached (authorization_response device) ≡ some reply)
  unfolding heartbeat
  heartbeat_done text w reply h = elim (Option-cases (decrypt_request_data sv secret cached text)) [
    | inl e ↦ absurd (ground arith)
    | inr (payload, e) ↦ elim (Option-cases (sv.device_auth_request payload)) [
      | inl f ↦ absurd (ground arith)
      | inr (request, f) ↦
          let t : truthy payload ≡ true = ground arith in
          let (device, created, p, q, r) =
            answer_done w (process_device env request w.db) reply (ground arith) in
          (
            payload,
            request,
            device,
            e,
            f,
            ground (arith, process_device-find env request w.db device created p),
            r,
          )
    ]
  ]

  -- A heartbeat whose commit fails is answered with an error, stores nothing and tells nobody.
  pub heartbeat_uncommitted :
      (text : String) (w : World)
      → env.commit_ok ≡ false
      → ((heartbeat sv secret cached env net text w).1 ≡ w)
        × ((reply : String) → (heartbeat sv secret cached env net text w).0 ≢ done reply)
  unfolding heartbeat process_device
  heartbeat_uncommitted text w no_commit =
      elim (Option-cases (decrypt_request_data sv secret cached text)) [
        | inl e ↦ (ground arith, λ reply h. ground arith)
        | inr (payload, e) ↦ elim (Option-cases (sv.device_auth_request payload)) [
          | inl f ↦ (ground arith, λ reply h. ground arith)
          | inr (request, f) ↦ (ground arith, λ reply h. ground arith)
        ]
      ]
