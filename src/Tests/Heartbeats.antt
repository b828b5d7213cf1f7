-- ===== src/Tests/Heartbeats.antt =====
-- Runs of the heartbeat and of the broadcast.
use py_auth.Prelude.{◌≡◌, refl, true, none, some, [], ◌∷◌, ◌++◌, arith, ◌is◌, find}
use py_auth.Json.{Json, truthy}
use py_auth.App.Models.{Device, done, find_device}
use py_auth.App.Services.{DeviceAuthRequest}
use py_auth.App.Auth.{decrypt_request_data, encrypt_response_data, get_cipher}
use py_auth.App.Manager.{joins, broadcast, has, apply_changes, connect}
use py_auth.App.Manager.Broadcast.{broadcast_interrupted}
use py_auth.App.Heartbeat.{
  heartbeat, process_device, authorization_response, default_authorization, answer, respond,
  send_all,
}
use py_auth.App.Heartbeat.Rows.{process_device-new}
use py_auth.App.Heartbeat.Replies.{heartbeat_done}
use py_auth.Tests.Data.{env, request, new_request, services, device, db, world, net}

heartbeat_done_example :
    (payload : Json) × (request : DeviceAuthRequest) × (device : Device) × (decrypt_request_data
        services "s" none "sealed"
      ≡ some payload)
    × (services.device_auth_request payload ≡ some request)
    × (find_device request.device_id (heartbeat services "s" none env net "sealed" world).1.db
        ≡ some device)
    × (encrypt_response_data services "s" none (authorization_response device) ≡ some "sealed")
unfolding heartbeat decrypt_request_data encrypt_response_data get_cipher truthy process_device
    find_device answer respond send_all broadcast ◌is◌ find
heartbeat_done_example = heartbeat_done services "s" none env net "sealed" world "sealed" refl

process_device-new_example :
    (d : Device) × ((process_device env new_request db).0 ≡ done (d, true))
    × (d.is_authorized ≡ default_authorization db)
    × (find_device new_request.device_id (process_device env new_request db).1 ≡ some d)
    × ((process_device env new_request db).1.devices ≡ db.devices ++ d ∷ [])
unfolding find_device find ◌is◌
process_device-new_example = process_device-new env new_request db refl refl

broadcast_interrupted_example :
    broadcast net.alive (3 ∷ 4 ∷ []) ((joins 5 ∷ []) ∷ []) (record { clients = 3 ∷ 4 ∷ [] })
    ≡ record {
      raised = true;
      manager = apply_changes (joins 5 ∷ []) (record { clients = 3 ∷ 4 ∷ [] });
      delivered = 3 ∷ [];
    }
unfolding apply_changes connect has
broadcast_interrupted_example =
    broadcast_interrupted net.alive 3 (4 ∷ []) (joins 5 ∷ []) [] (record { clients = 3 ∷ 4 ∷ [] })
      (λ e. ground arith)
