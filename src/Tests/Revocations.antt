-- ===== src/Tests/Revocations.antt =====
-- A check of the client, from the heartbeat through the server and back to what is cached.
use py_auth.Prelude.{◌≡◌, arith, refl, true, none, some, [], ◌∷◌, ◌is◌, find}
use py_auth.Json.{Fields, obj, bool, str, field, end, get, get_or}
use py_auth.App.Models.{Device, find_device}
use py_auth.App.Heartbeat.{World, Network}
use py_auth.App.Server.{System, handle}
use py_auth.App.Ws.Values.{device_id_of, update_of, allowed_of}
use py_auth.App.Ws.Devices.{update_device, is_no_field}
use py_auth.Protocol.Change.{after, at_once, update_device-check_authorization}
use py_auth.Client.Storage.{read_state_dict}
use py_auth.Client.Cache.{get_cache, snapshot_auth_row}
use py_auth.Client.Check.{check_authorization, request_data}
use py_auth.Client.Check.Cached.{root_after}
use py_auth.Protocol.{exchange}
use py_auth.Protocol.Revocation.{online, check_authorization-known}
use py_auth.Tests.Data.{request, device, other_device, db, world, env, net, python, texts-ne}
use py_auth.Tests.Clients.{body, cache, io, around, library}
use py_auth.Tests.States.{library_of}
use py_auth.Tests.Systems.{line, line-Agreed, line-Reached, server, removal}

abbrev authorized_device : Device
authorized_device = record device { is_authorized = true }

abbrev authorizing : World
authorizing = record world { db = record db { devices = authorized_device ∷ other_device ∷ [] } }

abbrev asked : Fields
asked = request_data "d1" "editor" end 1

abbrev checked : Fields
checked =
    root_after library cache around (exchange (line (obj asked)) asked authorizing).0 1000 1 none

check_authorization-known_example :
    let online = online (line (obj asked)) (library_of checked) cache around authorizing none in
    ((check_authorization (library_of checked) cache around online none).0.success ≡ true)
    × ((check_authorization (library_of checked) cache around online none).0.authorized ≡ true)
    × (get_cache
          (library_of checked)
          cache
          (check_authorization (library_of checked) cache around online none).1
        ≡ some 1000)
unfolding read_state_dict ◌is◌ snapshot_auth_row request_data find_device find get_or get
check_authorization-known_example =
    check_authorization-known (line (obj asked)) (library_of checked) cache around authorizing none
      request authorized_device io [] 999 (line-Agreed asked refl) refl refl
      (record { in_order = refl; unchanged = refl }) (line-Reached (obj asked)) refl refl refl refl
      tt tt (refl, refl, refl)
      (record {
        body = body;
        dumped = refl;
        loaded = refl;
        deciphered = refl;
        tagged = ground arith;
        nonce_length = refl;
      })

abbrev message : Fields
message =
    field "type" (str "update_device") (
      field "device_id" (str "d1") (field "data" (obj (field "is_authorized" (bool true) end)) end))

-- a network on which every send succeeds
abbrev alive_net : Network
alive_net = record net { alive = λ c. true }

abbrev changed_system : System
changed_system = record {
  world = (update_device python env alive_net "root" 3 message world).1;
  sessions = [];
}

abbrev later_system : System
later_system = handle server removal changed_system

abbrev checked_later : Fields
checked_later =
    root_after library cache around (exchange (line (obj asked)) asked later_system.world).0 1000 1
      none

update_device-check_authorization_example :
    let online =
      online (line (obj asked)) (library_of checked_later) cache around later_system.world none in
    ((check_authorization (library_of checked_later) cache around online none).0.success ≡ true)
    × ((check_authorization (library_of checked_later) cache around online none).0.authorized
        ≡ true)
    × (get_cache
          (library_of checked_later)
          cache
          (check_authorization (library_of checked_later) cache around online none).1
        ≡ some 1000)
unfolding read_state_dict ◌is◌ snapshot_auth_row request_data find_device find get_or get
    device_id_of update_of is_no_field allowed_of handle
update_device-check_authorization_example =
    update_device-check_authorization python env alive_net "root" 3 message world server
      (line (obj asked)) (library_of checked_later) cache around none
      (field "is_authorized" (bool true) end) device none changed_system later_system request io []
      999 (texts-ne (device_id_of python message) "" refl) refl refl refl refl refl refl
      (after at_once removal (λ env' net' me text e. cc)) refl (line-Agreed asked refl) refl refl
      (record { in_order = refl; unchanged = refl }) (line-Reached (obj asked)) refl refl refl tt tt
      (refl, refl, refl)
      (record {
        body = body;
        dumped = refl;
        loaded = refl;
        deciphered = refl;
        tagged = ground arith;
        nonce_length = refl;
      })
