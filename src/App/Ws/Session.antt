-- ===== src/App/Ws/Session.antt =====
-- app/routers/ws.py: `device_events`: who may open the socket, the first messages, and the loop
-- over the received ones.
use py_auth.Prelude.{
  ℕ, String, Bool, true, false, Option, none, some, List, [], ◌∷◌, ◌is◌, if◌then◌else◌, pos, length,
}
use py_auth.Json.{Json, Fields, str, int, arr, obj, end, field, get, truthy}
use py_auth.App.Models.{Device, Db, Env, find_user}
use py_auth.App.Services.{Services}
use py_auth.App.Auth.{verify_token, subject}
use py_auth.App.Manager.{connect, disconnect}
use py_auth.App.Heartbeat.{World, Network}
use py_auth.App.Paging.{page_of}
use py_auth.App.Ws.Act.{Act, Attempt, ok, raise, ◌>>=◌, ◌>>◌, read_db, send}
use py_auth.App.Ws.Values.{Python, request_id_of, device_responses}
use py_auth.App.Ws.Devices.{SortField, updated_at, get_devices, update_device, delete_device}
use py_auth.App.Ws.Batch.{delete_devices}

-- The name of the user whom the token in the query belongs to, if the account is active. An empty
-- token, payload or name counts as missing.
unfoldable pub actor_of : Services → ℕ → Db → String → Option String
unfolding verify_token subject truthy
actor_of sv now db token = if token is "" then none else elim (verify_token sv now token) [
  | none ↦ none
  | some payload ↦
      if truthy (obj payload)
      then elim (subject payload) [
        | none ↦ none
        | some username ↦ if username is "" then none else elim (find_user username db) [
          | none ↦ none
          | some user ↦ if user.is_active then some user.username else none
        ]
      ]
      else none
]

-- How a turn of the loop ends: `true` where it goes on. The outer handlers discard the socket.
unfoldable pub finish : ℕ → Attempt Unit × World → Bool × World
unfolding disconnect
finish me (ok _, w) = (true, w)
finish me (raise _, w) = (false, record w { manager = disconnect me w.manager })

unfoldable pub error_message : Json → String → String → Fields
error_message request_id text fallback = field "type" (str "error") (
    field "request_id" request_id
      (field "message" (str (if text is "" then fallback else text)) end))

-- `try: ... except Exception as e: await websocket.send_json({"type": "error", ...})`
unfoldable pub report : Network → ℕ → Json → String → Attempt Unit × World → Attempt Unit × World
unfolding error_message send
report net me request_id fallback (ok a, w) = (ok a, w)
report net me request_id fallback (raise text, w) =
    send net me (error_message request_id text fallback) w

unfoldable pub reporting : Network → ℕ → Json → String → Act Unit → Act Unit
unfolding report
reporting net me request_id fallback act w = report net me request_id fallback (act w)

-- a text as `data.get("type")` gives it; another value equals none of the known ones
abbrev pub kind_of : Option Json → String
kind_of (some (str kind)) = kind
kind_of _ = ""

module _ (py : Python) (order : SortField → Bool → List Device → List Device) where
  unfoldable pub first_list : Db → Fields
  unfolding page_of device_responses
  first_list db = field "type" (str "devices_list") (
      field "total" (int (pos (length db.devices))) (
        field "devices"
          (arr (device_responses py (page_of 1 50 (order updated_at false db.devices)))) end))

  -- The beginning of `device_events`: whether the loop is entered, and the world then. A socket
  -- without an actor is closed with code 4401. What is raised here leaves the function without a
  -- `disconnect`.
  unfoldable pub open_socket : Services → Env → Network → String → ℕ → World → Option String × World
  unfolding actor_of connect send first_list
  open_socket sv env net token me w = elim (actor_of sv env.now w.db token) [
    | none ↦ (none, w)
    | some actor ↦
        if actor is ""
        then (none, w)
        else (let (r, w') =
              (do
                send net me (field "type" (str "connected") end)
                db ← read_db
                send net me (first_list db))
                (record w { manager = connect me w.manager }) in
            elim r [ ok _ ↦ (some actor, w') | raise _ ↦ (none, w') ])
  ]

  unfoldable pub dispatch : Env → Network → String → ℕ → Fields → String → Act Unit
  unfolding reporting get_devices update_device delete_device delete_devices request_id_of
  dispatch env net actor me message kind w =
      if kind is "get_devices"
      then get_devices py order net me message w
      else if kind is "update_device"
      then reporting net me (request_id_of message) "更新失败"
          (update_device py env net actor me message) w
      else if kind is "delete_device"
      then reporting net me (request_id_of message) "删除失败"
          (delete_device py env net actor me message) w
      else if kind is "delete_devices"
      then reporting net me (request_id_of message) "批量删除失败"
          (delete_devices py env net actor me message) w
      else (ok tt, w)

  unfoldable pub received : Env → Network → String → ℕ → World → Json → Bool × World
  unfolding dispatch finish get
  received env net actor me w (obj d) =
      finish me (dispatch env net actor me d (kind_of (get "type" d)) w)
  received env net actor me w _ = (false, record w { manager = disconnect me w.manager })

  -- One turn of the loop on the received text: what is no JSON is skipped, and what is JSON but no
  -- dict has no `get`.
  unfoldable pub receive : Services → Env → Network → String → ℕ → String → World → Bool × World
  unfolding received
  receive sv env net actor me text w = elim (sv.loads text) [
    | none ↦ (true, w)
    | some message ↦ received env net actor me w message
  ]

  -- The loop on the texts that arrive, each with the clock and the network of its turn.
  unfoldable pub session :
      Services → String → ℕ → List (Env × Network × String) → World → Bool × World
  unfolding receive
  session sv actor me [] w = (true, w)
  session sv actor me ((env, net, text) ∷ rest) w =
      let (open_still, w') = receive sv env net actor me text w in
      elim open_still [ true ↦ session sv actor me rest w' | false ↦ (false, w') ]
