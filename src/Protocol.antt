-- ===== src/Protocol.antt =====
-- One heartbeat from the client to the server and back: `_post_heartbeat` of
-- client/python/py_auth_client/auth_client.py, the routes of main.py, and `heartbeat` of
-- app/routers/auth.py.
pub mod Route
pub mod Exchange
pub mod Revocation
pub mod Change
use py_auth.Prelude.{ℕ, String, Option, none, some, Bool, true, false, if◌then◌else◌, ◌==◌}
use py_auth.Json.{Json, Fields, str}
use py_auth.App.Models.{Env, Response, done, fail}
use py_auth.App.Services.{Services}
use py_auth.App.Main
use py_auth.Text.{append}
use py_auth.App.Heartbeat.{World, Network, heartbeat}
use py_auth.Client.Wire.{Wire, encrypt_data, decrypt_data}
use py_auth.Client.Check.{
  CheckResult, Answer, accepted, forbidden, status, Texts, failed, heartbeat_result, request_data,
}

-- What the client makes of the response: 200 with the encrypted reply, 403 with its detail, or another
-- status.
unfoldable pub answer_of : Wire → String → Response String → Answer
unfolding decrypt_data
answer_of wire secret (done reply) = accepted (decrypt_data wire secret reply)
answer_of wire secret (fail code detail) =
    if code == 403 then forbidden (some (str detail)) else status code

-- The two sides: the libraries and secrets of each, what the request meets, the path of the client's
-- `server_url`, empty where it has none, and what the framework answers for a path and method without
-- a handler.
pub record Line : Type 0 where
  pub wire : Wire
  pub client_secret : String
  pub texts : Texts
  pub server_path : String
  pub framework : Main.Framework
  pub dist : Main.Dist
  pub unrouted : Response String
  pub services : Services
  pub server_secret : String
  pub cipher : Option String
  pub env : Env
  pub net : Network

-- the path of `f"{self.server_url}/api/auth/heartbeat"`
abbrev pub heartbeat_path : Line → String
heartbeat_path l = append l.server_path "/api/auth/heartbeat"

-- What the server does with the POST: it runs the handler of the route. No other route for POST has a
-- path that ends so.
unfoldable pub handled : Line → Option Main.Endpoint → String → World → Response String × World
handled l none text w = (l.unrouted, w)
handled l (some e) text w = elim e.handler [
  | Main.heartbeat ↦ heartbeat l.services l.server_secret l.cipher l.env l.net text w
  | _ ↦ (l.unrouted, w)
]

-- A heartbeat whose request reaches the server and whose response comes back.
unfoldable pub exchange : Line → Fields → World → CheckResult × World
unfolding encrypt_data answer_of handled Main.dispatch
exchange l body w = elim (encrypt_data l.wire l.client_secret body) [
  | none ↦ (failed (l.texts.unknown_error "TypeError"), w)
  | some text ↦
      let endpoint = Main.dispatch l.framework l.dist Main.post (heartbeat_path l) in
      let (response, w') = handled l endpoint text w in
      (heartbeat_result l.texts (answer_of l.wire l.client_secret response), w')
]
