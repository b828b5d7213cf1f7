-- ===== src/Protocol/Route.antt =====
-- Whether the heartbeat of a client reaches its handler.
use py_auth.Prelude.{String, ℕ, ◌≡◌, refl, false, none, some, Option-cases, inl, inr, arith}
use py_auth.Json.{Fields}
use py_auth.App.Models.{fail}
use py_auth.App.Main
use py_auth.App.Main.Routes.{Documented, dispatch-heartbeat}
use py_auth.App.Heartbeat.{World, heartbeat}
use py_auth.Client.Wire.{encrypt_data}
use py_auth.Client.Check.{heartbeat_result}
use py_auth.Protocol.{Line, exchange, handled, answer_of, heartbeat_path}

-- The POST of the client is routed to the handler of the heartbeat.
pub record Reached (l : Line) : Type 0 where
  pub endpoint : Main.Endpoint
  pub found : Main.dispatch l.framework l.dist Main.post (heartbeat_path l) ≡ some endpoint
  pub is_heartbeat : endpoint.handler ≡ Main.heartbeat

pub handled-Reached :
    (l : Line) (text : String) (w : World)
    → Reached l
    → handled l (Main.dispatch l.framework l.dist Main.post (heartbeat_path l)) text w
      ≡ heartbeat l.services l.server_secret l.cipher l.env l.net text w
unfolding handled
handled-Reached l text w r = rw (r.found, r.is_heartbeat) refl

failed_answer :
    (l : Line) (code : ℕ) (detail : String)
    → (heartbeat_result l.texts (answer_of l.wire l.client_secret (fail code detail))).success
      ≡ false
unfolding heartbeat_result answer_of
failed_answer l code detail = ground arith

-- what comes of a heartbeat that is encrypted and routed
pub exchange-Reached :
    (l : Line) (body : Fields) (w : World) (sealed : String)
    → encrypt_data l.wire l.client_secret body ≡ some sealed
    → Reached l
    → exchange l body w ≡ (
      heartbeat_result l.texts (
          answer_of l.wire l.client_secret
            (heartbeat l.services l.server_secret l.cipher l.env l.net sealed w).0),
      (heartbeat l.services l.server_secret l.cipher l.env l.net sealed w).1,
    )
unfolding exchange
exchange-Reached l body w sealed sealing r =
    rw (exchange, sealing, handled-Reached l sealed w r) refl

-- A client whose `server_url` has no path, as the README gives it, is never answered: whatever the
-- secrets and the tables, its heartbeat is not handled, so that it fails on the client's side and
-- leaves everything on the server as it was. The framework puts prefixes in front of paths, matches
-- paths as documented, and answers a request without a handler with an error.
pub exchange_unreached :
    (l : Line) (body : Fields) (w : World) (code : ℕ) (detail : String)
    → Documented l.framework
    → l.server_path ≡ ""
    → l.unrouted ≡ fail code detail
    → ((exchange l body w).0.success ≡ false) × ((exchange l body w).1 ≡ w)
unfolding exchange handled
exchange_unreached l body w code detail doc path unrouted =
    let missing : Main.dispatch l.framework l.dist Main.post (heartbeat_path l) ≡ none =
      rw path (dispatch-heartbeat l.framework l.dist doc) in
    elim (Option-cases (encrypt_data l.wire l.client_secret body)) [
      | inl e ↦ rw (exchange, e) (refl, refl)
      | inr (text, e) ↦
          rw (exchange, e, missing, handled, unrouted) (failed_answer l code detail, refl)
    ]
