-- ===== src/App/Ws/Act.antt =====
-- The steps of a WebSocket handler: each reads and changes the world of the server process, and
-- may raise. What was sent or committed before a raise stays.
use py_auth.Prelude.{ℕ, String, Bool, Option, none, some, [], ◌∷◌, ◌++◌, if◌then◌else◌}
use py_auth.Json.{Fields, obj}
use py_auth.App.Models.{Db, Env}
use py_auth.App.Heartbeat.{World, Network, send_all}

-- A returned value, or an exception with its text.
pub data Attempt (A : Type 0) : Type 0 where
  ok : A → Attempt A
  raise : String → Attempt A

abbrev pub Act : Type 0 → Type 0
Act A = World → Attempt A × World

abbrev pub continue : {A B : Type 0} → Attempt A → (A → Act B) → Act B
continue (ok a) f w = f a w
continue (raise message) f w = (raise message, w)

infixl 10 ◌>>=◌ ◌>>◌
abbrev pub ◌>>=◌ : {A B : Type 0} → Act A → (A → Act B) → Act B
◌>>=◌ m f w = let (r, w') = m w in continue r f w'

abbrev pub ◌>>◌ : {B : Type 0} → Act Unit → Act B → Act B
m >> k = m >>= λ _. k

abbrev pub pure : {A : Type 0} → A → Act A
pure a w = (ok a, w)

-- `if not condition: raise ValueError(message)`
abbrev pub ensure : Bool → String → Act Unit
ensure condition message w = if condition then (ok tt, w) else (raise message, w)

-- `if not value: raise ValueError(message)`
abbrev pub require : {A : Type 0} → Option A → String → Act A
require none message w = (raise message, w)
require (some a) message w = (ok a, w)

abbrev pub read_db : Act Db
read_db w = (ok w.db, w)

-- `db.commit()`; the tables that are not committed are dropped
unfoldable pub commit_db : Env → Db → Act Unit
commit_db env db w =
    if env.commit_ok then (ok tt, record w { db = db }) else (raise "commit failed", w)

-- `websocket.send_json(message)` to the handler's own socket
unfoldable pub send : Network → ℕ → Fields → Act Unit
send net me message w =
    if net.alive me
    then (ok tt, record w { sent = w.sent ++ (me, obj message) ∷ [] })
    else (raise "socket is closed", w)

-- `device_ws_manager.broadcast(message)`
unfoldable pub announce : Network → Fields → Act Unit
unfolding send_all
announce net message w =
    let (raised, w') = send_all net message w in
    if raised then (raise "Set changed size during iteration", w') else (ok tt, w')
