-- ===== src/App/Ws/Entry.antt =====
-- app/routers/ws.py: who may open a socket.
use py_auth.Prelude.{
  ℕ, String, ◌≡◌, refl, Bool, Bool-cases, none, some, List, arith, Option-cases, inl, inr,
}
use py_auth.App.Models.{User, Device, Db, Env, done, find_user}
use py_auth.App.Services.{Services}
use py_auth.App.Auth.{verify_token, subject, get_current_user}
use py_auth.App.Heartbeat.{World, Network}
use py_auth.App.Ws.Act.{send}
use py_auth.App.Ws.Values.{Python}
use py_auth.App.Ws.Devices.{SortField}
use py_auth.App.Ws.Session.{actor_of, open_socket}

-- The socket's own check of the token lets in nobody whom the check of the HTTP routes refuses: an
-- actor is the name of the current user that the same token gives there.
pub actor_of-current :
    (sv : Services) (now : ℕ) (db : Db) (token actor : String)
    → actor_of sv now db token ≡ some actor
    → (u : User) × (get_current_user sv now db (some token) ≡ done u) × (u.username ≡ actor)
unfolding actor_of get_current_user
actor_of-current sv now db token actor h = elim (Option-cases (verify_token sv now token)) [
  | inl e ↦ absurd (ground arith)
  | inr (payload, e) ↦ elim (Option-cases (subject payload)) [
    | inl f ↦ absurd (ground arith)
    | inr (username, f) ↦ elim (Option-cases (find_user username db)) [
      | inl g ↦ absurd (ground arith)
      | inr (u, g) ↦ (u, ground arith, ground arith)
    ]
  ]
]

-- A socket whose token gives no actor changes nothing: it is not added to the set of sockets, and
-- nothing is sent to it.
pub open_socket_refused :
    (py : Python) (order : SortField → Bool → List Device → List Device) (sv : Services) (env : Env)
    (net : Network) (token : String) (me : ℕ) (w : World)
    → actor_of sv env.now w.db token ≡ none
    → open_socket py order sv env net token me w ≡ (none, w)
unfolding open_socket
open_socket_refused py order sv env net token me w h = rw (h, open_socket) refl

-- what a socket does when it is opened leaves the tables
pub open_socket-db :
    (py : Python) (order : SortField → Bool → List Device → List Device) (sv : Services) (env : Env)
    (net : Network) (token : String) (me : ℕ) (w : World)
    → (open_socket py order sv env net token me w).1.db ≡ w.db
unfolding open_socket send
open_socket-db py order sv env net token me w =
    elim (Option-cases (actor_of sv env.now w.db token)) [
      | inl e ↦ ground arith
      | inr (actor, e) ↦ ground (arith, Bool-cases (net.alive me))
    ]
