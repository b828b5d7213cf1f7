-- ===== src/App/Server.antt =====
-- app/main and the routers together: what one request, message, or start does to the server process.
-- Requests are handled one after the other; what other tasks do to the set of sockets during a
-- broadcast is in the network that the event meets. Reading routes leave the tables and are left out.
pub mod Validity
pub mod Provenance
use py_auth.Prelude.{
  ℕ, String, Bool, true, false, not, Option, none, some, List, [], ◌∷◌, ◌==◌, find, select, ℤ,
  if◌then◌else◌,
}
use py_auth.Json.{Fields}
use py_auth.App.Models.{Device, User, Db, Env, Response}
use py_auth.App.Services.{Services}
use py_auth.App.Main.{init_database}
use py_auth.App.Heartbeat.{World, Network, heartbeat}
use py_auth.App.Users.{change_password}
use py_auth.App.Admin.Config.{update_configs}
use py_auth.App.Admin.Accounts.{UserCreate, UserUpdate, create_user, update_user, delete_user}
use py_auth.App.Admin.Logs.{cleanup_operation_logs}
use py_auth.App.Ws.Values.{Python}
use py_auth.App.Ws.Devices.{SortField}
use py_auth.App.Ws.Session.{open_socket, receive}
use py_auth.App.Invariant.{IsFresh}

-- What the process is started with: the libraries, and the environment variables that it reads.
pub record Server : Type 0 where
  pub services : Services
  pub python : Python
  pub order : SortField → Bool → List Device → List Device
  pub secret : String
  pub cipher : Option String
  pub admin_name : String
  pub admin_password : String

-- the world, and the actor of each socket whose loop runs
pub record System : Type 0 where
  pub world : World
  pub sessions : List (ℕ × String)

-- the routes that change the tables, with what they are sent
pub data Route : Type 0 where
  put_password : String → String → Route
  put_config : Fields → Route
  post_user : UserCreate → Route
  put_user : ℕ → UserUpdate → Route
  remove_user : ℕ → Route
  remove_logs : ℕ → Route

pub data Event : Type 0 where
  -- the start of a worker: whether another one holds the lock, and whether the tables can be made
  starts : Env → Bool → Bool → Event
  beats : Env → Network → String → Event
  requests : Env → Option String → Route → Event
  opens : Env → Network → String → ℕ → Event
  sends : Env → Network → ℕ → String → Event

abbrev pub env_of : Event → Env
env_of (starts env locked created) = env
env_of (beats env net text) = env
env_of (requests env credentials route) = env
env_of (opens env net token me) = env
env_of (sends env net me text) = env

unfoldable pub serve : Server → Env → Option String → Route → Db → Db
unfolding change_password update_configs create_user update_user delete_user cleanup_operation_logs
serve s env credentials (put_password old new) db =
    (change_password s.services env credentials old new db).1
serve s env credentials (put_config configs) db =
    (update_configs s.services env credentials configs db).1
serve s env credentials (post_user data') db = (create_user s.services env credentials data' db).1
serve s env credentials (put_user user_id change) db =
    (update_user s.services env credentials user_id change db).1
serve s env credentials (remove_user user_id) db =
    (delete_user s.services env credentials user_id db).1
serve s env credentials (remove_logs days) db =
    (cleanup_operation_logs s.services env credentials days db).1

abbrev pub session_of : ℕ → System → Option (ℕ × String)
session_of me t = find (λ (s : ℕ × String). s.0 == me) t.sessions

-- a socket after the first part of its handler: its loop runs where there is an actor
abbrev pub opened : ℕ → System → Option String × World → System
opened me t (none, w) = record t { world = w }
opened me t (some actor, w) = record { world = w; sessions = (me, actor) ∷ t.sessions }

-- a socket after a turn of its loop
abbrev pub turned : ℕ → System → Bool × World → System
turned me t (true, w) = record t { world = w }
turned me t (false, w) = record {
  world = w;
  sessions = select (λ (s : ℕ × String). not (s.0 == me)) t.sessions;
}

-- A number that is already a socket cannot be opened again, and one without a session sends nothing.
unfoldable pub handle : Server → Event → System → System
unfolding serve heartbeat init_database open_socket receive
handle s (starts env locked created) t = record t {
  world = record t.world {
    db = (init_database s.services env locked created s.admin_name s.admin_password t.world.db);
  };
}
handle s (beats env net text) t = record t {
  world = (heartbeat s.services s.secret s.cipher env net text t.world).1;
}
handle s (requests env credentials route) t = record t {
  world = record t.world { db = serve s env credentials route t.world.db };
}
handle s (opens env net token me) t = elim (session_of me t) [
  | some session ↦ t
  | none ↦ opened me t (open_socket s.python s.order s.services env net token me t.world)
]
handle s (sends env net me text) t = elim (session_of me t) [
  | none ↦ t
  | some session ↦
      turned me t (receive s.python s.order s.services env net session.1 me text t.world)
]

-- The states that the process can get into, where the database gives new rows new primary keys.
pub data Reach (s : Server) (start : System) : System → Type 0 where
  here : Reach s start start
  next :
      {t : System}
      → Reach s start t
      → (e : Event) → IsFresh (env_of e)
      → Reach s start (handle s e t)
