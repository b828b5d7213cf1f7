-- ===== src/Lib.antt =====
-- py-auth: a server that authorizes devices, and the client that asks it.
--
-- The server (app/) has four tables. A device sends an encrypted heartbeat (app/routers/auth.py);
-- the first one registers it under the configured default, every one is answered with the
-- authorization in its row, and every one is announced to the consoles. Administrators log in
-- (app/routers/user.py), change the configuration, the accounts and the audit log
-- (app/routers/admin.py), and see and change the devices over a WebSocket (app/routers/ws.py). The
-- client (client/python/py_auth_client) sends the heartbeats and keeps what was answered in an
-- encrypted state file, on which it relies while the server cannot be reached.
--
-- Shared: Prelude (names of the libraries, Boolean tests, lists, distinctness), Text (`str.strip`,
-- `str.lower`, and numbers as decimal text), Json (values as Python's `json` reads them; dicts as
-- ordered lists of fields).
--
-- Server:
--   App/Models       app/models.py, app/audit.py: rows, the transaction of a request, audit entries
--   App/Services     the libraries: cipher, json, password hashes, tokens, request validation
--   App/Coerce       app/coerce.py: `coerce_boolish`
--   App/Manager      app/ws_manager.py: `DeviceWSManager`
--   App/Auth         app/auth.py: ciphers, tokens, `get_current_user`, `init_admin_user`
--   App/Deps         app/deps.py: `require_admin`, and the way a route runs behind its dependency
--   App/Heartbeat    app/routers/auth.py: `_process_device`, `heartbeat`
--   App/Users        app/routers/user.py: `login`, `get_me`, `verify_token_endpoint`,
--                    `change_password`
--   App/Admin/...    app/routers/admin.py: Config, Accounts and Logs
--   App/Paging       the paging of admin.py and ws.py
--   App/Ws/...       app/routers/ws.py: Values (conversions), Devices (`get_devices`,
--                    `update_device`, `delete_device`), Batch (`delete_devices`), Session (opening,
--                    dispatch, the loop), on the exception-passing actions of Act
--   App/Invariant    the unique columns and primary keys of devices and users in app/models.py
--   App/Main         main.py: the start of a worker, the table of routes, the front end
--   App/Server       the server process: the events that change its state, one after the other
--
-- Client:
--   Client/Bundle    state_bundle.py: the map of products in the state
--   Client/Storage   state_bundle.py: the encrypted file
--   Client/Cache     auth_client.py: `AuthCache`
--   Client/Check     auth_client.py: the checks of `AuthClient`
--   Client/Deadlines auth_client.py: the limits of time
--   Client/Errors    auth_client.py: `AuthorizationError`
--   Client/Wire      auth_client.py: the encryption, and the device information that is sent
--   Client/Start     auth_client.py: `AuthClient.__init__`, `_ensure_full_device_info`
--   Client/Online    auth_client.py, device_utils.py: what an online check collects and sends
--   Client/Background auth_client.py: the shared pool of threads, the refresh in the background
--   Client/Identity  device_utils.py: the identifier of the device, computed and persisted
--   Client/Network   device_utils.py: the choice of the network card
--   Client/Disks     device_utils.py: the map from models of disks to volumes, and its older forms
--   Client/Platform  device_platform: what is made of the answers of the operating system
--   Client/Facts     device_utils.py: `collect_device_facts`
--   Client/Info      device_utils.py: `build_device_info`
--
-- Protocol joins the two: one heartbeat from the client, through the table of routes of main.py, to
-- the server and back, and a check on top of it. Since main.py puts the prefixes in front twice, the
-- heartbeat has a handler only for a `server_url` whose path ends in /api/auth; `Reached` in
-- Protocol/Route is that condition. Tool is tools/decrypt_state_bundle.py, which shows what is in a
-- state file, with the calls that it makes of bcrypt.dll in Tool/Cng. Tests has concrete inputs.
--
-- Handlers take the tables (or the world: tables, set of sockets, messages sent) and give a response
-- with the tables or the world afterwards. A database is a list of rows for each table. The clock,
-- the salt, the next primary key, what the Text column makes of a remark, whether the commit
-- succeeds, and which sends succeed are arguments, so the theorems hold for all of them. A commit
-- that the database refuses for the values of a row is one that fails. `broadcast` takes the changes
-- that other tasks make to the set of sockets during each of its awaits. The retries of the client
-- are three attempts of two writes, as lists of what each attempt meets.
--
-- Loops are structural recursion. Three run on fuel: the search for an unused key of a volume, which
-- has one round more than there are used keys (one of so many different keys is unused); and the
-- digits of a number, in base 10 and 16, which have as many rounds as the number has digits or more.
--
-- Not modelled: the web console and the Go and TypeScript clients (other languages);
-- app/database.py and app/middleware.py (set-up of libraries); logging and debug output; the
-- subprocesses, registry calls and sockets by which device_utils.py and device_platform ask the
-- operating system, whose answers are arguments; the thread pools and futures that only run these
-- queries and the checks at once; the attributes that hide a file on Windows. Two requests are not
-- interleaved except at the awaits of `broadcast`. Race conditions of the database, such as two first
-- heartbeats of one device, appear as a commit that fails. Times are whole seconds on the server and
-- millionths of a second in the client.
pub mod Prelude
pub mod Text
pub mod Json
pub mod App
pub mod Client
pub mod Protocol
pub mod Tool
mod Tests
