-- ===== src/App/Users/Login.antt =====
-- Login, and what a change of password does to the next login.
use py_auth.Prelude.{
  ℕ, ◌*◌, String, ◌≡◌, ◌≢◌, refl, true, false, Option, none, some, arith, find-update, ◌==◌, ==_iff,
  ◌is◌, is_iff, Option-cases, inl, inr, length, length-append, ◌+◌, sym, ap, ◌∙◌, [], ◌∷◌, map,
  if◌then◌else◌,
}
use py_auth.App.Models.{User, Db, Env, done, fail, find_user, add_operation_log, OperationLog}
use py_auth.App.Services.{Services}
use py_auth.App.Auth.{authenticate_user, get_current_user}
use py_auth.App.Auth.Tokens.{token_roundtrip, login_payload, current-active, find_user-name}
use py_auth.App.Deps.{as_user, run_with_done}
use py_auth.App.Users.{
  TokenResponse, login, token_response, with_password, change_password, change_password_of,
}

login_done :
    (sv : Services) (minutes now : ℕ) (db : Db) (username password : String) (reply : TokenResponse)
    → login sv minutes now db username password ≡ done reply
    → (user : User) × (find_user username db ≡ some user)
      × (sv.verify password user.password_hash ≡ true)
      × (user.is_active ≡ true)
      × (token_response sv minutes now user ≡ reply)
unfolding login authenticate_user
login_done sv minutes now db username password reply h =
    elim (Option-cases (find_user username db)) [
      | inl e ↦ absurd (ground arith)
      | inr (user, e) ↦ (user, e, ground arith, ground arith, ground arith)
    ]

-- A login that succeeds is one of an active user whose stored hash the password verifies, and the
-- token that it hands out leads back to that very row, at every time at which the token library
-- still returns the payload that was signed.
pub login_token :
    (sv : Services) (minutes now later : ℕ) (db : Db) (username password : String)
    (reply : TokenResponse)
    → login sv minutes now db username password ≡ done reply
    → sv.jwt_decode later
        (sv.jwt_encode (login_payload minutes now (some (minutes * 60)) reply.username))
      ≡ some (login_payload minutes now (some (minutes * 60)) reply.username)
    → (user : User) × (find_user username db ≡ some user)
      × (sv.verify password user.password_hash ≡ true)
      × (reply.is_admin ≡ user.is_admin)
      × (get_current_user sv later db (some reply.access_token) ≡ done user)
unfolding token_response
login_token sv minutes now later db username password reply h decodes =
    let (user, found, verified, active, same) =
      login_done sv minutes now db username password reply h in
    let name : reply.username ≡ user.username = ap (λ (r : TokenResponse). r.username) (sym same) in
    (
      user,
      found,
      verified,
      ap (λ (r : TokenResponse). r.is_admin) (sym same),
      ap (λ (r : TokenResponse). get_current_user sv later db (some r.access_token)) (sym same)
          ∙ token_roundtrip sv minutes now later (some (minutes * 60)) db user
              (find_user-name username db user found) active (rw name at decodes),
    )

changed :
    (sv : Services) (env : Env) (old new : String) (db : Db) (user : User) (message : String)
    → find_user user.username db ≡ some user
    → (change_password_of sv env old new db user).0 ≡ done message
    → find_user user.username (change_password_of sv env old new db user).1
      ≡ some (with_password sv env new user)
unfolding change_password_of find_user add_operation_log
changed sv env old new db user message found h = ground (
  arith,
  find-update (λ (u : User). u.username is user.username) (λ (u : User). u.id == user.id)
      (with_password sv env new) db.users user (λ u. unfold with_password in refl) found
      ((==_iff user.id user.id).1 refl),
)

authenticate_found :
    (sv : Services) (db : Db) (username password : String) (user : User)
    → find_user username db ≡ some user
    → authenticate_user sv db username password
      ≡ (if sv.verify password user.password_hash then some user else none)
unfolding authenticate_user
authenticate_found sv db username password user h = ground arith

-- After a change of password that succeeded the new password authenticates the user and the old
-- one does not, provided that the hash library verifies the first and refuses the second.
pub change_password-authenticate :
    (sv : Services) (env : Env) (credentials : Option String) (old new : String) (db : Db)
    (user : User) (message : String)
    → get_current_user sv env.now db credentials ≡ done user
    → (change_password sv env credentials old new db).0 ≡ done message
    → sv.verify new (sv.hash env.salt new) ≡ true
    → sv.verify old (sv.hash env.salt new) ≡ false
    → (authenticate_user sv (change_password sv env credentials old new db).1 user.username new
        ≡ some (with_password sv env new user))
      × (authenticate_user sv (change_password sv env credentials old new db).1 user.username old
          ≡ none)
unfolding change_password as_user
change_password-authenticate sv env credentials old new db user message current h good bad =
    let (active, found) = current-active sv env.now db credentials user current in
    rw current (
      let db' = (change_password_of sv env old new db user).1 in
      let found' = changed sv env old new db user message found (rw current at h) in
      (
        authenticate_found sv db' user.username new (with_password sv env new user) found'
            ∙ (unfold with_password in rw good),
        authenticate_found sv db' user.username old (with_password sv env new user) found'
            ∙ (unfold with_password in rw bad),
      ))

change_password_of_done :
    (sv : Services) (env : Env) (old new : String) (db : Db) (user : User) (message : String)
    → (change_password_of sv env old new db user).0 ≡ done message
    → (sv.verify old user.password_hash ≡ true)
      × (old ≢ new)
      × (length (change_password_of sv env old new db user).1.logs ≡ length db.logs + 1)
unfolding change_password_of add_operation_log
change_password_of_done sv env old new db user message h = (
  ground arith,
  λ e. ground (arith, (is_iff old new).1 e),
  ground (
    arith,
    length-append db.logs (
        record {
          id = env.next_id (map (λ (l : OperationLog). l.id) db.logs);
          username = user.username;
          action = "change_password";
          target_type = "user";
          target_id = some user.username;
          detail = none;
          created_at = env.now;
        }
        ∷ []),
  ),
)

-- A change of password that succeeds was asked for by a logged-in user who gave the right old
-- password and another new one, and leaves one entry in the audit log.
pub change_password_done :
    (sv : Services) (env : Env) (credentials : Option String) (old new : String) (db : Db)
    (message : String)
    → (change_password sv env credentials old new db).0 ≡ done message
    → (user : User) × (get_current_user sv env.now db credentials ≡ done user)
      × (sv.verify old user.password_hash ≡ true)
      × (old ≢ new)
      × (length (change_password sv env credentials old new db).1.logs ≡ length db.logs + 1)
unfolding change_password as_user
change_password_done sv env credentials old new db message h =
    let (user, current) =
      run_with_done (get_current_user sv env.now db credentials) db
        (change_password_of sv env old new db) message h in
    let (verified, other, logged) =
      change_password_of_done sv env old new db user message (rw current at h) in
    (user, current, verified, other, rw current logged)

-- A change of password that fails leaves the tables as they were.
pub change_password_failed :
    (sv : Services) (env : Env) (credentials : Option String) (old new : String) (db : Db)
    (status : ℕ) (message : String)
    → (change_password sv env credentials old new db).0 ≡ fail status message
    → (change_password sv env credentials old new db).1 ≡ db
unfolding change_password change_password_of as_user
change_password_failed sv env credentials old new db status message h = ground arith
