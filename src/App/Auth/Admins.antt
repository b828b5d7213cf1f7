-- ===== src/App/Auth/Admins.antt =====
-- The first administrator.
use py_auth.Prelude.{
  String, ◌≡◌, ◌≢◌, true, none, some, [], ◌∷◌, ◌++◌, find-append_none, ◌is◌, is_refl, arith,
}
use py_auth.App.Models.{User, Db, Env, done, find_user}
use py_auth.App.Services.{Services}
use py_auth.App.Auth.{new_user, init_admin_user}

-- After a start that did not fail, starting again changes nothing, and there is a user of the
-- configured name.
pub init_admin_user_twice :
    (sv : Services) (env again : Env) (name password : String) (db : Db) (names : String × String)
    → (init_admin_user sv env name password db).0 ≡ done names
    → (init_admin_user sv again name password (init_admin_user sv env name password db).1
        ≡ (done (name, password), (init_admin_user sv env name password db).1))
      × (find_user name (init_admin_user sv env name password db).1 ≢ none)
unfolding init_admin_user find_user
init_admin_user_twice sv env again name password db names h = ground (
  arith,
  is_refl name,
  λ (e : find_user name db ≡ none).
      find-append_none (λ (u : User). u.username is name) db.users
        (new_user sv env name password true true db) e,
)

-- Where no user has the configured name and the commit succeeds, the start adds an active
-- administrator of that name, whose hash is that of the configured password; the other users stay.
pub init_admin_user_new :
    (sv : Services) (env : Env) (name password : String) (db : Db)
    → find_user name db ≡ none
    → env.commit_ok ≡ true
    → (init_admin_user sv env name password db ≡ (
      done (name, password),
      record db { users = db.users ++ new_user sv env name password true true db ∷ [] },
    ))
      × (find_user name (init_admin_user sv env name password db).1
          ≡ some (new_user sv env name password true true db))
unfolding init_admin_user find_user new_user
init_admin_user_new sv env name password db h ok = ground (
  arith,
  is_refl name,
  find-append_none (λ (u : User). u.username is name) db.users
      (new_user sv env name password true true db) h,
)
